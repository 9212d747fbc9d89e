-- ===== src/Examples/Frames.antt =====
-- Frames on a stream that is two lists.
use locoloco.Common.{insert, ◌≡◌, ◌≢◌, refl, true, none, some, [], ◌∷◌, ok, get}
use locoloco.Protocol.Types.{loco1, loco2, loco_id_eq, connect}
use locoloco.Protocol.Operation
use locoloco.Protocol.LocoId
use locoloco.Backend.Types.{Backend, LocoInfo}
use locoloco.Backend.State.{new}
use locoloco.Backend.Locos.{handle_loco_connection}
use locoloco.Backend.Connections.{handle_loco_connection_refused, handle_loco_connection_connects}
use locoloco.Examples.Pipe.{Pipe, pipe, traffic, pipe-IsWire}

abbrev info : LocoInfo Pipe
info = record { stream = some ([], 7 ∷ []); location = none; intent = none }

abbrev connected : Backend Pipe
connected = record {
  loco_info =
      (loco1, info)
      ∷ (loco2, record { stream = some ([], []); location = none; intent = none })
      ∷ [];
  actuator_info = record { stream = none };
  oracle_enabled = true;
}

at_loco1 : get connected.loco_info loco1 ≡ some info
unfolding get
at_loco1 = refl

-- the sensors report the second loco at the fifth reader
abbrev report : Pipe
report = (0xab ∷ 4 ∷ 3 ∷ 1 ∷ 5 ∷ 2 ∷ [], [])

refused : (handle_loco_connection pipe report new).0 ≢ ok tt
unfolding handle_loco_connection new
refused p = cc

handle_loco_connection_refused_example : (handle_loco_connection pipe report new).1 ≡ new
handle_loco_connection_refused_example = handle_loco_connection_refused pipe report new refused

abbrev hello : Pipe
hello = (0xab ∷ 1 ∷ 1 ∷ 1 ∷ 9 ∷ [], [])

hello-incoming :
    traffic.incoming hello ≡ 0xab ∷ Operation.into connect ∷ 1 ∷ LocoId.into loco1 ∷ 9 ∷ []
unfolding Operation.into LocoId.into
hello-incoming = refl

handle_loco_connection_connects_example :
    (stream' : Pipe) × (traffic.incoming stream' ≡ 9 ∷ [])
    × (handle_loco_connection pipe hello connected ≡ (
      ok tt,
      record connected {
        loco_info = insert loco1 (record info { stream = some stream' }) connected.loco_info;
      },
    ))
handle_loco_connection_connects_example =
    handle_loco_connection_connects pipe traffic pipe-IsWire loco1 1 (9 ∷ []) hello connected info
      hello-incoming at_loco1
