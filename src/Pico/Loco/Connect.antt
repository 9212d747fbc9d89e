-- ===== src/Pico/Loco/Connect.antt =====
-- How a loco's board registers at the controller (loco_pico/src/bin/loco_pico.rs,
-- loco_controller/src/backend.rs).
use locoloco.Common.{ℕ, ◌≡◌, refl, some, List, [], ◌∷◌, ok, get, insert, arith}
use locoloco.Protocol.Types.{loco1, loco_id_eq, ConnectPayload, Header}
use locoloco.Protocol.LocoId
use locoloco.Protocol.Operation
use locoloco.Wire.{Wire, Traffic, IsWire}
use locoloco.Backend.Types.{LocoInfo, Backend}
use locoloco.Backend.Locos.{handle_loco_connection}
use locoloco.Backend.Connections.{handle_loco_connection_connects}
use locoloco.Pico.Socket.{Socket, IsSocket}
use locoloco.Pico.Loco.Types.{PwmOutput}
use locoloco.Pico.Loco.Messages.{connect_message}

module _ {S P : Type 0} (k : Socket S) (t : Traffic S) (network : IsSocket k t)
    (o : PwmOutput P) where
  pub connect_message-eq : connect_message k o ≡ ok (0xab ∷ 1 ∷ 1 ∷ 1 ∷ [])
  unfolding connect_message Operation.into
  connect_message-eq =
      let payload : ConnectPayload = record { loco_id = 1 } in
      let header : Header = record { magic = 0xab; operation = 1; payload_len = 1 } in
      rw
        (
          network.connect_codec.encodes payload 256 (omega arith),
          connect_message,
          network.header_codec.encodes header 3 (omega arith),
        )
        refl

  -- Under the laws of `IsSocket` and `IsWire`: the board registers with the four bytes 0xab, 1, 1 and 1,
  -- and when these arrive at the controller on a new connection, the controller takes the connection
  -- for the first loco, the one that the firmware is built for: its entry takes the stream behind the
  -- frame, and the rest of the backend stays.
  pub connect_message_accepted :
      {C : Type 0} (w : Wire C) (c : Traffic C)
      → IsWire w c
      → (rest : List ℕ) (stream : C) (b : Backend C) (info : LocoInfo C)
      → get b.loco_info loco1 ≡ some info
      → c.incoming stream ≡ 0xab ∷ 1 ∷ 1 ∷ 1 ∷ rest
      → (connect_message k o ≡ ok (0xab ∷ 1 ∷ 1 ∷ 1 ∷ []))
        × (stream' : C) × (c.incoming stream' ≡ rest)
        × (handle_loco_connection w stream b ≡ (
          ok tt,
          record b { loco_info = insert loco1 (record info { stream = some stream' }) b.loco_info },
        ))
  unfolding Operation.into LocoId.into
  connect_message_accepted w c wired rest stream b info e arrived =
      let (stream', left, accepted) =
        handle_loco_connection_connects w c wired loco1 1 rest stream b info arrived e in
      (connect_message-eq, stream', left, accepted)
