-- ===== src/Examples/Requests.antt =====
-- HTTP requests on a backend with two locos.
use locoloco.Common.{◌≢◌, refl, true, none, some, ◌∷◌, []}
use locoloco.Protocol.Types.{LocoId, loco1, forward, normal}
use locoloco.Backend.Types.{Backend}
use locoloco.Backend.State.{new, IsFull}
use locoloco.Backend.Totality.{new-IsFull}
use locoloco.Http.{control_loco, loco_status, panicked, serve}
use locoloco.Http.Automatic.{IsQuiet, serve-IsQuiet}
use locoloco.Http.Totality.{serve-IsTotal}
use locoloco.Examples.Pipe.{Pipe, pipe}

abbrev automatic : Backend Pipe
automatic = record {
  loco_info = (loco1, record { stream = some ([], []); location = none; intent = none }) ∷ [];
  actuator_info = record { stream = none };
  oracle_enabled = true;
}

not_a_query : (id : LocoId) → control_loco loco1 forward normal ≢ loco_status id
not_a_query id p = cc

serve-IsQuiet_example :
    IsQuiet automatic (serve pipe (control_loco loco1 forward normal) automatic).1
serve-IsQuiet_example =
    serve-IsQuiet pipe (control_loco loco1 forward normal) automatic refl not_a_query

serve-IsTotal_example :
    IsFull (serve pipe (control_loco loco1 forward normal) (new {S = Pipe})).1
    × ((serve pipe (control_loco loco1 forward normal) (new {S = Pipe})).0 ≢ panicked)
serve-IsTotal_example = serve-IsTotal pipe (control_loco loco1 forward normal) new new-IsFull
