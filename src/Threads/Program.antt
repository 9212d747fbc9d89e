-- ===== src/Threads/Program.antt =====
-- `main` of loco_controller/src/main.rs: its threads from the start on.
use locoloco.Common.{ℕ, Option, none, some, List, [], ◌∷◌, Result, ok, err, panic}
use locoloco.Wire.{Wire}
use locoloco.Backend.Types.{Error, Backend}
use locoloco.Backend.State.{new}
use locoloco.Oracle.Types.{Oracle}
use locoloco.Oracle.Process.{init}
use locoloco.Http.{Request, panicked, serve}
use locoloco.Threads.{backend_locos, backend_sensors, backend_actuators, backend_oracle}

-- What the program meets: a connection that one of the listeners accepts, with the fuel for that of the
-- sensors, a round of the oracle, or an HTTP request.
pub data Event (S : Type 0) : Type 0 where
  locos actuators : S → Event S
  sensors : ℕ → S → Event S
  oracle_round : Event S
  http : Request → Event S

-- The backend that the threads share, and the oracle of its thread.
pub record Program (S : Type 0) : Type 0 where
  pub backend : Backend S
  pub oracle : Oracle

-- a thread that goes on with its loop; an error or a panic ends it
unfoldable pub go_on :
    {S : Type 0} → Oracle → Result Error (Unit {0}) × Backend S → Option (Program S)
go_on o (ok _, b) = some (record { backend = b; oracle = o })
go_on o (err e, b) = none
go_on o (panic, b) = none

module _ {S : Type 0} (w : Wire S) where
  -- one event, of the thread whose it is; `none` is the end of the thread or of the fuel, or a
  -- handler that panics
  unfoldable pub handle : Event S → Program S → Option (Program S)
  unfolding go_on backend_locos backend_sensors backend_actuators backend_oracle serve
  handle (locos stream) p = go_on p.oracle (backend_locos w stream p.backend)
  handle (actuators stream) p = go_on p.oracle (backend_actuators w stream p.backend)
  handle (sensors fuel stream) p = elim (backend_sensors w fuel stream p.backend) [
    | none ↦ none
    | some out ↦ go_on p.oracle out
  ]
  handle oracle_round p =
      let (r, oracle', b') = backend_oracle w p.oracle p.backend in go_on oracle' (r, b')
  handle (http request) p =
      let (response, b') = serve w request p.backend in
      elim response [ panicked ↦ none | _ ↦ some (record p { backend = b' }) ]

  unfoldable pub run : List (Event S) → Program S → Option (Program S)
  unfolding handle
  run [] p = some p
  run (e ∷ events) p = elim (handle e p) [ none ↦ none | some p' ↦ run events p' ]

  -- from `Backend::new` and `Oracle::new` on
  unfoldable pub main : List (Event S) → Option (Program S)
  unfolding run new init
  main events = run events (record { backend = new; oracle = init })
