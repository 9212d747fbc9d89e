-- ===== src/Threads.antt =====
-- The threads of loco_controller/src/main.rs: what each does with one accepted connection, or in one
-- round. The listeners are those of the standard library: a definition takes the accepted stream.
pub mod Calls
pub mod Views
pub mod Refinement
pub mod Rounds
pub mod Reports
pub mod Requests
pub mod Totality
pub mod Entries
pub mod Program
pub mod Trace
pub mod Steps
pub mod Running
use locoloco.Common.{ℕ, Option, Result, ok, err, panic}
use mathlib.Core.Option
use locoloco.Wire.{Wire}
use locoloco.Backend.Types.{Error, Backend}
use locoloco.Backend.State.{Method}
use locoloco.Backend.Locos.{handle_loco_connection}
use locoloco.Backend.Actuators.{handle_actuators_connection}
use locoloco.Backend.Sensors.{serve_sensors}
use locoloco.Oracle.Types.{Oracle}
use locoloco.Oracle.Process.{process}

-- `if let Err(e) = ..`: an error goes to the log, and the thread goes on; a panic ends the thread.
abbrev pub logged : {E A : Type 0} → Result E A → Result Error (Unit {0})
logged (ok _) = ok tt
logged (err _) = ok tt
logged panic = panic

module _ {S : Type 0} (w : Wire S) where
  unfoldable pub backend_locos : S → Method S (Unit {0})
  unfolding handle_loco_connection
  backend_locos stream b = let (r, b') = handle_loco_connection w stream b in (logged r, b')

  -- `none` is the end of the fuel.
  unfoldable pub backend_sensors : ℕ → S → Backend S → Option (Result Error (Unit {0}) × Backend S)
  unfolding serve_sensors
  backend_sensors fuel stream b =
      Option.map (λ out. (logged out.0, out.2)) (serve_sensors w fuel stream b)

  unfoldable pub backend_actuators : S → Method S (Unit {0})
  unfolding handle_actuators_connection
  backend_actuators stream b = let (r, b') = handle_actuators_connection stream b in (logged r, b')

  unfoldable pub backend_oracle : Oracle → Backend S → Result Error (Unit {0}) × Oracle × Backend S
  unfolding process
  backend_oracle oracle b = let (r, oracle', b') = process w oracle b in (logged r, oracle', b')
