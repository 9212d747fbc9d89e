-- ===== src/Threads/Trace.antt =====
-- The events of `main` of loco_controller/src/main.rs, and the calls on the backend that each of them
-- is.
use locoloco.Common.{
  ◌≡◌, refl, ap, ◌∙◌, Bool, true, some, List, [], ◌∷◌, ◌++◌, Result, All, if◌then◌else◌, ◌⊎◌,
}
use locoloco.Protocol.Types.{switch_rails}
use locoloco.Protocol.SwitchRailsState
use locoloco.Wire.{Wire}
use locoloco.Backend.Types.{Error}
use locoloco.Backend.Sensors.{serve_sensors}
use locoloco.Oracle.Process.{process}
use locoloco.Http.{
  Request, index, loco_status, control_loco, loco_intent, drive_switch_rails, oracle_mode,
}
use locoloco.Threads.Calls as Calls
use locoloco.Threads.Calls.{Call, interleave}
use locoloco.Threads.Rounds.{IsCommand, IsReport, interleave-append}
use locoloco.Threads.Program.{Event, locos, actuators, sensors, oracle_round, http, Program}

-- The calls that an HTTP request stands for, with the oracle on or off: a command for a loco or a
-- switch is none while the oracle is on.
abbrev pub request_calls : {S : Type 0} → Bool → Request → List (Call S)
request_calls on index = []
request_calls on (loco_status id) = Calls.loco_status id ∷ []
request_calls on (control_loco id d s) = if on then [] else Calls.control_loco id d s ∷ []
request_calls on (loco_intent id intent) = Calls.loco_intent id intent ∷ []
request_calls on (drive_switch_rails id state) =
    if on then [] else Calls.drive_actuator id switch_rails (SwitchRailsState.into state) ∷ []
request_calls on (oracle_mode mode) = Calls.oracle_mode mode ∷ []

module _ {S : Type 0} (w : Wire S) where
  -- The calls that an event is, and what becomes of the oracle.
  abbrev pub Made : Event S → Program S → Program S → List (Call S) → Type 0
  Made (locos stream) p p' calls =
      (calls ≡ Calls.handle_loco_connection stream ∷ []) × (p'.oracle ≡ p.oracle)
  Made (actuators stream) p p' calls =
      (calls ≡ Calls.handle_actuators_connection stream ∷ []) × (p'.oracle ≡ p.oracle)
  -- what `serve_sensors` does to the backend, to its end, are reports
  Made (sensors fuel stream) p p' calls =
      ((r : Result Error (Unit {0})) × (rest : S) × (serve_sensors w fuel stream p.backend
          ≡ some (r, rest, p'.backend)))
      × All IsReport calls
      × (p'.oracle ≡ p.oracle)
  -- a round of the oracle asks and commands, and while it is off it does nothing
  Made oracle_round p p' calls =
      (p'.oracle ≡ (process w p.oracle p.backend).1)
      × (p'.backend ≡ (process w p.oracle p.backend).2)
      × All IsCommand calls
      × ((p.backend.oracle_enabled ≡ true) ⊎ (calls ≡ []))
  Made (http request) p p' calls =
      (calls ≡ request_calls p.backend.oracle_enabled request) × (p'.oracle ≡ p.oracle)

  -- One event takes the program from one state to the next, by these calls.
  pub record Step (e : Event S) (p p' : Program S) (calls : List (Call S)) : Type 0 where
    pub made : Made e p p' calls
    pub left : (interleave w calls p.backend).1 ≡ p'.backend

  -- All events, one after the other, with their calls in order.
  pub data Trace : List (Event S) → Program S → Program S → List (Call S) → Type 0 where
    end : {p : Program S} → Trace [] p p []
    next :
        {e : Event S} {events : List (Event S)} {p p' p'' : Program S} {xs ys : List (Call S)}
        → Step e p p' xs
        → Trace events p' p'' ys
        → Trace (e ∷ events) p p'' (xs ++ ys)

  -- the calls of a trace lead from its first state to its last
  pub Trace-interleave :
      {events : List (Event S)} {p p' : Program S} {calls : List (Call S)}
      → Trace events p p' calls
      → (interleave w calls p.backend).1 ≡ p'.backend
  Trace-interleave end = unfold interleave in refl
  Trace-interleave (next {p = p} {xs = xs} {ys = ys} step trace) =
      interleave-append w xs ys p.backend
      ∙ ap (λ b. (interleave w ys b).1) step.left
      ∙ Trace-interleave trace
