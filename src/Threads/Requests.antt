-- ===== src/Threads/Requests.antt =====
-- The HTTP requests as calls on the backend (loco_controller/src/main.rs).
use locoloco.Common.{Bool-cases, inl, inr}
use locoloco.Protocol.Types.{switch_rails}
use locoloco.Protocol.SwitchRailsState
use locoloco.Wire.{Wire}
use locoloco.Backend.Types.{Backend}
use locoloco.Http.{
  Request, index, loco_status, control_loco, loco_intent, drive_switch_rails, oracle_mode, serve,
  handle_loco_status, handle_control_loco, handle_drive_switch_rails, handle_loco_intent,
}
use locoloco.Threads.Calls as Calls
use locoloco.Threads.Calls.{Call, call}
use locoloco.Threads.Rounds.{AreCalls, AreCalls-none, AreCalls-one}

-- A call of a request: no connection, and no report.
abbrev pub IsRequest : {S : Type 0} → Call S → Type 0
IsRequest (Calls.handle_loco_connection stream) = ⊥
IsRequest (Calls.handle_actuators_connection stream) = ⊥
IsRequest (Calls.set_location id sensor) = ⊥
IsRequest _ = Unit

module _ {S : Type 0} (w : Wire S) where
  pub serve-AreCalls : (r : Request) (b : Backend S) → AreCalls w IsRequest b (serve w r b).1
  unfolding serve handle_loco_status handle_control_loco handle_drive_switch_rails
      handle_loco_intent
  serve-AreCalls index b = AreCalls-none w b
  serve-AreCalls (loco_status id) b = unfold call in AreCalls-one w (Calls.loco_status id) tt b
  serve-AreCalls (control_loco id d s) b = elim (Bool-cases b.oracle_enabled) [
    | inl on ↦ simp on (AreCalls-none w b)
    | inr off ↦ simp off (unfold call in AreCalls-one w (Calls.control_loco id d s) tt b)
  ]
  serve-AreCalls (loco_intent id intent) b =
      unfold call in AreCalls-one w (Calls.loco_intent id intent) tt b
  serve-AreCalls (drive_switch_rails id state) b = elim (Bool-cases b.oracle_enabled) [
    | inl on ↦ simp on (AreCalls-none w b)
    | inr off ↦
        let code = SwitchRailsState.into state in
        simp off (unfold call in AreCalls-one w (Calls.drive_actuator id switch_rails code) tt b)
  ]
  serve-AreCalls (oracle_mode mode) b = unfold call in AreCalls-one w (Calls.oracle_mode mode) tt b
