-- ===== src/Http/Totality.antt =====
-- Panics of the handlers (loco_controller/src/main.rs).
use locoloco.Common.{some, ◌≢◌, refl, Result, ok, err, panic, Bool-cases, inl, inr}
use locoloco.Protocol.Types.{switch_rails}
use locoloco.Protocol.SwitchRailsState
use locoloco.Wire.{Wire}
use locoloco.Backend.Types.{Error, OracleMode, LocoStatus, Backend}
use locoloco.Backend.State.{IsFull, set_loco_intent, set_oracle_mode}
use locoloco.Backend.Totality.{
  with_loco_info-IsTotal, control_loco-IsTotal, loco_status-IsTotal, drive_actuator-IsTotal,
}
use locoloco.Http.{
  Request, index, loco_status, control_loco, loco_intent, drive_switch_rails, oracle_mode, panicked,
  respond, respond_json, serve, handle_loco_status, handle_control_loco, handle_drive_switch_rails,
  handle_loco_intent,
}

respond-ne-panicked : (r : Result Error (Unit {0})) → r ≢ panic → respond r ≢ panicked
respond-ne-panicked (ok u) h = λ p. cc
respond-ne-panicked (err e) h = λ p. cc
respond-ne-panicked panic h = λ p. h refl

respond_json-ne-panicked : (r : Result Error LocoStatus) → r ≢ panic → respond_json r ≢ panicked
respond_json-ne-panicked (ok s) h = λ p. cc
respond_json-ne-panicked (err e) h = λ p. cc
respond_json-ne-panicked panic h = λ p. h refl

module _ {S : Type 0} (w : Wire S) where
  -- If the backend has an entry for each loco, every request gets a response, without a panic,
  -- whatever the connections do, and leaves an entry for each loco.
  pub serve-IsTotal :
      (r : Request) (b : Backend S)
      → IsFull b
      → IsFull (serve w r b).1 × ((serve w r b).0 ≢ panicked)
  unfolding serve handle_loco_status handle_control_loco handle_drive_switch_rails
      handle_loco_intent set_loco_intent set_oracle_mode
  serve-IsTotal index b full = (full, λ p. cc)
  serve-IsTotal (loco_status id) b full =
      let (full', k) = loco_status-IsTotal w id b full in (full', respond_json-ne-panicked _ k)
  serve-IsTotal (control_loco id d s) b full = elim (Bool-cases b.oracle_enabled) [
    | inl on ↦ simp on (full, λ p. cc)
    | inr off ↦
        let (full', k) = control_loco-IsTotal w id d s b full in
        simp off (full', respond-ne-panicked _ k)
  ]
  serve-IsTotal (loco_intent id intent) b full =
      let (full', k) =
        with_loco_info-IsTotal id (λ info. (ok tt, record info { intent = some intent }))
          (λ info p. cc) b full in
      (full', respond-ne-panicked _ k)
  serve-IsTotal (drive_switch_rails id state) b full = elim (Bool-cases b.oracle_enabled) [
    | inl on ↦ simp on (full, λ p. cc)
    | inr off ↦
        let (full', k) =
          drive_actuator-IsTotal w id switch_rails (SwitchRailsState.into state) b full in
        simp off (full', respond-ne-panicked _ k)
  ]
  serve-IsTotal (oracle_mode OracleMode.off) b full = (full, λ p. cc)
  serve-IsTotal (oracle_mode OracleMode.auto) b full = (full, λ p. cc)
