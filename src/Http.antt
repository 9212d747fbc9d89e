-- ===== src/Http.antt =====
-- The handlers of the HTTP interface (loco_controller/src/main.rs). actix-web, which routes the
-- requests and decodes their forms, is not modelled; a 200 text, which repeats the form, carries no
-- value here.
pub mod Automatic
pub mod Totality
use locoloco.Common.{Result, ok, err, panic, if◌then◌else◌}
use locoloco.Protocol.Types as ProtocolTypes
use locoloco.Protocol.Types.{LocoId, Direction, Speed, ActuatorId, SwitchRailsState, switch_rails}
use locoloco.Protocol.SwitchRailsState
use locoloco.Wire.{Wire}
use locoloco.Backend.Types.{Error, OracleMode, LocoIntent, LocoStatus, Backend}
use locoloco.Backend.State as State
use locoloco.Backend.Locos as Locos
use locoloco.Backend.Actuators as Actuators

-- the routes with their forms
pub data Request : Type 0 where
  index : Request
  loco_status : LocoId → Request
  control_loco : LocoId → Direction → Speed → Request
  loco_intent : LocoId → LocoIntent → Request
  drive_switch_rails : ActuatorId → SwitchRailsState → Request
  oracle_mode : OracleMode → Request

-- Status 200 with a text or with a status, 500 while the oracle runs or with the backend's error, or
-- no response since the handler panics.
pub data Response : Type 0 where
  body : Response
  json : LocoStatus → Response
  oracle_is_running : Response
  internal_server_error : Error → Response
  panicked : Response

-- the text of a success, or the error
abbrev pub respond : Result Error (Unit {0}) → Response
respond (ok _) = body
respond (err e) = internal_server_error e
respond panic = panicked

abbrev pub respond_json : Result Error LocoStatus → Response
respond_json (ok status) = json status
respond_json (err e) = internal_server_error e
respond_json panic = panicked

module _ {S : Type 0} (w : Wire S) where
  unfoldable pub handle_loco_status : LocoId → Backend S → Response × Backend S
  unfolding Locos.loco_status
  handle_loco_status loco_id b =
      let (status, b') = Locos.loco_status w loco_id b in (respond_json status, b')

  unfoldable pub handle_control_loco : LocoId → Direction → Speed → Backend S → Response × Backend S
  unfolding Locos.control_loco
  handle_control_loco loco_id direction speed b =
      if b.oracle_enabled
      then (oracle_is_running, b)
      else let (r, b') = Locos.control_loco w loco_id direction speed b in (respond r, b')

  unfoldable pub handle_loco_intent : LocoId → LocoIntent → Backend S → Response × Backend S
  unfolding State.set_loco_intent
  handle_loco_intent loco_id intent b =
      let (r, b') = State.set_loco_intent loco_id intent b in (respond r, b')

  unfoldable pub handle_drive_switch_rails :
      ActuatorId → SwitchRailsState → Backend S → Response × Backend S
  unfolding Actuators.drive_actuator SwitchRailsState.into
  handle_drive_switch_rails actuator_id state b =
      if b.oracle_enabled
      then (oracle_is_running, b)
      else let (r, b') =
          Actuators.drive_actuator w actuator_id switch_rails (SwitchRailsState.into state) b in
        (respond r, b')

  -- the service of `http_main`
  unfoldable pub serve : Request → Backend S → Response × Backend S
  unfolding handle_loco_status handle_control_loco handle_loco_intent handle_drive_switch_rails
      State.set_oracle_mode
  serve index b = (body, b)
  serve (loco_status loco_id) b = handle_loco_status loco_id b
  serve (control_loco loco_id direction speed) b = handle_control_loco loco_id direction speed b
  serve (loco_intent loco_id intent) b = handle_loco_intent loco_id intent b
  serve (drive_switch_rails actuator_id state) b = handle_drive_switch_rails actuator_id state b
  serve (oracle_mode mode) b = (body, State.set_oracle_mode mode b)
