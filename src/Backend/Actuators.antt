-- ===== src/Backend/Actuators.antt =====
-- The operations on the stream of the actuators (loco_controller/src/backend.rs).
use locoloco.Common.{ℕ, none, some, ok, err, panic, List, if◌then◌else◌}
use locoloco.Protocol.Types.{ActuatorId, ActuatorType}
use locoloco.Wire.{Wire}
use locoloco.Backend.Types.{actuators_not_connected, write_tcp_stream}
use locoloco.Backend.State.{Method}
use locoloco.Backend.Frames.{drive_actuator_message}

unfoldable pub handle_actuators_connection : {S : Type 0} → S → Method S (Unit {0})
handle_actuators_connection stream b =
    (ok tt, record b { actuator_info = record { stream = some stream } })

module _ {S : Type 0} (w : Wire S) where
  -- the write to the stream, if there is one
  unfoldable pub send_actuators : List ℕ → Method S (Unit {0})
  send_actuators message b = elim b.actuator_info.stream [
    | none ↦ (err actuators_not_connected, b)
    | some stream ↦
        let (done, stream') = w.write_all stream message in
        (
          if done then ok tt else err write_tcp_stream,
          record b { actuator_info = record { stream = some stream' } },
        )
  ]

  unfoldable pub drive_actuator : ActuatorId → ActuatorType → ℕ → Method S (Unit {0})
  unfolding drive_actuator_message send_actuators
  drive_actuator actuator_id actuator_type actuator_state b =
      elim (drive_actuator_message w actuator_id actuator_type actuator_state) [
        | ok message ↦ send_actuators message b
        | err e ↦ (err e, b)
        | panic ↦ (panic, b)
      ]
