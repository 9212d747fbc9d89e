-- ===== src/Pico/Actuators/Messages.antt =====
-- `SwitchRails` and `Actuators` of actuators_pico/src/bin/actuators_pico.rs.
use locoloco.Common.{
  ℕ, Option, none, some, List, [], ◌∷◌, Result, ok, err, panic, ◌==◌, if◌then◌else◌,
}
use locoloco.Protocol.Types as ProtocolTypes
use locoloco.Protocol.Types.{
  ActuatorId, ActuatorType, switch_rails, SwitchRailsState, direct, diverted, Operation,
  DriveActuatorPayload, actuator_id_eq,
}
use locoloco.Protocol.ActuatorId
use locoloco.Protocol.ActuatorType
use locoloco.Protocol.SwitchRailsState
use locoloco.Pico.Socket.{Socket}
use locoloco.Pico.Receive.{Reasons, receive}
use locoloco.Pico.Loop.{loop}
use locoloco.Pico.Actuators.Types.{
  Error, convert_loco_protocol_type, decode_from_slice, invalid_backend_protocol_magic_number,
  tcp_read, unsupported_operation, Level, low, high, Output, SwitchRails, Actuators,
}

abbrev pub reasons : Reasons Error
reasons = record {
  tcp_read = tcp_read;
  decode_from_slice = decode_from_slice;
  invalid_backend_protocol_magic_number = invalid_backend_protocol_magic_number;
  convert_loco_protocol_type = convert_loco_protocol_type;
}

-- the level of a position
unfoldable pub level_of : SwitchRailsState → Level
level_of direct = low
level_of diverted = high

module _ {G : Type 0} (o : Output G) where
  -- `SwitchRails::switch`, which cannot fail
  unfoldable pub switch : SwitchRails G → SwitchRailsState → SwitchRails G
  unfolding level_of
  switch s state = record s { gpio = o.set_level s.gpio (level_of state) }

  -- the loop, which stops behind the first switch with the id
  unfoldable pub update_first :
      ActuatorId → SwitchRailsState → List (SwitchRails G) → List (SwitchRails G)
  unfolding switch
  update_first id state [] = []
  update_first id state (s ∷ rest) =
      let later = s ∷ update_first id state rest in
      if s.id == id then switch s state ∷ rest else later

  unfoldable pub update_switch_rails :
      ActuatorId → SwitchRailsState → Actuators G → Result Error (Unit {0}) × Actuators G
  unfolding update_first
  update_switch_rails id state a =
      (ok tt, record { switch_rails = update_first id state a.switch_rails })

  -- with the converted state
  unfoldable pub drive_state :
      ActuatorId
      → Result ProtocolTypes.Error SwitchRailsState
      → Actuators G
      → Result Error (Unit {0}) × Actuators G
  unfolding update_switch_rails
  drive_state id (ok state) a = update_switch_rails id state a
  drive_state id (err e) a = (err (convert_loco_protocol_type e), a)
  drive_state id panic a = (panic, a)

  -- with the converted type, and the byte of the state
  unfoldable pub drive_type :
      ActuatorId
      → Result ProtocolTypes.Error ActuatorType
      → ℕ
      → Actuators G
      → Result Error (Unit {0}) × Actuators G
  unfolding SwitchRailsState.try_from drive_state
  drive_type id (ok switch_rails) state a = drive_state id (SwitchRailsState.try_from state) a
  drive_type id (err e) state a = (err (convert_loco_protocol_type e), a)
  drive_type id panic state a = (panic, a)

  -- with the converted id, and the bytes of the type and of the state
  unfoldable pub drive_id :
      Result ProtocolTypes.Error ActuatorId
      → (kind state : ℕ) → Actuators G
      → Result Error (Unit {0}) × Actuators G
  unfolding ActuatorType.try_from drive_type
  drive_id (ok id) kind state a = drive_type id (ActuatorType.try_from kind) state a
  drive_id (err e) kind state a = (err (convert_loco_protocol_type e), a)
  drive_id panic kind state a = (panic, a)

  -- with the decoded payload
  unfoldable pub drive :
      Option DriveActuatorPayload → Actuators G → Result Error (Unit {0}) × Actuators G
  unfolding ActuatorId.try_from drive_id
  drive none a = (err decode_from_slice, a)
  drive (some p) a = drive_id (ActuatorId.try_from p.actuator_id) p.actuator_type p.actuator_state a

module _ {S G : Type 0} (k : Socket S) (o : Output G) where
  unfoldable pub handle_op_drive_actuator :
      List ℕ → Actuators G → Result Error (Unit {0}) × Actuators G
  unfolding drive
  handle_op_drive_actuator payload a =
      drive o (k.drive_actuator_payload.decode_from_slice payload) a

  -- the `match` of `handle_messages`
  unfoldable pub dispatch :
      Operation → List ℕ → S → Actuators G → Result Error (Unit {0}) × S × Actuators G
  unfolding handle_op_drive_actuator
  dispatch ProtocolTypes.drive_actuator payload socket a =
      let (r, a') = handle_op_drive_actuator payload a in (r, socket, a')
  dispatch op payload socket a = (err (unsupported_operation op), socket, a)

  -- with the received message
  unfoldable pub handle :
      Result Error (Operation × List ℕ)
      → S
      → Actuators G
      → Result Error (Unit {0}) × S × Actuators G
  unfolding dispatch
  handle (ok (op, payload)) socket a = dispatch op payload socket a
  handle (err e) socket a = (err e, socket, a)
  handle panic socket a = (panic, socket, a)

  -- one round of `handle_messages`
  unfoldable pub handle_message : S → Actuators G → Result Error (Unit {0}) × S × Actuators G
  unfolding receive handle
  handle_message socket a =
      let (message, socket') = receive reasons k socket in handle message socket' a

  unfoldable pub handle_messages :
      ℕ → S → Actuators G → Option (Result Error (Unit {0}) × S × Actuators G)
  unfolding loop handle_message
  handle_messages fuel socket a = loop handle_message fuel socket a
