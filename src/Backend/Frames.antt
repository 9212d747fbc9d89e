-- ===== src/Backend/Frames.antt =====
-- The frames that the backend writes, and the header that it reads (loco_controller/src/backend.rs).
use locoloco.Common.{
  ℕ, not, Option, none, some, List, ◌++◌, length, Result, ok, err, map_err, ok_or, ◌>>=◌, nat_eq,
  if◌then◌else◌, ◌%◌,
}
use locoloco.Protocol.Types as ProtocolTypes
use locoloco.Protocol.Types.{
  ActuatorId, ActuatorType, Direction, Speed, Operation, Header, backend_protocol_magic_number,
}
use locoloco.Protocol.Operation
use locoloco.Protocol.Direction
use locoloco.Protocol.Speed
use locoloco.Protocol.ActuatorId
use locoloco.Protocol.ActuatorType
use locoloco.Wire.{Wire}
use locoloco.Backend.Types.{
  Error, convert_loco_protocol_type, decode_from_stream, encode_to_vec,
  invalid_backend_protocol_magic_number,
}

-- the checks on a decoded header
unfoldable pub check_header : Option Header → Result Error Operation
unfolding Operation.try_from
check_header none = err decode_from_stream
check_header (some header) =
    if not (nat_eq header.magic backend_protocol_magic_number)
    then err (invalid_backend_protocol_magic_number header.magic)
    else map_err convert_loco_protocol_type (Operation.try_from header.operation)

module _ {S : Type 0} (w : Wire S) where
  unfoldable pub retrieve_header_op : S → Result Error Operation × S
  unfolding check_header
  retrieve_header_op stream =
      let (header, stream') = w.header.decode_from_std_read stream in (check_header header, stream')

  -- the header of a request with its payload; the length is cast to u8
  unfoldable pub header_for : Operation → ℕ → Result Error (List ℕ)
  unfolding Operation.into
  header_for operation payload_len = ok_or encode_to_vec (
      w.header.encode_to_vec (record {
        magic = backend_protocol_magic_number;
        operation = Operation.into operation;
        payload_len = payload_len % 256;
      }))

  -- the message of `control_loco`
  unfoldable pub control_loco_message : Direction → Speed → Result Error (List ℕ)
  unfolding header_for Direction.into Speed.into
  control_loco_message direction speed = do
    payload ← ok_or encode_to_vec (
        w.control_loco_payload.encode_to_vec
          (record { direction = Direction.into direction; speed = Speed.into speed }))
    message ← header_for ProtocolTypes.control_loco (length payload)
    ok (message ++ payload)

  -- the message of `loco_status`
  unfoldable pub loco_status_message : Result Error (List ℕ)
  unfolding header_for
  loco_status_message = header_for ProtocolTypes.loco_status 0

  -- the message of `drive_actuator`
  unfoldable pub drive_actuator_message : ActuatorId → ActuatorType → ℕ → Result Error (List ℕ)
  unfolding header_for ActuatorId.into ActuatorType.into
  drive_actuator_message actuator_id actuator_type actuator_state = do
    payload ← ok_or encode_to_vec (
        w.drive_actuator_payload.encode_to_vec (record {
          actuator_id = ActuatorId.into actuator_id;
          actuator_type = ActuatorType.into actuator_type;
          actuator_state = actuator_state;
        }))
    message ← header_for ProtocolTypes.drive_actuator (length payload)
    ok (message ++ payload)
