-- ===== src/Pico/Loco/Messages.antt =====
-- `Loco` of loco_pico/src/bin/loco_pico.rs: the operations, one round of `handle_messages`, its loop,
-- and one round of `main`.
use locoloco.Common.{
  ℕ, zero, suc, ◌%◌, not, Option, none, some, List, [], ◌∷◌, ◌++◌, length, take, drop, Result, ok,
  err, panic, nat_eq, if◌then◌else◌,
}
use locoloco.Protocol.Types as ProtocolTypes
use locoloco.Protocol.Types.{
  Direction, forward, Speed, stop, Operation, connect, ControlLocoPayload,
  backend_protocol_magic_number,
}
use locoloco.Protocol.Direction
use locoloco.Protocol.Speed
use locoloco.Protocol.Operation
use locoloco.Pico.Sizes.{header_size, payload_max_size, response_max_size}
use locoloco.Pico.Socket.{Socket}
use locoloco.Pico.Receive.{Reasons, receive}
use locoloco.Pico.Loop.{loop}
use locoloco.Pico.Loco.Types.{
  Error, convert_loco_protocol_type, decode_from_slice, encode_into_slice,
  invalid_backend_protocol_magic_number, invalid_encoded_header_size, tcp_read, tcp_write,
  unsupported_operation, PwmOutput, PwmController, Loco,
}
use locoloco.Pico.Loco.Motor

abbrev pub loco_id : ℕ
loco_id = 1

abbrev pub reasons : Reasons Error
reasons = record {
  tcp_read = tcp_read;
  decode_from_slice = decode_from_slice;
  invalid_backend_protocol_magic_number = invalid_backend_protocol_magic_number;
  convert_loco_protocol_type = convert_loco_protocol_type;
}

-- `n` zeros
unfoldable pub zeros : ℕ → List ℕ
zeros zero = []
zeros (suc n) = 0 ∷ zeros n

-- `Loco::new`; the defaults are those that the enums derive
unfoldable pub new : {P : Type 0} → PwmController P → Loco P
unfolding zeros
new pwm_ctrl = record {
  direction = forward;
  speed = stop;
  response = zeros response_max_size;
  pwm_ctrl = pwm_ctrl;
}

module _ {S P : Type 0} (k : Socket S) (o : PwmOutput P) where
  -- the motor, as the state says
  unfoldable pub apply : Loco P → Result Error (Unit {0}) × Loco P
  unfolding Motor.control_loco
  apply loco =
      let (r, pwm_ctrl') = Motor.control_loco o loco.direction loco.speed loco.pwm_ctrl in
      (r, record loco { pwm_ctrl = pwm_ctrl' })

  -- with the converted speed
  unfoldable pub set_speed :
      Result ProtocolTypes.Error Speed → Loco P → Result Error (Unit {0}) × Loco P
  unfolding apply
  set_speed (ok s) loco = apply (record loco { speed = s })
  set_speed (err e) loco = (err (convert_loco_protocol_type e), loco)
  set_speed panic loco = (panic, loco)

  -- with the converted direction, and the byte of the speed
  unfoldable pub set_direction :
      Result ProtocolTypes.Error Direction → ℕ → Loco P → Result Error (Unit {0}) × Loco P
  unfolding Speed.try_from set_speed
  set_direction (ok d) speed loco = set_speed (Speed.try_from speed) (record loco { direction = d })
  set_direction (err e) speed loco = (err (convert_loco_protocol_type e), loco)
  set_direction panic speed loco = (panic, loco)

  -- with the decoded payload
  unfoldable pub set_controls :
      Option ControlLocoPayload → Loco P → Result Error (Unit {0}) × Loco P
  unfolding Direction.try_from set_direction
  set_controls none loco = (err decode_from_slice, loco)
  set_controls (some p) loco = set_direction (Direction.try_from p.direction) p.speed loco

  -- A payload that gives no direction changes nothing; one that gives no speed has set the direction
  -- by then.
  unfoldable pub handle_op_control_loco : List ℕ → Loco P → Result Error (Unit {0}) × Loco P
  unfolding set_controls
  handle_op_control_loco payload loco =
      set_controls (k.control_loco_payload.decode_from_slice payload) loco

  -- the length of the response, which is written at the start of the buffer
  unfoldable pub handle_op_loco_status : Loco P → Result Error ℕ × Loco P
  unfolding Direction.into Speed.into
  handle_op_loco_status loco =
      let encoded =
        k.loco_status_response.encode_into_slice
          (record { direction = Direction.into loco.direction; speed = Speed.into loco.speed })
          (length loco.response) in
      elim encoded [
        | none ↦ (err encode_into_slice, loco)
        | some bytes ↦ (
          ok (length bytes),
          record loco { response = bytes ++ drop (length bytes) loco.response },
        )
      ]

  -- the write of a response
  unfoldable pub respond : Result Error ℕ → S → Loco P → Result Error (Unit {0}) × S × Loco P
  respond (ok resp_len) socket loco =
      let (done, socket') = k.write_all socket (take resp_len loco.response) in
      (if done then ok tt else err tcp_write, socket', loco)
  respond (err e) socket loco = (err e, socket, loco)
  respond panic socket loco = (panic, socket, loco)

  -- the `match` of `handle_messages`; only the status has a response
  unfoldable pub dispatch : Operation → List ℕ → S → Loco P → Result Error (Unit {0}) × S × Loco P
  unfolding handle_op_control_loco handle_op_loco_status respond
  dispatch ProtocolTypes.control_loco payload socket loco =
      let (r, loco') = handle_op_control_loco payload loco in (r, socket, loco')
  dispatch ProtocolTypes.loco_status payload socket loco =
      let (r, loco') = handle_op_loco_status loco in respond r socket loco'
  dispatch op payload socket loco = (err (unsupported_operation op), socket, loco)

  -- with the received message
  unfoldable pub handle :
      Result Error (Operation × List ℕ) → S → Loco P → Result Error (Unit {0}) × S × Loco P
  unfolding dispatch
  handle (ok (op, payload)) socket loco = dispatch op payload socket loco
  handle (err e) socket loco = (err e, socket, loco)
  handle panic socket loco = (panic, socket, loco)

  -- one round of `handle_messages`
  unfoldable pub handle_message : S → Loco P → Result Error (Unit {0}) × S × Loco P
  unfolding receive handle
  handle_message socket loco =
      let (message, socket') = receive reasons k socket in handle message socket' loco

  unfoldable pub handle_messages : ℕ → S → Loco P → Option (Result Error (Unit {0}) × S × Loco P)
  unfolding loop handle_message
  handle_messages fuel socket loco = loop handle_message fuel socket loco

  unfoldable pub reset : Loco P → Result Error (Unit {0}) × Loco P
  unfolding apply
  reset loco = apply (record loco { direction = forward; speed = stop })

  -- The frame of `send_connect_op`: the payload behind the space for the header, then the header.
  unfoldable pub connect_message : Result Error (List ℕ)
  unfolding Operation.into
  connect_message =
      elim (k.connect_payload.encode_into_slice (record { loco_id = loco_id }) payload_max_size) [
        | none ↦ err encode_into_slice
        | some payload ↦
            elim (k.header.encode_into_slice
              (record {
                magic = backend_protocol_magic_number;
                operation = Operation.into connect;
                payload_len = length payload % 256;
              })
              header_size) [
                | none ↦ err encode_into_slice
                | some header ↦
                    if not (nat_eq (length header) header_size)
                    then err (invalid_encoded_header_size (length header))
                    else ok (header ++ payload)
              ]
      ]

  unfoldable pub send_connect_op : S → Result Error (Unit {0}) × S
  unfolding connect_message
  send_connect_op socket = elim connect_message [
    | err e ↦ (err e, socket)
    | panic ↦ (panic, socket)
    | ok message ↦
        let (done, socket') = k.write_all socket message in
        (if done then ok tt else err tcp_write, socket')
  ]
