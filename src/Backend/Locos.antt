-- ===== src/Backend/Locos.antt =====
-- The operations on the locos' streams (loco_controller/src/backend.rs).
use locoloco.Common.{
  ℕ, Option, none, some, List, Result, ok, err, panic, map_err, ◌>>=◌, if◌then◌else◌,
}
use locoloco.Protocol.Types.{
  LocoId, Direction, Speed, Operation, ConnectPayload, LocoStatusResponse, connect,
}
use locoloco.Protocol.LocoId
use locoloco.Protocol.Direction
use locoloco.Protocol.Speed
use locoloco.Wire.{Wire}
use locoloco.Backend.Types.{
  Error, LocoStatus, LocoInfo, convert_loco_protocol_type, decode_from_stream, loco_not_connected,
  unsupported_operation, write_tcp_stream,
}
use locoloco.Backend.State.{Method, with_loco_info}
use locoloco.Backend.Frames.{retrieve_header_op, control_loco_message, loco_status_message}

abbrev pub loco_of : Option ConnectPayload → Result Error LocoId
loco_of none = err decode_from_stream
loco_of (some p) = map_err convert_loco_protocol_type (LocoId.try_from p.loco_id)

-- the speed and the direction of a response, with what the backend knows of the loco
unfoldable pub status_of :
    {S : Type 0} → LocoInfo S → Option LocoStatusResponse → Result Error LocoStatus
unfolding Direction.try_from Speed.try_from
status_of info none = err decode_from_stream
status_of info (some resp) = do
  direction ← map_err convert_loco_protocol_type (Direction.try_from resp.direction)
  speed ← map_err convert_loco_protocol_type (Speed.try_from resp.speed)
  ok (record {
    direction = direction;
    speed = speed;
    location = info.location;
    intent = info.intent;
  })

module _ {S : Type 0} (w : Wire S) where
  unfoldable pub handle_op_connect : S → Method S (Unit {0})
  unfolding with_loco_info LocoId.try_from
  handle_op_connect stream b =
      let (payload, stream') = w.connect_payload.decode_from_std_read stream in
      elim (loco_of payload) [
        | ok loco_id ↦
            with_loco_info loco_id (λ info. (ok tt, record info { stream = some stream' })) b
        | err e ↦ (err e, b)
        | panic ↦ (panic, b)
      ]

  -- the `match` of `handle_loco_connection`
  unfoldable pub dispatch_loco : Operation → S → Method S (Unit {0})
  unfolding handle_op_connect
  dispatch_loco connect stream b = handle_op_connect stream b
  dispatch_loco op stream b = (err (unsupported_operation op), b)

  unfoldable pub handle_loco_connection : S → Method S (Unit {0})
  unfolding retrieve_header_op dispatch_loco
  handle_loco_connection stream b =
      let (op, stream') = retrieve_header_op w stream in
      elim op [ ok o ↦ dispatch_loco o stream' b | err e ↦ (err e, b) | panic ↦ (panic, b) ]

  -- the write to the stream of an entry, if it has one
  unfoldable pub send : LocoId → List ℕ → LocoInfo S → Result Error (Unit {0}) × LocoInfo S
  send loco_id message info = elim info.stream [
    | none ↦ (err (loco_not_connected loco_id), info)
    | some stream ↦
        let (done, stream') = w.write_all stream message in
        (if done then ok tt else err write_tcp_stream, record info { stream = some stream' })
  ]

  unfoldable pub control_loco : LocoId → Direction → Speed → Method S (Unit {0})
  unfolding control_loco_message with_loco_info send
  control_loco loco_id direction speed b = elim (control_loco_message w direction speed) [
    | ok message ↦ with_loco_info loco_id (send loco_id message) b
    | err e ↦ (err e, b)
    | panic ↦ (panic, b)
  ]

  -- the request and its response, while the entry is locked
  unfoldable pub query : LocoId → List ℕ → LocoInfo S → Result Error LocoStatus × LocoInfo S
  unfolding send status_of
  query loco_id message info = elim info.stream [
    | none ↦ (err (loco_not_connected loco_id), info)
    | some stream ↦
        let (done, stream') = w.write_all stream message in
        let (resp, stream'') = w.loco_status_response.decode_from_std_read stream' in
        if done
        then (status_of info resp, record info { stream = some stream'' })
        else (err write_tcp_stream, record info { stream = some stream' })
  ]

  unfoldable pub loco_status : LocoId → Method S LocoStatus
  unfolding loco_status_message with_loco_info query
  loco_status loco_id b = elim (loco_status_message w) [
    | ok message ↦ with_loco_info loco_id (query loco_id message) b
    | err e ↦ (err e, b)
    | panic ↦ (panic, b)
  ]
