-- ===== src/Backend/Sensors.antt =====
-- The sensors' connection (loco_controller/src/backend.rs).
use locoloco.Common.{ℕ, zero, suc, Option, none, some, Result, ok, err, panic, map_err, ◌>>=◌}
use locoloco.Protocol.Types.{LocoId, SensorId, Operation, SensorStatus, sensors_status}
use locoloco.Protocol.LocoId
use locoloco.Protocol.SensorId
use locoloco.Wire.{Wire}
use locoloco.Backend.Types.{
  Error, Backend, convert_loco_protocol_type, decode_from_stream, unsupported_operation,
}
use locoloco.Backend.State.{Method, with_loco_info}
use locoloco.Backend.Frames.{retrieve_header_op}

-- a decoded report: which loco, and where
unfoldable pub sighting : Option SensorStatus → Result Error (LocoId × SensorId)
unfolding LocoId.try_from SensorId.try_from
sighting none = err decode_from_stream
sighting (some s) = do
  loco_id ← map_err convert_loco_protocol_type (LocoId.try_from s.loco_id)
  sensor_id ← map_err convert_loco_protocol_type (SensorId.try_from s.sensor_id)
  ok (loco_id, sensor_id)

unfoldable pub set_location : {S : Type 0} → LocoId → SensorId → Method S (Unit {0})
unfolding with_loco_info
set_location loco_id sensor_id =
    with_loco_info loco_id (λ info. (ok tt, record info { location = some sensor_id }))

module _ {S : Type 0} (w : Wire S) where
  -- the loop over the `n` reports that are left
  unfoldable pub read_reports : ℕ → S → Backend S → Result Error (Unit {0}) × S × Backend S
  unfolding sighting set_location
  read_reports zero stream b = (ok tt, stream, b)
  read_reports (suc n) stream b =
      let (report, stream') = w.sensor_status.decode_from_std_read stream in
      elim (sighting report) [
        | ok (loco_id, sensor_id) ↦
            let (r, b') = set_location loco_id sensor_id b in
            elim r [
              | ok _ ↦ read_reports n stream' b'
              | err e ↦ (err e, stream', b')
              | panic ↦ (panic, stream', b')
            ]
        | err e ↦ (err e, stream', b)
        | panic ↦ (panic, stream', b)
      ]

  unfoldable pub handle_op_sensors_status : S → Backend S → Result Error (Unit {0}) × S × Backend S
  unfolding read_reports
  handle_op_sensors_status stream b =
      let (array, stream') = w.sensors_status_array.decode_from_std_read stream in
      elim array [
        | none ↦ (err decode_from_stream, stream', b)
        | some a ↦ read_reports a.len stream' b
      ]

  -- the `match` of `serve_sensors`
  unfoldable pub dispatch_sensors :
      Operation → S → Backend S → Result Error (Unit {0}) × S × Backend S
  unfolding handle_op_sensors_status
  dispatch_sensors sensors_status stream b = handle_op_sensors_status stream b
  dispatch_sensors op stream b = (err (unsupported_operation op), stream, b)

  -- one round of the loop of `serve_sensors`
  unfoldable pub serve_round : S → Backend S → Result Error (Unit {0}) × S × Backend S
  unfolding retrieve_header_op dispatch_sensors
  serve_round stream b =
      let (op, stream') = retrieve_header_op w stream in
      elim op [
        | ok o ↦ dispatch_sensors o stream' b
        | err e ↦ (err e, stream', b)
        | panic ↦ (panic, stream', b)
      ]

  -- The loop of `serve_sensors`, which only an error ends; `none` is the end of the fuel.
  unfoldable pub serve_sensors :
      ℕ → S → Backend S → Option (Result Error (Unit {0}) × S × Backend S)
  unfolding serve_round
  serve_sensors zero stream b = none
  serve_sensors (suc fuel) stream b =
      let (r, stream', b') = serve_round stream b in
      elim r [ ok _ ↦ serve_sensors fuel stream' b' | other ↦ some (other, stream', b') ]
