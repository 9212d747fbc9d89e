-- ===== src/Backend/Totality/Sensors.antt =====
-- Panics of the sensors' connection (loco_controller/src/backend.rs).
use locoloco.Common.{ℕ, zero, suc, ◌≢◌, refl, Option, none, some, Result, ok, err, panic, arith}
use locoloco.Protocol.Types.{LocoId, SensorId, Operation, sensors_status, SensorStatus}
use locoloco.Wire.{Wire}
use locoloco.Backend.Types.{Error, Backend, decode_from_stream}
use locoloco.Backend.State.{IsFull}
use locoloco.Backend.Frames.{check_header}
use locoloco.Backend.Totality.{IsTotal, with_loco_info-IsTotal, check_header-ne-panic}
use locoloco.Backend.Sensors.{
  sighting, set_location, read_reports, handle_op_sensors_status, dispatch_sensors, serve_round,
}

sighting-ne-panic : (s : Option SensorStatus) → sighting s ≢ panic
unfolding sighting
sighting-ne-panic s = ground arith

module _ {S : Type 0} (w : Wire S) where
  set_location-IsTotal : (id : LocoId) (s : SensorId) → IsTotal (set_location {S = S} id s)
  unfolding set_location
  set_location-IsTotal id s = with_loco_info-IsTotal id _ (λ info p. cc)

  -- the state and the result of an operation that also returns its stream
  abbrev IsTotalOn : (S → Backend S → Result Error (Unit {0}) × S × Backend S) → Type 0
  IsTotalOn f =
      (stream : S) (b : Backend S) → IsFull b → IsFull (f stream b).2 × ((f stream b).0 ≢ panic)

  located :
      (f : S → Backend S → Result Error (Unit {0}) × S × Backend S)
      → IsTotalOn f
      → (stream : S) (r : Result Error (Unit {0})) (b : Backend S) → IsFull b
      → r ≢ panic
      → let out : Result Error (Unit {0}) × S × Backend S = elim r [
        | ok _ ↦ f stream b
        | err e ↦ (err e, stream, b)
        | panic ↦ (panic, stream, b)
      ] in
        IsFull out.2 × (out.0 ≢ panic)
  located f t stream (ok u) b full h = t stream b full
  located f t stream (err e) b full h = (full, λ p. cc)
  located f t stream panic b full h = absurd (h refl)

  sighted :
      (f : S → Backend S → Result Error (Unit {0}) × S × Backend S)
      → IsTotalOn f
      → (stream : S) (r : Result Error (LocoId × SensorId)) (b : Backend S) → IsFull b
      → r ≢ panic
      → let out : Result Error (Unit {0}) × S × Backend S = elim r [
        | ok (id, sensor) ↦
            let (u, b') = set_location id sensor b in
            elim u [
              | ok _ ↦ f stream b'
              | err e ↦ (err e, stream, b')
              | panic ↦ (panic, stream, b')
            ]
        | err e ↦ (err e, stream, b)
        | panic ↦ (panic, stream, b)
      ] in
        IsFull out.2 × (out.0 ≢ panic)
  sighted f t stream (ok (id, sensor)) b full h =
      let (full', k) = set_location-IsTotal id sensor b full in
      located f t stream (set_location id sensor b).0 (set_location id sensor b).1 full' k
  sighted f t stream (err e) b full h = (full, λ p. cc)
  sighted f t stream panic b full h = absurd (h refl)

  read_reports-IsTotal : (n : ℕ) → IsTotalOn (read_reports w n)
  unfolding read_reports
  read_reports-IsTotal zero stream b full = (full, λ p. cc)
  read_reports-IsTotal (suc n) stream b full =
      let (report, stream') = w.sensor_status.decode_from_std_read stream in
      sighted (read_reports w n) (read_reports-IsTotal n) stream' (sighting report) b full
        (sighting-ne-panic report)

  handle_op_sensors_status-IsTotal : IsTotalOn (handle_op_sensors_status w)
  unfolding handle_op_sensors_status
  handle_op_sensors_status-IsTotal stream b full =
      let (array, stream') = w.sensors_status_array.decode_from_std_read stream in
      elim array
        as (λ a.
          let out : Result Error (Unit {0}) × S × Backend S = elim a [
            | none ↦ (err decode_from_stream, stream', b)
            | some x ↦ read_reports w x.len stream' b
          ] in
          IsFull out.2 × (out.0 ≢ panic)) [
            | none ↦ (full, λ p. cc)
            | some a ↦ read_reports-IsTotal a.len stream' b full
          ]

  dispatch_sensors-IsTotal : (op : Operation) → IsTotalOn (dispatch_sensors w op)
  unfolding dispatch_sensors
  dispatch_sensors-IsTotal sensors_status stream b full =
      handle_op_sensors_status-IsTotal stream b full
  dispatch_sensors-IsTotal _ stream b full = (full, λ p. cc)

  checked :
      (f : Operation → S → Backend S → Result Error (Unit {0}) × S × Backend S)
      → ((op : Operation) → IsTotalOn (f op))
      → (stream : S) (r : Result Error Operation) (b : Backend S) → IsFull b
      → r ≢ panic
      → let out : Result Error (Unit {0}) × S × Backend S = elim r [
        | ok op ↦ f op stream b
        | err e ↦ (err e, stream, b)
        | panic ↦ (panic, stream, b)
      ] in
        IsFull out.2 × (out.0 ≢ panic)
  checked f t stream (ok op) b full h = t op stream b full
  checked f t stream (err e) b full h = (full, λ p. cc)
  checked f t stream panic b full h = absurd (h refl)

  -- One round of the sensors' connection does not panic, whatever the stream delivers, and keeps an
  -- entry for each loco.
  pub serve_round-IsTotal :
      (stream : S) (b : Backend S)
      → IsFull b
      → IsFull (serve_round w stream b).2 × ((serve_round w stream b).0 ≢ panic)
  unfolding serve_round
  serve_round-IsTotal stream b full =
      let (header, stream') = w.header.decode_from_std_read stream in
      checked (dispatch_sensors w) dispatch_sensors-IsTotal stream' (check_header header) b full
        (check_header-ne-panic header)
