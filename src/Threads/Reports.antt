-- ===== src/Threads/Reports.antt =====
-- The sensors' thread as calls on the backend (loco_controller/src/main.rs).
use locoloco.Common.{ℕ, zero, suc, ◌≡◌, ◌≢◌, refl, subst, none, some, Result, ok, err, panic}
use locoloco.Protocol.Types.{LocoId, SensorId, Operation, sensors_status}
use locoloco.Wire.{Wire}
use locoloco.Backend.Types.{Error, Backend, decode_from_stream}
use locoloco.Backend.State.{IsFull}
use locoloco.Backend.Frames.{retrieve_header_op}
use locoloco.Backend.Sensors as Sensors
use locoloco.Backend.Sensors.{
  sighting, read_reports, handle_op_sensors_status, dispatch_sensors, serve_round, serve_sensors,
}
use locoloco.Backend.Totality.Sensors.{serve_round-IsTotal}
use locoloco.Threads.Calls.{Call, call}
use locoloco.Threads.Calls as Calls
use locoloco.Threads.Rounds.{IsReport, AreCalls, AreCalls-none, AreCalls-append, AreCalls-one}

module _ {S : Type 0} (w : Wire S) where
  -- an operation on the sensors' stream that only reports
  abbrev Reports : (S → Backend S → Result Error (Unit {0}) × S × Backend S) → Type 0
  Reports f = (stream : S) (b : Backend S) → AreCalls w IsReport b (f stream b).2

  set_location-AreCalls :
      (id : LocoId) (sensor : SensorId) (b : Backend S)
      → AreCalls w IsReport b (Sensors.set_location id sensor b).1
  set_location-AreCalls id sensor b =
      unfold call in AreCalls-one w (Calls.set_location id sensor) tt b

  located-Reports :
      (f : S → Backend S → Result Error (Unit {0}) × S × Backend S)
      → Reports f
      → (r : Result Error (Unit {0}))
      → Reports (λ stream b. elim r [
        | ok _ ↦ f stream b
        | err e ↦ (err e, stream, b)
        | panic ↦ (panic, stream, b)
      ])
  located-Reports f h (ok u) stream b = h stream b
  located-Reports f h (err e) stream b = AreCalls-none w b
  located-Reports f h panic stream b = AreCalls-none w b

  sighted-Reports :
      (f : S → Backend S → Result Error (Unit {0}) × S × Backend S)
      → Reports f
      → (r : Result Error (LocoId × SensorId))
      → Reports (λ stream b. elim r [
        | ok (id, sensor) ↦
            let (u, b') = Sensors.set_location id sensor b in
            elim u [
              | ok _ ↦ f stream b'
              | err e ↦ (err e, stream, b')
              | panic ↦ (panic, stream, b')
            ]
        | err e ↦ (err e, stream, b)
        | panic ↦ (panic, stream, b)
      ])
  sighted-Reports f h (ok (id, sensor)) stream b =
      let (u, b') = Sensors.set_location id sensor b in
      AreCalls-append w (set_location-AreCalls id sensor b) (located-Reports f h u stream b')
  sighted-Reports f h (err e) stream b = AreCalls-none w b
  sighted-Reports f h panic stream b = AreCalls-none w b

  read_reports-Reports : (n : ℕ) → Reports (read_reports w n)
  unfolding read_reports
  read_reports-Reports zero stream b = AreCalls-none w b
  read_reports-Reports (suc n) stream b =
      let (report, stream') = w.sensor_status.decode_from_std_read stream in
      sighted-Reports (read_reports w n) (read_reports-Reports n) (sighting report) stream' b

  handle_op_sensors_status-Reports : Reports (handle_op_sensors_status w)
  unfolding handle_op_sensors_status
  handle_op_sensors_status-Reports stream b =
      let (array, stream') = w.sensors_status_array.decode_from_std_read stream in
      elim array
        as (λ a.
          let out : Result Error (Unit {0}) × S × Backend S = elim a [
            | none ↦ (err decode_from_stream, stream', b)
            | some x ↦ read_reports w x.len stream' b
          ] in
          AreCalls w IsReport b out.2) [
            | none ↦ AreCalls-none w b
            | some a ↦ read_reports-Reports a.len stream' b
          ]

  dispatch_sensors-Reports : (op : Operation) → Reports (dispatch_sensors w op)
  unfolding dispatch_sensors
  dispatch_sensors-Reports sensors_status stream b = handle_op_sensors_status-Reports stream b
  dispatch_sensors-Reports _ stream b = AreCalls-none w b

  checked-Reports :
      (f : Operation → S → Backend S → Result Error (Unit {0}) × S × Backend S)
      → ((op : Operation) → Reports (f op))
      → (r : Result Error Operation)
      → Reports (λ stream b. elim r [
        | ok op ↦ f op stream b
        | err e ↦ (err e, stream, b)
        | panic ↦ (panic, stream, b)
      ])
  checked-Reports f h (ok op) stream b = h op stream b
  checked-Reports f h (err e) stream b = AreCalls-none w b
  checked-Reports f h panic stream b = AreCalls-none w b

  serve_round-Reports : Reports (serve_round w)
  unfolding serve_round
  serve_round-Reports stream b =
      let (op, stream') = retrieve_header_op w stream in
      checked-Reports (dispatch_sensors w) dispatch_sensors-Reports op stream' b

  -- How `serve_sensors` ends: without a panic, and with a backend that reports have made.
  abbrev IsServed : Backend S → Result Error (Unit {0}) × S × Backend S → Type 0
  IsServed b out = (out.0 ≢ panic) × AreCalls w IsReport b out.2

  served :
      (fuel : ℕ) (b : Backend S) (round out : Result Error (Unit {0}) × S × Backend S)
      → IsServed b round
      → (serve_sensors w fuel round.1 round.2 ≡ some out → IsServed round.2 out)
      → (elim round.0 [
        | ok _ ↦ serve_sensors w fuel round.1 round.2
        | other ↦ some (other, round.1, round.2)
      ])
        ≡ some out
      → IsServed b out
  served fuel b (ok u, stream, b') out h next e =
      let (safe, more) = next e in (safe, AreCalls-append w h.1 more)
  served fuel b (err x, stream, b') out h next e =
      let same : ◌≡◌ {A = Result Error (Unit {0}) × S × Backend S} (err x, stream, b') out = cc in
      subst (IsServed b) same h
  served fuel b (panic, stream, b') out h next e = absurd (h.0 refl)

  pub serve_sensors-IsServed :
      (fuel : ℕ) (stream : S) (b : Backend S) (out : Result Error (Unit {0}) × S × Backend S)
      → IsFull b
      → serve_sensors w fuel stream b ≡ some out
      → IsServed b out
  unfolding serve_sensors
  serve_sensors-IsServed zero stream b out full e = absurd (cc)
  serve_sensors-IsServed (suc fuel) stream b out full e =
      let (full', safe) = serve_round-IsTotal w stream b full in
      let round = serve_round w stream b in
      served fuel b round out (safe, serve_round-Reports stream b)
        (serve_sensors-IsServed fuel round.1 round.2 out full') e
