-- ===== src/Backend/Termination.antt =====
-- The loop of `serve_sensors`, and what it takes off the stream
-- (loco_controller/src/backend.rs).
use locoloco.Common.{
  ℕ, zero, suc, ◌≤◌, ◌<◌, ◌≡◌, ◌≢◌, ◌⊎◌, inl, inr, refl, none, some, List, [], ◌∷◌, length, Result,
  ok, err, panic, arith,
}
use locoloco.Protocol.Types.{LocoId, SensorId, Operation, sensors_status}
use locoloco.Wire.{Codec, Wire, Traffic, IsWire}
use locoloco.Backend.Types.{Error, Backend, decode_from_stream}
use locoloco.Backend.Frames.{check_header}
use locoloco.Backend.Sensors.{
  sighting, set_location, read_reports, handle_op_sensors_status, dispatch_sensors, serve_round,
  serve_sensors,
}

module _ {S : Type 0} (w : Wire S) (t : Traffic S) (lawful : IsWire w t) where
  -- what the stream still delivers
  abbrev left : S → ℕ
  left stream = length (t.incoming stream)

  -- A read fails, or takes bytes off the stream.
  abbrev Takes : {A : Type 0} → Codec S A → S → Type 0
  Takes c stream =
      ((c.decode_from_std_read stream).0 ≡ none)
      ⊎ (left (c.decode_from_std_read stream).1 < left stream)

  header-Takes : (stream : S) → Takes w.header stream
  header-Takes stream = on (t.incoming stream) refl
    where
      on : (l : List ℕ) → t.incoming stream ≡ l → Takes w.header stream
      on [] e = inl (lawful.header_codec.short stream (ground arith))
      on (x ∷ []) e = inl (lawful.header_codec.short stream (ground arith))
      on (x ∷ y ∷ []) e = inl (lawful.header_codec.short stream (ground arith))
      on (x ∷ y ∷ z ∷ rest) e =
          let read =
            lawful.header_codec.reads stream (record { magic = x; operation = y; payload_len = z })
              rest e in
          inr (ground (arith, read.1))

  array-Takes : (stream : S) → Takes w.sensors_status_array stream
  array-Takes stream = on (t.incoming stream) refl
    where
      on : (l : List ℕ) → t.incoming stream ≡ l → Takes w.sensors_status_array stream
      on [] e = inl (lawful.array_codec.short stream (ground arith))
      on (x ∷ rest) e =
          let read = lawful.array_codec.reads stream (record { len = x }) rest e in
          inr (ground (arith, read.1))

  status-Takes : (stream : S) → Takes w.sensor_status stream
  status-Takes stream = on (t.incoming stream) refl
    where
      on : (l : List ℕ) → t.incoming stream ≡ l → Takes w.sensor_status stream
      on [] e = inl (lawful.sensor_status_codec.short stream (ground arith))
      on (x ∷ []) e = inl (lawful.sensor_status_codec.short stream (ground arith))
      on (x ∷ y ∷ rest) e =
          let read =
            lawful.sensor_status_codec.reads stream (record { sensor_id = x; loco_id = y }) rest
              e in
          inr (ground (arith, read.1))

  abbrev Output : Type 0
  Output = Result Error (Unit {0}) × S × Backend S

  -- If the operation succeeds, at most `n` bytes are left.
  abbrev Leaves : ℕ → Output → Type 0
  Leaves n out = out.0 ≡ ok tt → left out.1 ≤ n

  module _ (n : ℕ) (f : S → Backend S → Output) (stream : S)
      (rest : (b : Backend S) → Leaves n (f stream b)) where
    located :
        (r : Result Error (Unit {0})) (b : Backend S)
        → Leaves n
            (elim r [ ok _ ↦ f stream b | err e ↦ (err e, stream, b) | panic ↦ (panic, stream, b) ])
    located (ok u) b = rest b
    located (err e) b = λ h. cc
    located panic b = λ h. cc

    sighted :
        (r : Result Error (LocoId × SensorId)) (b : Backend S)
        → Leaves n (elim r [
          | ok (id, sensor) ↦
              let (u, b') = set_location id sensor b in
              elim u [
                | ok _ ↦ f stream b'
                | err e ↦ (err e, stream, b')
                | panic ↦ (panic, stream, b')
              ]
          | err e ↦ (err e, stream, b)
          | panic ↦ (panic, stream, b)
        ])
    sighted (ok (id, sensor)) b = located (set_location id sensor b).0 (set_location id sensor b).1
    sighted (err e) b = λ h. cc
    sighted panic b = λ h. cc

  read_reports-Leaves :
      (n : ℕ) (stream : S) (b : Backend S) → Leaves (left stream) (read_reports w n stream b)
  unfolding read_reports
  read_reports-Leaves zero stream b = λ h. omega arith
  read_reports-Leaves (suc n) stream b = elim (status-Takes stream) [
    | inl e ↦ rw (e, read_reports, sighting) (λ h. cc)
    | inr less ↦
        let (report, stream') = w.sensor_status.decode_from_std_read stream in
        sighted (left stream) (read_reports w n) stream'
          (λ b' h. let ih = read_reports-Leaves n stream' b' h in omega arith) (sighting report) b
  ]

  handle_op_sensors_status-Leaves :
      (stream : S) (b : Backend S) → Leaves (left stream) (handle_op_sensors_status w stream b)
  unfolding handle_op_sensors_status
  handle_op_sensors_status-Leaves stream b = elim (array-Takes stream) [
    | inl e ↦ rw (e, handle_op_sensors_status) (λ h. cc)
    | inr less ↦
        let (array, stream') = w.sensors_status_array.decode_from_std_read stream in
        elim array
          as (λ a. Leaves (left stream) (elim a [
            | none ↦ (err decode_from_stream, stream', b)
            | some x ↦ read_reports w x.len stream' b
          ])) [
            | none ↦ λ h. cc
            | some a ↦ λ h. let l = read_reports-Leaves a.len stream' b h in omega arith
          ]
  ]

  dispatch_sensors-Leaves :
      (op : Operation) (stream : S) (b : Backend S)
      → Leaves (left stream) (dispatch_sensors w op stream b)
  unfolding dispatch_sensors
  dispatch_sensors-Leaves sensors_status stream b = handle_op_sensors_status-Leaves stream b
  dispatch_sensors-Leaves _ stream b = λ h. cc

  checked :
      (stream : S) (r : Result Error Operation) (b : Backend S)
      → Leaves (left stream) (elim r [
        | ok op ↦ dispatch_sensors w op stream b
        | err e ↦ (err e, stream, b)
        | panic ↦ (panic, stream, b)
      ])
  checked stream (ok op) b = dispatch_sensors-Leaves op stream b
  checked stream (err e) b = λ h. cc
  checked stream panic b = λ h. cc

  -- a round that succeeds takes bytes off the stream
  serve_round-lt :
      (stream : S) (b : Backend S)
      → (serve_round w stream b).0 ≡ ok tt
      → left (serve_round w stream b).1 < left stream
  unfolding serve_round
  serve_round-lt stream b = elim (header-Takes stream) [
    | inl e ↦ rw (e, serve_round, check_header) (λ h. cc)
    | inr less ↦
        let (header, stream') = w.header.decode_from_std_read stream in
        λ h. let l = checked stream' (check_header header) b h in omega arith
  ]

  goes_on :
      (fuel : ℕ) (out : Output)
      → (out.0 ≡ ok tt → (r : Output) × (serve_sensors w fuel out.1 out.2 ≡ some r) × (r.0 ≢ ok tt))
      → (r : Output) × ((let (u, stream', b') = out in
            elim u [ ok _ ↦ serve_sensors w fuel stream' b' | other ↦ some (other, stream', b') ])
          ≡ some r)
        × (r.0 ≢ ok tt)
  goes_on fuel (ok u, stream, b) next = next refl
  goes_on fuel (err e, stream, b) next = ((err e, stream, b), refl, λ h. cc)
  goes_on fuel (panic, stream, b) next = ((panic, stream, b), refl, λ h. cc)

  -- Under the laws of `IsWire`, with more fuel than bytes that the stream still delivers, `serve_sensors` ends, and not with
  -- `Ok`.
  pub serve_sensors_ends :
      (fuel : ℕ) (stream : S) (b : Backend S)
      → length (t.incoming stream) < fuel
      → (r : Result Error (Unit {0}) × S × Backend S) × (serve_sensors w fuel stream b ≡ some r)
        × (r.0 ≢ ok tt)
  unfolding serve_sensors
  serve_sensors_ends zero stream b h = absurd (omega arith)
  serve_sensors_ends (suc fuel) stream b h = goes_on fuel (serve_round w stream b) (λ e.
      let less = serve_round-lt stream b e in
      serve_sensors_ends fuel (serve_round w stream b).1 (serve_round w stream b).2 (omega arith))
