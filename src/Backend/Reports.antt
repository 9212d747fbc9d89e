-- ===== src/Backend/Reports.antt =====
-- What a frame of the sensors does to the locations of the locos
-- (loco_controller/src/backend.rs).
use locoloco.Common.{
  ℕ, suc, ◌≡◌, refl, sym, ap, subst, ◌∙◌, Option, none, some, List, [], ◌∷◌, ◌++◌, length, Result,
  ok, get, get-insert, ◌==◌, if◌then◌else◌, arith,
}
use locoloco.Protocol.Types.{
  LocoId, SensorId, SensorStatus, SensorsStatusArray, Header, sensors_status, loco_id_eq,
}
use locoloco.Protocol.Operation
use locoloco.Protocol.LocoId
use locoloco.Protocol.SensorId
use locoloco.Wire.{Wire, Traffic, IsWire}
use locoloco.Backend.Types.{Error, Backend}
use locoloco.Backend.State.{IsFull}
use locoloco.Backend.Frames.{check_header}
use locoloco.Backend.Sensors.{
  sighting, set_location, read_reports, handle_op_sensors_status, dispatch_sensors, serve_round,
}
use locoloco.Backend.Totality.{with_loco_info_lem, with_loco_info-IsTotal}

-- Where the backend takes a loco to be.
abbrev pub location_of : {S : Type 0} → Backend S → LocoId → Option SensorId
location_of b id = elim (get b.loco_info id) [ some info ↦ info.location | none ↦ none ]

abbrev pub Sighting : Type 0
Sighting = LocoId × SensorId

-- the reports of a frame as bytes
abbrev pub reports_bytes : List Sighting → List ℕ
reports_bytes [] = []
reports_bytes ((id, sensor) ∷ rest) = SensorId.into sensor ∷ LocoId.into id ∷ reports_bytes rest

-- where a loco was last seen, if it was known to be at `before`
abbrev pub last_seen : LocoId → List Sighting → Option SensorId → Option SensorId
last_seen id [] before = before
last_seen id ((other, sensor) ∷ rest) before =
    last_seen id rest (if other == id then some sensor else before)

sighting-into :
    (id : LocoId) (sensor : SensorId)
    → sighting (some (record { sensor_id = SensorId.into sensor; loco_id = LocoId.into id }))
      ≡ ok (id, sensor)
unfolding sighting
sighting-into id sensor =
    rw (LocoId.into-IsCode.from_into id, SensorId.into-IsCode.from_into sensor)

module _ {S : Type 0} where
  location_of-set_location :
      (b : Backend S) (id j : LocoId) (sensor : SensorId)
      → IsFull b
      → ((set_location id sensor b).0 ≡ ok tt)
        × (location_of (set_location id sensor b).1 j
            ≡ (if id == j then some sensor else location_of b j))
  unfolding set_location
  location_of-set_location b id j sensor full =
      let (info, e) = full id in
      let stored =
        with_loco_info_lem id (λ i. (ok tt, record i { location = some sensor })) b info e in
      (
        ap (λ p. p.0) stored,
        ap (λ p. location_of p.1 j) stored
            ∙ ground (arith, get-insert id j (record info { location = some sensor }) b.loco_info),
      )

  set_location-IsFull :
      (b : Backend S) (id : LocoId) (sensor : SensorId)
      → IsFull b
      → IsFull (set_location id sensor b).1
  unfolding set_location
  set_location-IsFull b id sensor full =
      (with_loco_info-IsTotal id (λ info. (ok tt, record info { location = some sensor }))
        (λ info p. cc) b full).0

module _ {S : Type 0} (w : Wire S) (t : Traffic S) (lawful : IsWire w t) where
  read_reports-suc :
      (n : ℕ) (stream : S) (b : Backend S) (report : SensorStatus) (id : LocoId) (sensor : SensorId)
      → (w.sensor_status.decode_from_std_read stream).0 ≡ some report
      → sighting (some report) ≡ ok (id, sensor)
      → (set_location id sensor b).0 ≡ ok tt
      → read_reports w (suc n) stream b
        ≡ read_reports w n
            (w.sensor_status.decode_from_std_read stream).1
            (set_location id sensor b).1
  unfolding read_reports
  read_reports-suc n stream b report id sensor e f g = rw (e, f, g, read_reports)

  -- The reports were read, with `rest` left, and each loco is where it was last seen.
  pub record IsRead (rs : List Sighting) (rest : List ℕ) (b : Backend S)
      (out : Result Error (Unit {0}) × S × Backend S) : Type 0 where
    pub done : out.0 ≡ ok tt
    pub left : t.incoming out.1 ≡ rest
    pub located : (id : LocoId) → location_of out.2 id ≡ last_seen id rs (location_of b id)

  read_reports-IsRead :
      (rs : List Sighting) (rest : List ℕ) (stream : S) (b : Backend S)
      → IsFull b
      → t.incoming stream ≡ reports_bytes rs ++ rest
      → IsRead rs rest b (read_reports w (length rs) stream b)
  unfolding read_reports
  read_reports-IsRead [] rest stream b full e = record {
    done = refl;
    left = e;
    located = λ id. refl;
  }
  read_reports-IsRead ((id, sensor) ∷ rs) rest stream b full e =
      let report : SensorStatus = record {
        sensor_id = SensorId.into sensor;
        loco_id = LocoId.into id;
      } in
      let (read, left, _) =
        lawful.sensor_status_codec.reads stream report (reports_bytes rs ++ rest) e in
      let done = (location_of-set_location b id id sensor full).0 in
      let step =
        read_reports-suc (length rs) stream b report id sensor read (sighting-into id sensor)
          done in
      let ih =
        read_reports-IsRead rs rest (w.sensor_status.decode_from_std_read stream).1
          (set_location id sensor b).1 (set_location-IsFull b id sensor full) left in
      subst (IsRead ((id, sensor) ∷ rs) rest b) (sym step) (record {
        done = ih.done;
        left = ih.left;
        located =
            λ j. ih.located j ∙ ap (last_seen j rs) (location_of-set_location b id j sensor full).1;
      })

  -- the steps of a round before the reports
  serve_round-reports :
      (n payload_len : ℕ) (stream : S) (b : Backend S)
      → let read = w.header.decode_from_std_read stream in
        let array = w.sensors_status_array.decode_from_std_read read.1 in
        read.0
          ≡ some (record {
            magic = 0xab;
            operation = Operation.into sensors_status;
            payload_len = payload_len;
          })
        → array.0 ≡ some (record { len = n })
        → serve_round w stream b ≡ read_reports w n array.1 b
  unfolding serve_round check_header Operation.try_from Operation.into
  serve_round-reports n payload_len stream b h a =
      rw (h, serve_round, dispatch_sensors, handle_op_sensors_status, a)

  -- Under the laws of `IsWire`: if the backend has an entry for each loco and a frame of the sensors
  -- arrives, one round reads the
  -- whole frame and succeeds, and each loco is then where the frame reports it last, or where it was
  -- if the frame does not report it.
  pub serve_round-IsRead :
      (rs : List Sighting) (payload_len : ℕ) (rest : List ℕ) (stream : S) (b : Backend S)
      → IsFull b
      → t.incoming stream
        ≡ 0xab ∷ Operation.into sensors_status ∷ payload_len ∷ length rs ∷ reports_bytes rs ++ rest
      → IsRead rs rest b (serve_round w stream b)
  serve_round-IsRead rs payload_len rest stream b full e =
      let header : Header = record {
        magic = 0xab;
        operation = Operation.into sensors_status;
        payload_len = payload_len;
      } in
      let (h, hl, _) =
        lawful.header_codec.reads stream header (length rs ∷ reports_bytes rs ++ rest) e in
      let stream' = (w.header.decode_from_std_read stream).1 in
      let array : SensorsStatusArray = record { len = length rs } in
      let (a, al, _) = lawful.array_codec.reads stream' array (reports_bytes rs ++ rest) hl in
      subst (IsRead rs rest b) (sym (serve_round-reports (length rs) payload_len stream b h a)) (
        read_reports-IsRead rs rest (w.sensors_status_array.decode_from_std_read stream').1 b full
          al)
