-- ===== src/Pico/Sensors/Session.antt =====
-- The loop of `handle_sensors_updates`, and what a session of it tells the controller
-- (sensors_pico/src/bin/sensors_pico.rs, loco_controller/src/backend.rs).
use locoloco.Common.{
  ℕ, zero, suc, ◌≤◌, ◌<◌, ◌≡◌, refl, sym, ap, ◌∙◌, Bool, true, false, Option, some, List, [], ◌∷◌,
  ◌++◌, length, length-append, append-nil, append_assoc, append-cancel, All, Result, ok, err, panic,
  if◌then◌else◌, ltb, ◌||◌, Bool-cases, inl, inr, arith,
}
use locoloco.Protocol.Types.{LocoId, SensorId}
use locoloco.Wire.{Wire, Traffic, IsWire}
use locoloco.Backend.Types as BackendTypes
use locoloco.Backend.Types.{Backend}
use locoloco.Backend.State.{IsFull}
use locoloco.Backend.Frames.{check_header}
use locoloco.Backend.Sensors.{serve_round, serve_sensors}
use locoloco.Backend.Totality.Sensors.{serve_round-IsTotal}
use locoloco.Backend.Reports.{Sighting, last_seen, location_of, IsRead}
use locoloco.Pico.Socket.{Socket, IsSocket}
use locoloco.Pico.Sensors.Types.{Error, SensorsData}
use locoloco.Pico.Sensors.Updates.{update}
use locoloco.Pico.Sensors.Buffer.{sightings}
use locoloco.Pico.Sensors.Delivery.{frame, is_due}
use locoloco.Pico.Sensors.Locating.{update-IsSent, frame_located}

-- What a round of the loop meets: whether more than a second has passed since the last frame, and the
-- slots as the readers left them.
abbrev pub Round : Type 0
Round = Bool × SensorsData

module _ {S : Type 0} (k : Socket S) where
  -- The loop through the rounds; an error ends it.
  unfoldable pub handle_sensors_updates :
      List Round → S → List ℕ → Result Error (Unit {0}) × S × List ℕ
  unfolding update
  handle_sensors_updates [] socket message = (ok tt, socket, message)
  handle_sensors_updates ((late, slots) ∷ rest) socket message =
      let (r, socket', message', _) = update k late socket message slots in
      elim r [
        | ok _ ↦ handle_sensors_updates rest socket' message'
        | err e ↦ (err e, socket', message')
        | panic ↦ (panic, socket', message')
      ]

-- The frames of the rounds that have something to say.
abbrev pub frames : List Round → List ℕ
frames [] = []
frames ((late, slots) ∷ rest) = (if is_due late slots then frame slots else []) ++ frames rest

-- All sightings of the rounds, in order.
abbrev pub seen : List Round → List Sighting
seen [] = []
seen ((late, slots) ∷ rest) = sightings slots ++ seen rest

-- Each round has at most eight slots.
abbrev pub IsSmall : Round → Type 0
IsSmall round = length round.1 ≤ 8

last_seen-append :
    (id : LocoId) (xs ys : List Sighting) (before : Option SensorId)
    → last_seen id (xs ++ ys) before ≡ last_seen id ys (last_seen id xs before)
last_seen-append id [] ys before = refl
last_seen-append id (x ∷ xs) ys before = last_seen-append id xs ys _

none_due : (late : Bool) (l : List Sighting) → (ltb 0 (length l) || late) ≡ false → l ≡ []
none_due late [] e = refl
none_due late (x ∷ l) e = absurd (ground arith)

module _ {S : Type 0} (k : Socket S) (t : Traffic S) (network : IsSocket k t)
    (writing : (s : S) (l : List ℕ) → (k.write_all s l).0 ≡ true) where
  -- the loop goes through all rounds, and sends their frames
  pub handle_sensors_updates-eq :
      (rounds : List Round) (socket : S) (message : List ℕ)
      → length message ≡ 259
      → All IsSmall rounds
      → let out = handle_sensors_updates k rounds socket message in
        (out.0 ≡ ok tt) × (t.sent out.1 ≡ t.sent socket ++ frames rounds)
  unfolding handle_sensors_updates
  handle_sensors_updates-eq [] socket message size small = (refl, sym (append-nil (t.sent socket)))
  handle_sensors_updates-eq ((late, slots) ∷ rest) socket message size small =
      let said = if is_due late slots then frame slots else [] in
      let one = update-IsSent k t network late socket message slots size small.0 writing in
      let (r, socket', message', _) = update k late socket message slots in
      let (fine, sent) = handle_sensors_updates-eq rest socket' message' one.buffer small.1 in
      rw (one.done, handle_sensors_updates)
        (
          fine,
          sent
              ∙ ap (λ l. l ++ frames rest) one.sent
              ∙ append_assoc (t.sent socket) said (frames rest),
        )

module _ {C : Type 0} (w : Wire C) (c : Traffic C) (wired : IsWire w c) where
  -- The session ended, and each loco is where it was last seen.
  pub record IsLocated (sights : List Sighting) (b : Backend C)
      (result : Option (Result BackendTypes.Error (Unit {0}) × C × Backend C)) : Type 0 where
    pub out : Result BackendTypes.Error (Unit {0}) × C × Backend C
    pub ended : result ≡ some out
    pub located : (id : LocoId) → location_of out.2 id ≡ last_seen id sights (location_of b id)

  -- at the end of the stream
  serve_round-nil :
      (stream : C) (b : Backend C)
      → c.incoming stream ≡ []
      → serve_round w stream b
        ≡ (err BackendTypes.decode_from_stream, (w.header.decode_from_std_read stream).1, b)
  unfolding serve_round
  serve_round-nil stream b e =
      let short = wired.header_codec.short stream (omega (arith, ap length e)) in
      rw (short, serve_round, check_header) refl

  serve_sensors-nil :
      (fuel : ℕ) (stream : C) (b : Backend C)
      → c.incoming stream ≡ []
      → IsLocated [] b (serve_sensors w (suc fuel) stream b)
  unfolding serve_sensors
  serve_sensors-nil fuel stream b e = record {
    out = (err BackendTypes.decode_from_stream, (w.header.decode_from_std_read stream).1, b);
    ended =
        ap
          (λ (o : Result BackendTypes.Error (Unit {0}) × C × Backend C). elim o.0 [
            | ok _ ↦ serve_sensors w fuel o.1 o.2
            | other ↦ some (other, o.1, o.2)
          ])
          (serve_round-nil stream b e);
    located = λ id. refl;
  }

  -- a frame, and the rest of the session
  serve_sensors-frame :
      (fuel : ℕ) (slots : SensorsData) (more : List Sighting) (rest : List ℕ) (stream : C)
      (b : Backend C)
      → IsRead w c wired (sightings slots) rest b (serve_round w stream b)
      → IsLocated more
          (serve_round w stream b).2
          (serve_sensors w fuel (serve_round w stream b).1 (serve_round w stream b).2)
      → IsLocated (sightings slots ++ more) b (serve_sensors w (suc fuel) stream b)
  unfolding serve_sensors
  serve_sensors-frame fuel slots more rest stream b one next = record {
    out = next.out;
    ended = rw (one.done, serve_sensors) next.ended;
    located = λ id.
        next.located id
        ∙ ap (last_seen id more) (one.located id)
        ∙ sym (last_seen-append id (sightings slots) more (location_of b id));
  }

  -- the frames of a session, and the end of the stream
  serve_sensors-frames :
      (rounds : List Round) (fuel : ℕ) (stream : C) (b : Backend C)
      → IsFull b
      → c.incoming stream ≡ frames rounds
      → length (frames rounds) < fuel
      → IsLocated (seen rounds) b (serve_sensors w fuel stream b)
  serve_sensors-frames rounds zero stream b full e h = absurd (omega arith)
  serve_sensors-frames [] (suc fuel) stream b full e h = serve_sensors-nil fuel stream b e
  serve_sensors-frames ((late, slots) ∷ rest) (suc fuel) stream b full e h =
      elim (Bool-cases (is_due late slots)) [
        | inl due ↦
            let split : frames ((late, slots) ∷ rest) ≡ frame slots ++ frames rest =
              ap (λ d. (if d then frame slots else []) ++ frames rest) due in
            let one = frame_located w c wired slots (frames rest) stream b full (e ∙ split) in
            let round = serve_round w stream b in
            let (full', _) = serve_round-IsTotal w stream b full in
            serve_sensors-frame fuel slots (seen rest) (frames rest) stream b one (
              serve_sensors-frames rest fuel round.1 round.2 full' one.left
                (omega (arith, h, ap length split, length-append (frame slots) (frames rest))))
        | inr not_due ↦
            let split : frames ((late, slots) ∷ rest) ≡ frames rest =
              ap (λ d. (if d then frame slots else []) ++ frames rest) not_due in
            let nothing : sightings slots ≡ [] = none_due late (sightings slots) not_due in
            rw nothing (
              serve_sensors-frames rest (suc fuel) stream b full (e ∙ split)
                (omega (arith, h, ap length split)))
      ]

-- Under the laws of `IsSocket` and `IsWire`, while the board's writes succeed, with a buffer of 259
-- bytes and at most 8 slots in each round: take a session of the board, the bytes that it wrote behind
-- those written before, and a stream of the controller on which exactly these arrive. If the backend
-- has an entry for each loco, and the fuel is more than these bytes, `serve_sensors` ends, and each
-- loco is then where the board saw it last in all the rounds, or where it was if the board did not
-- see it.
pub session-IsLocated :
    {S C : Type 0} (k : Socket S) (t : Traffic S) (network : IsSocket k t) (w : Wire C)
    (c : Traffic C) (wired : IsWire w c) (rounds : List Round) (socket : S) (message : List ℕ)
    (written : List ℕ) (fuel : ℕ) (stream : C) (b : Backend C)
    → length message ≡ 259
    → All IsSmall rounds
    → ((s : S) (l : List ℕ) → (k.write_all s l).0 ≡ true)
    → t.sent (handle_sensors_updates k rounds socket message).1 ≡ t.sent socket ++ written
    → c.incoming stream ≡ written
    → length written < fuel
    → IsFull b
    → IsLocated w c wired (seen rounds) b (serve_sensors w fuel stream b)
session-IsLocated k t network w c wired rounds socket message written fuel stream b size small
      writing sent arrived enough full =
    let (_, all) = handle_sensors_updates-eq k t network writing rounds socket message size small in
    let same : written ≡ frames rounds = append-cancel (t.sent socket) (sym sent ∙ all) in
    serve_sensors-frames w c wired rounds fuel stream b full (arrived ∙ same)
      (omega (arith, enough, ap length same))
