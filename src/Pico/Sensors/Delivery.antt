-- ===== src/Pico/Sensors/Delivery.antt =====
-- The sightings of the sensors' board, from its slots to the controller's locations
-- (sensors_pico/src/bin/sensors_pico.rs, loco_controller/src/backend.rs).
use locoloco.Common.{
  ℕ, suc, ◌+◌, ◌-◌, ◌≤◌, ◌≡◌, refl, sym, ap, subst, ◌∙◌, Bool, true, false, ◌||◌, none, some, List,
  [], ◌∷◌, ◌++◌, length, length-append, take, drop, take-append, append-nil, Result, ok, ltb, arith,
}
use locoloco.Protocol.Types.{Header, SensorsStatusArray}
use locoloco.Protocol.Operation
use locoloco.Wire.{Traffic}
use locoloco.Backend.Reports.{reports_bytes}
use locoloco.Pico.Socket.{Socket, IsSocket}
use locoloco.Pico.Sensors.Types.{Error, SensorsData}
use locoloco.Pico.Sensors.Updates.{
  cleared, extend_with_list, extend_with_array, with_header, send_sensors_status_op,
  send_with_array, send_filled, update, write_at,
}
use locoloco.Pico.Sensors.Buffer.{sightings, fill-eq, length-drop}

-- The frame of the sightings.
abbrev pub frame : SensorsData → List ℕ
frame slots =
    let reports = reports_bytes (sightings slots) in
    0xab ∷ 4 ∷ suc (length reports) ∷ length (sightings slots) ∷ reports

-- a sighting takes two bytes
pub length-reports :
    (slots : SensorsData) → length (reports_bytes (sightings slots)) ≤ length slots + length slots
length-reports [] = omega arith
length-reports (none ∷ slots) = omega (arith, length-reports slots)
length-reports (some d ∷ slots) = omega (arith, length-reports slots)

sightings-cleared : (slots : SensorsData) → sightings (cleared slots) ≡ []
unfolding cleared
sightings-cleared [] = refl
sightings-cleared (slot ∷ slots) = sightings-cleared slots

-- There is something to say: a sighting, or a second has passed.
abbrev pub is_due : Bool → SensorsData → Bool
is_due late slots = ltb 0 (length (sightings slots)) || late

module _ {S : Type 0} (k : Socket S) (t : Traffic S) (network : IsSocket k t) where
  -- the message, filled behind its first four bytes
  extend_with_list-eq :
      (slots : SensorsData) (a b c x : ℕ) (rest : List ℕ)
      → length slots ≤ 8
      → length rest ≡ 255
      → let reports = reports_bytes (sightings slots) in
        extend_with_list k slots (a ∷ b ∷ c ∷ x ∷ rest)
        ≡ ok (
          length (sightings slots),
          suc (length reports),
          a ∷ b ∷ c ∷ x ∷ (reports ++ drop (length reports) rest),
        )
  unfolding extend_with_list
  extend_with_list-eq slots a b c x rest few room =
      let reports = reports_bytes (sightings slots) in
      let small = length-reports slots in
      let done =
        fill-eq k t network slots 0 1 (a ∷ b ∷ c ∷ x ∷ []) rest (omega arith) (omega arith) in
      rw (done, extend_with_list) (ground arith)

  -- the length in the fourth byte
  extend_with_array-eq :
      (n a b c x : ℕ) (rest : List ℕ)
      → extend_with_array k n (a ∷ b ∷ c ∷ x ∷ rest) ≡ ok (a ∷ b ∷ c ∷ n ∷ rest)
  unfolding extend_with_array write_at
  extend_with_array-eq n a b c x rest =
      let array : SensorsStatusArray = record { len = n } in
      let room = length (a ∷ b ∷ c ∷ x ∷ rest) - 3 in
      let enough : 1 ≤ room = omega arith in
      rw (network.array_codec.encodes array room enough, extend_with_array) refl

  -- the header in the first three
  with_header-eq :
      (n a b c : ℕ) (rest : List ℕ) → with_header k n (a ∷ b ∷ c ∷ rest) ≡ ok (0xab ∷ 4 ∷ n ∷ rest)
  unfolding with_header write_at Operation.into
  with_header-eq n a b c rest =
      let header : Header = record { magic = 0xab; operation = 4; payload_len = n } in
      rw (network.header_codec.encodes header 3 (omega arith), with_header) refl

  -- A round sent `bytes`, emptied the slots and kept the size of the buffer.
  pub record IsSent (bytes : List ℕ) (socket : S)
      (out : Result Error (Unit {0}) × S × List ℕ × SensorsData) : Type 0 where
    pub done : out.0 ≡ ok tt
    pub sent : t.sent out.1 ≡ t.sent socket ++ bytes
    pub quiet : t.incoming out.1 ≡ t.incoming socket
    pub buffer : length out.2 ≡ 259
    pub empty : sightings out.3 ≡ []

  send-eq :
      (n m : ℕ) (socket : S) (a b c x : ℕ) (reports tail : List ℕ)
      → m ≡ suc (length reports)
      → ((s : S) (l : List ℕ) → (k.write_all s l).0 ≡ true)
      → let bytes : List ℕ = 0xab ∷ 4 ∷ m ∷ n ∷ reports in
        send_with_array k
          (extend_with_array k n (a ∷ b ∷ c ∷ x ∷ (reports ++ tail)))
          m
          socket
          (a ∷ b ∷ c ∷ x ∷ (reports ++ tail))
        ≡ (ok tt, (k.write_all socket bytes).1, bytes ++ tail)
  unfolding send_with_array send_sensors_status_op
  send-eq n m socket a b c x reports tail size writing =
      let bytes : List ℕ = 0xab ∷ 4 ∷ m ∷ n ∷ reports in
      let whole : 3 + m ≡ length bytes = omega (arith, size) in
      let cut : take (3 + m) (bytes ++ tail) ≡ bytes =
        ap (λ j. take j (bytes ++ tail)) whole ∙ take-append bytes tail in
      rw
        (
          extend_with_array-eq n a b c x (reports ++ tail),
          send_with_array,
          with_header-eq m a b c (n ∷ (reports ++ tail)),
          send_sensors_status_op,
          cut,
          writing socket bytes,
        )
        refl

  -- a round on a buffer whose first four bytes are known
  pub update-due :
      (late : Bool) (socket : S) (a b c x : ℕ) (rest : List ℕ) (slots : SensorsData)
      → length slots ≤ 8
      → length rest ≡ 255
      → is_due late slots ≡ true
      → ((s : S) (l : List ℕ) → (k.write_all s l).0 ≡ true)
      → IsSent (frame slots) socket (update k late socket (a ∷ b ∷ c ∷ x ∷ rest) slots)
  unfolding update send_filled
  update-due late socket a b c x rest slots few room due writing =
      let reports = reports_bytes (sightings slots) in
      let n = length (sightings slots) in
      let tail = drop (length reports) rest in
      let small = length-reports slots in
      let listed = extend_with_list-eq slots a b c x rest few room in
      let sent = send-eq n (suc (length reports)) socket a b c x reports tail refl writing in
      let (more, quiet) = network.writes socket (frame slots) (writing socket (frame slots)) in
      let step : update k late socket (a ∷ b ∷ c ∷ x ∷ rest) slots
          ≡ (ok tt, (k.write_all socket (frame slots)).1, frame slots ++ tail, cleared slots) =
        rw (listed, update, send_filled, due, sent) refl in
      subst (IsSent (frame slots) socket) (sym step) (record {
        done = refl;
        sent = more;
        quiet = quiet;
        buffer = omega (arith, length-append reports tail, length-drop (length reports) rest);
        empty = sightings-cleared slots;
      })

  -- with no sighting, and no second passed, nothing is sent
  pub update-not_due :
      (late : Bool) (socket : S) (a b c x : ℕ) (rest : List ℕ) (slots : SensorsData)
      → length slots ≤ 8
      → length rest ≡ 255
      → is_due late slots ≡ false
      → IsSent [] socket (update k late socket (a ∷ b ∷ c ∷ x ∷ rest) slots)
  unfolding update send_filled
  update-not_due late socket a b c x rest slots few room due =
      let reports = reports_bytes (sightings slots) in
      let tail = drop (length reports) rest in
      let small = length-reports slots in
      let listed = extend_with_list-eq slots a b c x rest few room in
      let step : update k late socket (a ∷ b ∷ c ∷ x ∷ rest) slots
          ≡ (ok tt, socket, a ∷ b ∷ c ∷ x ∷ (reports ++ tail), cleared slots) =
        rw (listed, update, send_filled, due) refl in
      subst (IsSent [] socket) (sym step) (record {
        done = refl;
        sent = sym (append-nil (t.sent socket));
        quiet = refl;
        buffer = omega (arith, length-append reports tail, length-drop (length reports) rest);
        empty = sightings-cleared slots;
      })
