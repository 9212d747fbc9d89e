-- ===== src/Pico/Sensors/Buffer.antt =====
-- The buffer of the message, as the sensors' board fills it
-- (sensors_pico/src/bin/sensors_pico.rs).
use locoloco.Common.{
  ℕ, zero, suc, ◌+◌, ◌-◌, ◌≤◌, ◌≡◌, refl, sym, ap, ◌∙◌, none, some, List, [], ◌∷◌, ◌++◌, length,
  length-append, drop, take-append, drop-plus, append_assoc, Result, ok, arith,
}
use locoloco.Protocol.Types.{SensorStatus}
use locoloco.Protocol.LocoId
use locoloco.Protocol.SensorId
use locoloco.Wire.{Traffic}
use locoloco.Backend.Reports.{Sighting, reports_bytes}
use locoloco.Pico.Socket.{Socket, IsSocket}
use locoloco.Pico.Sensors.Types.{Error, SensorsData}
use locoloco.Pico.Sensors.Updates.{write_at, fill}

-- The sightings in the slots, in the order of the readers.
abbrev pub sightings : SensorsData → List Sighting
sightings [] = []
sightings (slot ∷ rest) = elim slot [
  | none ↦ sightings rest
  | some d ↦ (d.loco_id, d.sensor_id) ∷ sightings rest
]

pub write_at-append :
    (pre bytes rest : List ℕ)
    → write_at (length pre) bytes (pre ++ rest) ≡ pre ++ (bytes ++ drop (length bytes) rest)
unfolding write_at
write_at-append pre bytes rest =
    rw (take-append pre rest, drop-plus (length bytes) pre rest, write_at) refl

pub length-drop : (n : ℕ) (xs : List ℕ) → length (drop n xs) ≡ length xs - n
length-drop zero xs = omega arith
length-drop (suc n) [] = omega arith
length-drop (suc n) (x ∷ xs) = omega (arith, length-drop n xs)

drop-nil : (n : ℕ) → drop {A = ℕ} n [] ≡ []
drop-nil zero = refl
drop-nil (suc n) = refl

drop-two : (n : ℕ) (xs : List ℕ) → drop n (drop 2 xs) ≡ drop (suc (suc n)) xs
drop-two n [] = drop-nil n
drop-two n (x ∷ []) = drop-nil n
drop-two n (x ∷ y ∷ xs) = refl

-- equal counts and lists, one result
filled :
    {a b c d : ℕ} {xs ys : List ℕ}
    → a ≡ b
    → c ≡ d
    → xs ≡ ys
    → ◌≡◌ {A = Result Error (ℕ × ℕ × List ℕ)} (ok (a, c, xs)) (ok (b, d, ys))
filled e f g = cc

module _ {S : Type 0} (k : Socket S) (t : Traffic S) (network : IsSocket k t) where
  -- The loop writes the sightings behind what stands in the buffer, if there is room.
  pub fill-eq :
      (slots : SensorsData) (updated offset : ℕ) (pre rest : List ℕ)
      → length pre ≡ 3 + offset
      → length (reports_bytes (sightings slots)) ≤ length rest
      → fill k slots updated offset (pre ++ rest)
        ≡ ok (
          updated + length (sightings slots),
          offset + length (reports_bytes (sightings slots)),
          pre
              ++ (reports_bytes (sightings slots)
                  ++ drop (length (reports_bytes (sightings slots))) rest),
        )
  unfolding fill
  fill-eq [] updated offset pre rest h room = ground arith
  fill-eq (none ∷ slots) updated offset pre rest h room =
      fill-eq slots updated offset pre rest h room
  fill-eq (some d ∷ slots) updated offset pre rest h room =
      let report : SensorStatus = record {
        sensor_id = SensorId.into d.sensor_id;
        loco_id = LocoId.into d.loco_id;
      } in
      let bytes : List ℕ = SensorId.into d.sensor_id ∷ LocoId.into d.loco_id ∷ [] in
      let left = length (pre ++ rest) - (3 + offset) in
      let enough : 2 ≤ left = omega (arith, length-append pre rest) in
      let encoded = network.sensor_status_codec.encodes report left enough in
      let written : write_at (3 + offset) bytes (pre ++ rest) ≡ (pre ++ bytes) ++ drop 2 rest =
        ap (λ n. write_at n bytes (pre ++ rest)) (sym h)
        ∙ write_at-append pre bytes rest
        ∙ sym (append_assoc pre bytes (drop 2 rest)) in
      let after = reports_bytes (sightings slots) in
      let ih =
        fill-eq slots (updated + 1) (offset + 2) (pre ++ bytes) (drop 2 rest)
          (omega (arith, length-append pre bytes)) (omega (arith, length-drop 2 rest)) in
      let joined : (pre ++ bytes) ++ (after ++ drop (length after) (drop 2 rest))
          ≡ pre ++ (bytes ++ (after ++ drop (suc (suc (length after))) rest)) =
        append_assoc pre bytes (after ++ drop (length after) (drop 2 rest))
        ∙ ap (λ l. pre ++ (bytes ++ (after ++ l))) (drop-two (length after) rest) in
      let counted : updated + 1 + length (sightings slots)
          ≡ updated + suc (length (sightings slots)) =
        omega arith in
      let reached : offset + 2 + length after ≡ offset + suc (suc (length after)) = omega arith in
      rw (encoded, fill)
        (ap (fill k slots (updated + 1) (offset + 2)) written ∙ ih ∙ filled counted reached joined)
