-- ===== src/Pico/Sensors/Slots.antt =====
-- The slots of the sightings, which the reader task and the sender share under a mutex
-- (sensors_pico/src/bin/sensors_pico.rs).
use locoloco.Common.{
  ℕ, zero, suc, ◌≡◌, ◌≢◌, refl, Option, none, some, List, [], ◌∷◌, Result, ok, err, panic, arith,
}
use locoloco.Protocol.Types as ProtocolTypes
use locoloco.Protocol.Types.{
  LocoId, SensorId, rfid_reader1, rfid_reader2, rfid_reader3, rfid_reader4, rfid_reader5,
  rfid_reader6, rfid_reader7, rfid_reader8,
}
use locoloco.Protocol.LocoId.{try_from_uid}
use locoloco.Pico.Sensors.Types.{
  Error, SensorData, SensorsData, no_data, Selected, single, other_size, failed, Mfrc522,
  RfidReader,
}
use locoloco.Pico.Sensors.Tags.{store, store_loco, store_tag, poll}
use locoloco.Pico.Sensors.Updates.{cleared}

-- The sensor of a slot.
abbrev pub sensor_at : ℕ → List SensorId → Option SensorId
sensor_at i [] = none
sensor_at zero (s ∷ rest) = some s
sensor_at (suc i) (s ∷ rest) = sensor_at i rest

-- Each slot is empty or holds a sighting of its own sensor, and there is a slot for each sensor.
abbrev pub IsPlaced : List SensorId → SensorsData → Type 0
IsPlaced [] [] = Unit
IsPlaced [] (slot ∷ slots) = ⊥
IsPlaced (s ∷ rest) [] = ⊥
IsPlaced (s ∷ rest) (slot ∷ slots) =
    ((d : SensorData) → slot ≡ some d → d.sensor_id ≡ s) × IsPlaced rest slots

-- What a store leaves: placed slots.
pub record IsStored (sensors : List SensorId) (r : Result Error SensorsData) : Type 0 where
  pub slots : SensorsData
  pub stored : r ≡ ok slots
  pub placed : IsPlaced sensors slots

store-IsStored :
    (i : ℕ) (d : SensorData) (sensors : List SensorId) (slots : SensorsData)
    → sensor_at i sensors ≡ some d.sensor_id
    → IsPlaced sensors slots
    → IsStored sensors (store i d slots)
unfolding store
store-IsStored i d [] slots e p = cc
store-IsStored zero d (s ∷ rest) [] e p = absurd p
store-IsStored (suc i) d (s ∷ rest) [] e p = absurd p
store-IsStored zero d (s ∷ rest) (slot ∷ slots) e p = record {
  slots = some d ∷ slots;
  stored = refl;
  placed = (λ d' same. cc, p.1);
}
store-IsStored (suc i) d (s ∷ rest) (slot ∷ slots) e p =
    let ih = store-IsStored i d rest slots e p.1 in
    record {
      slots = slot ∷ ih.slots;
      stored = rw (ih.stored, store) refl;
      placed = (p.0, ih.placed);
    }

try_from_uid-ne-panic : (uid : List ℕ) → try_from_uid uid ≢ panic
unfolding try_from_uid
try_from_uid-ne-panic uid = ground arith

module _ (i : ℕ) (s : SensorId) (sensors : List SensorId) (slots : SensorsData)
    (own : sensor_at i sensors ≡ some s) (placed : IsPlaced sensors slots) where
  store_loco-IsStored :
      (r : Result ProtocolTypes.Error LocoId)
      → r ≢ panic
      → IsStored sensors (store_loco i s r slots)
  unfolding store_loco
  store_loco-IsStored (ok id) h =
      store-IsStored i (record { loco_id = id; sensor_id = s }) sensors slots own placed
  store_loco-IsStored (err e) h = record { slots = slots; stored = refl; placed = placed }
  store_loco-IsStored panic h = absurd (h refl)

  store_tag-IsStored : (found : Selected) → IsStored sensors (store_tag i s found slots)
  unfolding store_tag
  store_tag-IsStored (single uid) =
      store_loco-IsStored (try_from_uid uid) (try_from_uid-ne-panic uid)
  store_tag-IsStored other_size = record { slots = slots; stored = refl; placed = placed }
  store_tag-IsStored failed = record { slots = slots; stored = refl; placed = placed }

pub cleared-IsPlaced :
    (sensors : List SensorId) (slots : SensorsData)
    → IsPlaced sensors slots
    → IsPlaced sensors (cleared slots)
unfolding cleared
cleared-IsPlaced [] [] p = tt
cleared-IsPlaced [] (slot ∷ slots) p = absurd p
cleared-IsPlaced (s ∷ rest) [] p = absurd p
cleared-IsPlaced (s ∷ rest) (slot ∷ slots) p = (λ d e. cc, cleared-IsPlaced rest slots p.1)

-- The sensors in the order of `main`.
abbrev pub sensors : List SensorId
sensors =
    rfid_reader1 ∷ rfid_reader2 ∷ rfid_reader3 ∷ rfid_reader4 ∷ rfid_reader5 ∷ rfid_reader6
    ∷ rfid_reader7 ∷ rfid_reader8 ∷ []

pub no_data-IsPlaced : IsPlaced sensors no_data
no_data-IsPlaced = (
  λ d e. cc,
  (λ d e. cc, (λ d e. cc, (λ d e. cc, (λ d e. cc, (λ d e. cc, (λ d e. cc, (λ d e. cc, tt))))))),
)

-- A reader whose index is the slot of its sensor.
abbrev pub IsReader : {D : Type 0} → RfidReader D → Type 0
IsReader r = sensor_at r.sensor_data_idx sensors ≡ some r.sensor_id

module _ {D Atqa : Type 0} (m : Mfrc522 D Atqa) where
  pub poll-IsStored :
      (r : RfidReader D) (slots : SensorsData)
      → IsReader r
      → IsPlaced sensors slots
      → IsStored sensors (poll m r slots).0
  unfolding poll
  poll-IsStored r slots own p = on (m.wupa r.mfrc522).0 refl
    where
      on : (a : Option Atqa) → (m.wupa r.mfrc522).0 ≡ a → IsStored sensors (poll m r slots).0
      on none e = rw (e, poll) (record { slots = slots; stored = refl; placed = p })
      on (some a) e =
          rw (e, poll)
            (store_tag-IsStored r.sensor_data_idx r.sensor_id sensors slots own p
              (m.select (m.wupa r.mfrc522).1 a).0)
