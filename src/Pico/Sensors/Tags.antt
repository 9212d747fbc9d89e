-- ===== src/Pico/Sensors/Tags.antt =====
-- `tag_reader_task` of sensors_pico/src/bin/sensors_pico.rs.

use locoloco.Common.{
  ℕ, zero, suc, ◌+◌, none, some, List, [], ◌∷◌, ◌++◌, length, Result, ok, err, panic, ltb,
  if◌then◌else◌,
}
use locoloco.Protocol.Types.{LocoId, SensorId}
use locoloco.Protocol.Types as ProtocolTypes
use locoloco.Protocol.LocoId.{try_from_uid}
use locoloco.Pico.Sensors.Types.{
  Error, SensorData, SensorsData, Selected, single, other_size, failed, Mfrc522, RfidReader,
}

-- The readers, each with the index of its slot; a reader that the vector has no room for is left out.
unfoldable pub add_readers :
    {D : Type 0} → ℕ → List (RfidReader D) → List (D × SensorId) → List (RfidReader D)
add_readers {D} idx readers [] = readers
add_readers {D} idx readers ((mfrc522, sensor_id) ∷ rest) =
    let reader : RfidReader D = record {
      mfrc522 = mfrc522;
      sensor_id = sensor_id;
      sensor_data_idx = idx;
    } in
    add_readers (idx + 1) (if ltb (length readers) 8 then readers ++ reader ∷ [] else readers) rest

-- `data[idx] = Some(..)`, which panics out of range
unfoldable pub store : ℕ → SensorData → SensorsData → Result Error SensorsData
store idx d [] = panic
store zero d (slot ∷ rest) = ok (some d ∷ rest)
store (suc idx) d (slot ∷ rest) = elim (store idx d rest) [
  | ok rest' ↦ ok (slot ∷ rest')
  | err e ↦ err e
  | panic ↦ panic
]

-- with the loco that the tag names; an unknown tag is logged
unfoldable pub store_loco :
    ℕ → SensorId → Result ProtocolTypes.Error LocoId → SensorsData → Result Error SensorsData
unfolding store
store_loco idx sensor_id (ok loco_id) slots =
    store idx (record { loco_id = loco_id; sensor_id = sensor_id }) slots
store_loco idx sensor_id (err e) slots = ok slots
store_loco idx sensor_id panic slots = panic

-- with what was selected; only a tag of four bytes counts
unfoldable pub store_tag : ℕ → SensorId → Selected → SensorsData → Result Error SensorsData
unfolding try_from_uid store_loco
store_tag idx sensor_id (single uid) slots = store_loco idx sensor_id (try_from_uid uid) slots
store_tag idx sensor_id other_size slots = ok slots
store_tag idx sensor_id failed slots = ok slots

module _ {D Atqa : Type 0} (m : Mfrc522 D Atqa) where
  -- one reader
  unfoldable pub poll : RfidReader D → SensorsData → Result Error SensorsData × RfidReader D
  unfolding store_tag
  poll reader slots =
      let (atqa, mfrc522') = m.wupa reader.mfrc522 in
      elim atqa [
        | none ↦ (ok slots, record reader { mfrc522 = mfrc522' })
        | some a ↦
            let (selected, mfrc522'') = m.select mfrc522' a in
            (
              store_tag reader.sensor_data_idx reader.sensor_id selected slots,
              record reader { mfrc522 = m.hlta mfrc522'' },
            )
      ]

  -- the loop over the readers
  unfoldable pub poll_all :
      List (RfidReader D) → SensorsData → Result Error SensorsData × List (RfidReader D)
  unfolding poll
  poll_all [] slots = (ok slots, [])
  poll_all (reader ∷ rest) slots =
      let (r, reader') = poll reader slots in
      elim r [
        | ok slots' ↦ let (r', rest') = poll_all rest slots' in (r', reader' ∷ rest')
        | err e ↦ (err e, reader' ∷ rest)
        | panic ↦ (panic, reader' ∷ rest)
      ]
