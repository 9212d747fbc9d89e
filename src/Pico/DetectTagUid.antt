-- ===== src/Pico/DetectTagUid.antt =====
-- The tool sensors_pico/src/bin/detect_tag_uid.rs, which logs what three readers find, next to the
-- reader task of sensors_pico/src/bin/sensors_pico.rs.
use locoloco.Common.{
  ℕ, ◌≡◌, refl, Option, none, some, List, [], ◌∷◌, ◌++◌, Result, ok, Option-cases, inl, inr, arith,
}
use locoloco.Protocol.Types.{SensorId}
use locoloco.Protocol.LocoId.{try_from_uid}
use locoloco.Pico.Sensors.Types.{Error, SensorsData, Selected, Mfrc522, RfidReader}
use locoloco.Pico.Sensors.Tags.{store_loco, store_tag, poll}

-- A tag's identity by its size, as far as the tool tells them apart.
pub data Uid : Type 0 where
  single double : List ℕ → Uid
  other : Uid

-- What the tool uses of a reader: `none` is an error of the driver.
pub record Reader (D Atqa : Type 0) : Type 0 where
  pub wupa : D → Option Atqa × D
  pub select : D → Atqa → Option Uid × D
  pub hlta : D → D

-- The lines of the log, with the number of the reader; times and the type of the card are left out.
pub data Log : Type 0 where
  waiting wupa_took select_took got_other_size uid_error : ℕ → Log
  card_uid card_double_uid : ℕ → List ℕ → Log
  sleeping : Log

-- the line for what was selected
unfoldable pub outcome : ℕ → Option Uid → Log
outcome n (some (single uid)) = card_uid n uid
outcome n (some (double uid)) = card_double_uid n uid
outcome n (some other) = got_other_size n
outcome n none = uid_error n

module _ {D Atqa : Type 0} (m : Reader D Atqa) where
  -- one reader: whatever it answers, its tag is sent to sleep
  unfoldable pub read : ℕ → D → List Log × D
  unfolding outcome
  read n d =
      let (atqa, d') = m.wupa d in
      elim atqa [
        | some a ↦
            let (uid, d'') = m.select d' a in
            (waiting n ∷ wupa_took n ∷ outcome n uid ∷ select_took n ∷ [], m.hlta d'')
        | none ↦ (waiting n ∷ wupa_took n ∷ [], m.hlta d')
      ]

  -- the body of the loop
  unfoldable pub round : D × D × D → List Log × (D × D × D)
  unfolding read
  round (d0, d1, d2) =
      let (log0, d0') = read 0 d0 in
      let (log1, d1') = read 1 d1 in
      let (log2, d2') = read 2 d2 in (log0 ++ log1 ++ log2 ++ sleeping ∷ [], (d0', d1', d2'))

-- The uid of four bytes in the log.
abbrev pub reported : List Log → Option (List ℕ)
reported [] = none
reported (card_uid n uid ∷ log) = some uid
reported (_ ∷ log) = reported log

-- The same reader, as the firmware of the sensors sees it.
abbrev pub selected : Option Uid → Selected
selected (some (single uid)) = Selected.single uid
selected (some _) = Selected.other_size
selected none = Selected.failed

abbrev pub mfrc522 : {D Atqa : Type 0} → Reader D Atqa → Mfrc522 D Atqa
mfrc522 m = record {
  wupa = m.wupa;
  select = λ d a. let (uid, d') = m.select d a in (selected uid, d');
  hlta = m.hlta;
}

-- What the reader task does with the uid that the tool reports.
abbrev pub stored : Option (List ℕ) → ℕ → SensorId → SensorsData → Result Error SensorsData
stored none idx sensor_id slots = ok slots
stored (some uid) idx sensor_id slots = store_loco idx sensor_id (try_from_uid uid) slots

store_tag-outcome :
    (n : ℕ) (uid : Option Uid) (idx : ℕ) (sensor_id : SensorId) (slots : SensorsData)
    → store_tag idx sensor_id (selected uid) slots
      ≡ stored
          (reported (waiting n ∷ wupa_took n ∷ outcome n uid ∷ select_took n ∷ []))
          idx
          sensor_id
          slots
unfolding store_tag outcome
store_tag-outcome n (some (single uid)) idx sensor_id slots = refl
store_tag-outcome n (some (double uid)) idx sensor_id slots = refl
store_tag-outcome n (some other) idx sensor_id slots = refl
store_tag-outcome n none idx sensor_id slots = refl

module _ {D Atqa : Type 0} (m : Reader D Atqa) where
  -- With one reader, the firmware of the sensors stores the loco of the uid of four bytes that the
  -- tool reports, or refuses that uid, and stores nothing if the tool reports no such uid. Both
  -- leave the reader in one state, but where no tag wakes up, the tool has also sent a tag to
  -- sleep.
  pub poll-read :
      (n : ℕ) (r : RfidReader D) (slots : SensorsData)
      → let (stored_slots, r') = poll (mfrc522 m) r slots in
        let (log, d) = read m n r.mfrc522 in
        (stored_slots ≡ stored (reported log) r.sensor_data_idx r.sensor_id slots)
        × (d ≡ elim (m.wupa r.mfrc522).0 [ some _ ↦ r'.mfrc522 | none ↦ m.hlta r'.mfrc522 ])
  unfolding poll read
  poll-read n r slots = elim (Option-cases (m.wupa r.mfrc522).0) [
    | inl e ↦ rw (e, poll, read) (refl, ground arith)
    | inr (a, e) ↦
        let (uid, _) = m.select (m.wupa r.mfrc522).1 a in
        rw (e, poll, read)
          (store_tag-outcome n uid r.sensor_data_idx r.sensor_id slots, ground arith)
  ]
