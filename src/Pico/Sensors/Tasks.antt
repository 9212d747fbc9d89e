-- ===== src/Pico/Sensors/Tasks.antt =====
-- The reader task and the sender on the slots that they share
-- (sensors_pico/src/bin/sensors_pico.rs).
use locoloco.Common.{
  ◌≡◌, refl, sym, subst, ◌∙◌, Option, none, some, List, [], ◌∷◌, ◌++◌, ok, All, All-append,
  ok-injective,
}
use locoloco.Protocol.Types.{
  SensorId, rfid_reader1, rfid_reader2, rfid_reader3, rfid_reader4, rfid_reader5, rfid_reader6,
  rfid_reader7, rfid_reader8,
}
use locoloco.Pico.Sensors.Types.{SensorsData, no_data, Mfrc522, RfidReader}
use locoloco.Pico.Sensors.Tags.{add_readers, poll}
use locoloco.Pico.Sensors.Updates.{cleared}
use locoloco.Pico.Sensors.Slots.{
  IsPlaced, IsStored, IsReader, sensors, no_data-IsPlaced, cleared-IsPlaced, poll-IsStored,
}

-- The readers with their sensors, as `main` hands them to the reader task.
unfoldable pub wired : {D : Type 0} (d1 d2 d3 d4 d5 d6 d7 d8 : D) → List (D × SensorId)
wired d1 d2 d3 d4 d5 d6 d7 d8 =
    (d1, rfid_reader1)
    ∷ (d2, rfid_reader2)
    ∷ (d3, rfid_reader3)
    ∷ (d4, rfid_reader4)
    ∷ (d5, rfid_reader5)
    ∷ (d6, rfid_reader6)
    ∷ (d7, rfid_reader7)
    ∷ (d8, rfid_reader8)
    ∷ []

added :
    {D : Type 0} (d1 d2 d3 d4 d5 d6 d7 d8 : D)
    → All IsReader (add_readers 0 [] (wired d1 d2 d3 d4 d5 d6 d7 d8))
unfolding add_readers wired
added d1 d2 d3 d4 d5 d6 d7 d8 = (refl, (refl, (refl, (refl, (refl, (refl, (refl, (refl, tt))))))))

All-split :
    {A : Type 0} (P : A → Type 0) (xs : List A) (y : A) (ys : List A)
    → All P (xs ++ y ∷ ys)
    → All P xs × P y × All P ys
All-split P [] y ys h = (tt, h.0, h.1)
All-split P (x ∷ xs) y ys h =
    let (front, mid, back) = All-split P xs y ys h.1 in ((h.0, front), mid, back)

All-map :
    {A : Type 0} {P Q : A → Type 0} (xs : List A) → ((x : A) → P x → Q x) → All P xs → All Q xs
All-map [] f h = tt
All-map (x ∷ xs) f h = (f x h.0, All-map xs f h.1)

module _ {D Atqa : Type 0} (m : Mfrc522 D Atqa) where
  -- One critical section: a reader stores what it found, or the sender takes all sightings.
  pub data Step
      : List (RfidReader D) → SensorsData → List (RfidReader D) → SensorsData → Type 0 where
    polled :
        (before : List (RfidReader D)) (r : RfidReader D) (after : List (RfidReader D))
        (slots slots' : SensorsData)
        → (poll m r slots).0 ≡ ok slots'
        → Step (before ++ r ∷ after) slots (before ++ (poll m r slots).1 ∷ after) slots'
    taken :
        (readers : List (RfidReader D)) (slots : SensorsData)
        → Step readers slots readers (cleared slots)

  -- The readers and the slots after the sections of the two tasks in any order.
  pub data Reach : List (RfidReader D) → SensorsData → Type 0 where
    start :
        (d1 d2 d3 d4 d5 d6 d7 d8 : D)
        → Reach (add_readers 0 [] (wired d1 d2 d3 d4 d5 d6 d7 d8)) no_data
    later :
        {rs rs' : List (RfidReader D)} {slots slots' : SensorsData}
        → Reach rs slots
        → Step rs slots rs' slots'
        → Reach rs' slots'

  -- a poll leaves the reader's slot
  poll-IsReader :
      (r : RfidReader D) (slots : SensorsData) → IsReader r → IsReader (poll m r slots).1
  unfolding poll
  poll-IsReader r slots own = on (m.wupa r.mfrc522).0 refl
    where
      on : (a : Option Atqa) → (m.wupa r.mfrc522).0 ≡ a → IsReader (poll m r slots).1
      on none e = rw (e, poll) own
      on (some a) e = rw (e, poll) own

  -- each reader has its slot, and each slot its sensor
  IsTidy : List (RfidReader D) → SensorsData → Type 0
  IsTidy rs slots = All IsReader rs × IsPlaced sensors slots

  Step-IsTidy :
      {slots slots' : SensorsData} {rs rs' : List (RfidReader D)}
      → IsTidy rs slots
      → Step rs slots rs' slots'
      → IsTidy rs' slots'
  unfolding IsTidy
  Step-IsTidy (own, p) (polled before r after slots slots' e) =
      let (front, mid, back) = All-split IsReader before r after own in
      let left = poll-IsStored m r slots mid p in
      (
        All-append IsReader before ((poll m r slots).1 ∷ after) front
            (poll-IsReader r slots mid, back),
        subst (IsPlaced sensors) (ok-injective (sym left.stored ∙ e)) left.placed,
      )
  Step-IsTidy (own, p) (taken rs slots) = (own, cleared-IsPlaced sensors slots p)

  Reach-IsTidy : {rs : List (RfidReader D)} {slots : SensorsData} → Reach rs slots → IsTidy rs slots
  unfolding IsTidy
  Reach-IsTidy (start d1 d2 d3 d4 d5 d6 d7 d8) = (added d1 d2 d3 d4 d5 d6 d7 d8, no_data-IsPlaced)
  Reach-IsTidy (later h step) = Step-IsTidy (Reach-IsTidy h) step

  -- Whatever the eight tag readers answer, and however the sections of the two tasks interleave from
  -- the empty slots on: each slot is empty or holds a sighting of the sensor it stands for, and the
  -- poll of any reader does not panic or fail, and leaves slots of which the same is true.
  pub Reach-IsPlaced :
      (rs : List (RfidReader D)) (slots : SensorsData)
      → Reach rs slots
      → IsPlaced sensors slots × All (λ r. IsStored sensors (poll m r slots).0) rs
  unfolding IsTidy
  Reach-IsPlaced rs slots reached =
      let (own, p) = Reach-IsTidy reached in
      (p, All-map rs (λ r mine. poll-IsStored m r slots mine p) own)
