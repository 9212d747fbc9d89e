-- ===== src/Examples/Sightings.antt =====
-- The board of the sensors, on a socket that is two lists and tag readers that find one tag.
use locoloco.Common.{
  true, ℕ, ◌≡◌, refl, false, none, some, List, [], ◌∷◌, length, All, arith, if◌then◌else◌,
}
use locoloco.Protocol.Types.{loco1, loco2, rfid_reader5, rfid_reader7}
use locoloco.Backend.State as State
use locoloco.Backend.Sensors.{serve_sensors}
use locoloco.Backend.Totality.{new-IsFull}
use locoloco.Pico.Sensors.Types.{SensorsData, no_data, single, Mfrc522, RfidReader}
use locoloco.Pico.Sensors.Tags.{add_readers, poll}
use locoloco.Pico.Sensors.Updates.{update}
use locoloco.Pico.Sensors.Delivery.{frame, is_due, IsSent}
use locoloco.Pico.Sensors.Locating.{update-IsSent}
use locoloco.Pico.Sensors.Session.{
  Round, IsSmall, frames, seen, IsLocated, handle_sensors_updates-eq, session-IsLocated,
}
use locoloco.Pico.Sensors.Slots.{IsPlaced, IsStored, sensors}
use locoloco.Pico.Sensors.Tasks.{wired, start, Reach-IsPlaced}
use locoloco.Pico.DetectTagUid.{Uid, Reader, read, reported, stored, mfrc522, poll-read}
use locoloco.Pico.Loco.Messages.{zeros}
use locoloco.Examples.Pipe.{pipe, traffic, pipe-IsWire}
use locoloco.Examples.Slices.{socket, socket-IsSocket}

-- the second loco stands at the fifth reader, the first at the seventh
abbrev slots : SensorsData
slots =
    none
    ∷ none
    ∷ none
    ∷ none
    ∷ some (record { loco_id = loco2; sensor_id = rfid_reader5 })
    ∷ none
    ∷ some (record { loco_id = loco1; sensor_id = rfid_reader7 })
    ∷ none
    ∷ []

length-zeros : length (zeros 259) ≡ 259
unfolding zeros
length-zeros = refl

update-IsSent_example :
    IsSent socket traffic socket-IsSocket
      (if is_due false slots then frame slots else [])
      ([], 1 ∷ [])
      (update socket false ([], 1 ∷ []) (zeros 259) slots)
update-IsSent_example =
    update-IsSent socket traffic socket-IsSocket false ([], 1 ∷ []) (zeros 259) slots length-zeros
      (omega arith) (λ s l. refl)

-- both are reported, and a second later nothing is new
abbrev rounds : List Round
rounds = (false, slots) ∷ (true, no_data) ∷ []

rounds-IsSmall : All IsSmall rounds
rounds-IsSmall = (omega arith, (omega arith, tt))

session-IsLocated_example :
    IsLocated pipe traffic pipe-IsWire
      (seen rounds)
      State.new
      (serve_sensors pipe 13 (frames rounds, []) State.new)
session-IsLocated_example =
    session-IsLocated socket traffic socket-IsSocket pipe traffic pipe-IsWire rounds ([], 1 ∷ [])
      (zeros 259) (frames rounds) 13 (frames rounds, []) State.new length-zeros rounds-IsSmall
      (λ s l. refl)
      (handle_sensors_updates-eq socket traffic socket-IsSocket (λ s l. refl) rounds ([], 1 ∷ [])
        (zeros 259) length-zeros rounds-IsSmall).1
      refl (omega arith) new-IsFull

-- a reader finds the tag of the first loco
abbrev tags : Mfrc522 (List ℕ) (Unit {0})
tags = record { wupa = λ d. (some tt, d); select = λ d a. (single d, d); hlta = λ d. d }

abbrev tag : List ℕ
tag = 0xe3 ∷ 0xa6 ∷ 0xaf ∷ 0x05 ∷ []

abbrev readers : List (RfidReader (List ℕ))
readers = add_readers 0 [] (wired tag [] [] [] [] [] [] [])

Reach-IsPlaced_example :
    IsPlaced sensors no_data × All (λ r. IsStored sensors (poll tags r no_data).0) readers
Reach-IsPlaced_example = Reach-IsPlaced tags readers no_data (start tag [] [] [] [] [] [] [])

-- a reader at which the tag of the first loco lies
abbrev reader : Reader (Unit {0}) (Unit {0})
reader = record {
  wupa = λ d. (some tt, d);
  select = λ d a. (some (Uid.single (0xe3 ∷ 0xa6 ∷ 0xaf ∷ 0x06 ∷ [])), d);
  hlta = λ d. d;
}

abbrev fifth : RfidReader (Unit {0})
fifth = record { mfrc522 = tt; sensor_id = rfid_reader5; sensor_data_idx = 4 }

poll-read_example :
    ((poll (mfrc522 reader) fifth no_data).0
      ≡ stored (reported (read reader 1 tt).0) 4 rfid_reader5 no_data)
    × ((read reader 1 tt).1 ≡ tt)
poll-read_example = poll-read reader 1 fifth no_data
