-- ===== src/Protocol/SensorId.antt =====
-- The byte code of `SensorId` and its text (loco_protocol/src/lib.rs).
use Prim.Native.String.{String}
use locoloco.Common.{ℕ, ◌<◌, ◌≡◌, ◌≢◌, refl, Result, ok, err, arith, nat_eq, if◌then◌else◌}
use locoloco.Protocol.Types.{
  SensorId, Error, unknown_sensor_id, rfid_reader1, rfid_reader2, rfid_reader3, rfid_reader4,
  rfid_reader5, rfid_reader6, rfid_reader7, rfid_reader8,
}
use locoloco.Protocol.IsCode.{IsCode}

unfoldable pub try_from : ℕ → Result Error SensorId
try_from value =
    if nat_eq value 1
    then ok rfid_reader1
    else if nat_eq value 2
    then ok rfid_reader2
    else if nat_eq value 3
    then ok rfid_reader3
    else if nat_eq value 4
    then ok rfid_reader4
    else if nat_eq value 5
    then ok rfid_reader5
    else if nat_eq value 6
    then ok rfid_reader6
    else if nat_eq value 7
    then ok rfid_reader7
    else if nat_eq value 8
    then ok rfid_reader8
    else err (unknown_sensor_id value)

unfoldable pub into : SensorId → ℕ
into rfid_reader1 = 1
into rfid_reader2 = 2
into rfid_reader3 = 3
into rfid_reader4 = 4
into rfid_reader5 = 5
into rfid_reader6 = 6
into rfid_reader7 = 7
into rfid_reader8 = 8

unfoldable pub fmt : SensorId → String
fmt rfid_reader1 = "Checkpoint1"
fmt rfid_reader2 = "Checkpoint2"
fmt rfid_reader3 = "Checkpoint3"
fmt rfid_reader4 = "Checkpoint4"
fmt rfid_reader5 = "Checkpoint5"
fmt rfid_reader6 = "Checkpoint6"
fmt rfid_reader7 = "Checkpoint7"
fmt rfid_reader8 = "Checkpoint8"

try_from-into : (a : SensorId) → try_from (into a) ≡ ok a
unfolding try_from into
try_from-into rfid_reader1 = refl
try_from-into _ = refl

into-lt : (a : SensorId) → into a < 256
unfolding into
into-lt rfid_reader1 = omega arith
into-lt _ = omega arith

into-try_from : (n : ℕ) (a : SensorId) → try_from n ≡ ok a → into a ≡ n
unfolding try_from into
into-try_from n a h = ground arith

try_from_refused : (n : ℕ) → ((a : SensorId) → into a ≢ n) → try_from n ≡ err (unknown_sensor_id n)
unfolding try_from into
try_from_refused n h = ground (
  arith,
  h rfid_reader1,
  h rfid_reader2,
  h rfid_reader3,
  h rfid_reader4,
  h rfid_reader5,
  h rfid_reader6,
  h rfid_reader7,
  h rfid_reader8,
)

pub into-IsCode : IsCode into try_from unknown_sensor_id
into-IsCode = record {
  from_into = try_from-into;
  into_from = into-try_from;
  refused = try_from_refused;
  fits = into-lt;
}
