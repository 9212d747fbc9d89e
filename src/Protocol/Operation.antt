-- ===== src/Protocol/Operation.antt =====
-- The byte code of `Operation` and its text (loco_protocol/src/lib.rs).
use Prim.Native.String.{String}
use locoloco.Common.{ℕ, ◌<◌, ◌≡◌, ◌≢◌, refl, Result, ok, err, arith, nat_eq, if◌then◌else◌}
use locoloco.Protocol.Types.{
  Operation, Error, unknown_operation, connect, control_loco, loco_status, sensors_status,
  drive_actuator,
}
use locoloco.Protocol.IsCode.{IsCode}

unfoldable pub try_from : ℕ → Result Error Operation
try_from value =
    if nat_eq value 1
    then ok connect
    else if nat_eq value 2
    then ok control_loco
    else if nat_eq value 3
    then ok loco_status
    else if nat_eq value 4
    then ok sensors_status
    else if nat_eq value 5
    then ok drive_actuator
    else err (unknown_operation value)

unfoldable pub into : Operation → ℕ
into connect = 1
into control_loco = 2
into loco_status = 3
into sensors_status = 4
into drive_actuator = 5

unfoldable pub fmt : Operation → String
fmt connect = "Connect"
fmt control_loco = "ControlLoco"
fmt loco_status = "LocoStatus"
fmt sensors_status = "SensorsStatus"
fmt drive_actuator = "DriveActuator"

try_from-into : (a : Operation) → try_from (into a) ≡ ok a
unfolding try_from into
try_from-into connect = refl
try_from-into _ = refl

into-lt : (a : Operation) → into a < 256
unfolding into
into-lt connect = omega arith
into-lt _ = omega arith

into-try_from : (n : ℕ) (a : Operation) → try_from n ≡ ok a → into a ≡ n
unfolding try_from into
into-try_from n a h = ground arith

try_from_refused : (n : ℕ) → ((a : Operation) → into a ≢ n) → try_from n ≡ err (unknown_operation n)
unfolding try_from into
try_from_refused n h =
    ground (arith, h connect, h control_loco, h loco_status, h sensors_status, h drive_actuator)

pub into-IsCode : IsCode into try_from unknown_operation
into-IsCode = record {
  from_into = try_from-into;
  into_from = into-try_from;
  refused = try_from_refused;
  fits = into-lt;
}
