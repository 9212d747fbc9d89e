-- ===== src/Protocol/ActuatorId.antt =====
-- The byte code of `ActuatorId` and its text (loco_protocol/src/lib.rs).
use Prim.Native.String.{String}
use locoloco.Common.{ℕ, ◌<◌, ◌≡◌, ◌≢◌, refl, Result, ok, err, arith, nat_eq, if◌then◌else◌}
use locoloco.Protocol.Types.{
  ActuatorId, Error, unknown_actuator_id, switch_rails1, switch_rails2, switch_rails3,
  switch_rails4, switch_rails5, switch_rails6, switch_rails7, switch_rails8,
}
use locoloco.Protocol.IsCode.{IsCode}

unfoldable pub try_from : ℕ → Result Error ActuatorId
try_from value =
    if nat_eq value 1
    then ok switch_rails1
    else if nat_eq value 2
    then ok switch_rails2
    else if nat_eq value 3
    then ok switch_rails3
    else if nat_eq value 4
    then ok switch_rails4
    else if nat_eq value 5
    then ok switch_rails5
    else if nat_eq value 6
    then ok switch_rails6
    else if nat_eq value 7
    then ok switch_rails7
    else if nat_eq value 8
    then ok switch_rails8
    else err (unknown_actuator_id value)

unfoldable pub into : ActuatorId → ℕ
into switch_rails1 = 1
into switch_rails2 = 2
into switch_rails3 = 3
into switch_rails4 = 4
into switch_rails5 = 5
into switch_rails6 = 6
into switch_rails7 = 7
into switch_rails8 = 8

unfoldable pub fmt : ActuatorId → String
fmt switch_rails1 = "SwitchRails1"
fmt switch_rails2 = "SwitchRails2"
fmt switch_rails3 = "SwitchRails3"
fmt switch_rails4 = "SwitchRails4"
fmt switch_rails5 = "SwitchRails5"
fmt switch_rails6 = "SwitchRails6"
fmt switch_rails7 = "SwitchRails7"
fmt switch_rails8 = "SwitchRails8"

try_from-into : (a : ActuatorId) → try_from (into a) ≡ ok a
unfolding try_from into
try_from-into switch_rails1 = refl
try_from-into _ = refl

into-lt : (a : ActuatorId) → into a < 256
unfolding into
into-lt switch_rails1 = omega arith
into-lt _ = omega arith

into-try_from : (n : ℕ) (a : ActuatorId) → try_from n ≡ ok a → into a ≡ n
unfolding try_from into
into-try_from n a h = ground arith

try_from_refused :
    (n : ℕ) → ((a : ActuatorId) → into a ≢ n) → try_from n ≡ err (unknown_actuator_id n)
unfolding try_from into
try_from_refused n h = ground (
  arith,
  h switch_rails1,
  h switch_rails2,
  h switch_rails3,
  h switch_rails4,
  h switch_rails5,
  h switch_rails6,
  h switch_rails7,
  h switch_rails8,
)

pub into-IsCode : IsCode into try_from unknown_actuator_id
into-IsCode = record {
  from_into = try_from-into;
  into_from = into-try_from;
  refused = try_from_refused;
  fits = into-lt;
}
