-- ===== src/Protocol/ActuatorType.antt =====
-- The byte code of `ActuatorType` and its text (loco_protocol/src/lib.rs).
use Prim.Native.String.{String}
use locoloco.Common.{ℕ, ◌<◌, ◌≡◌, ◌≢◌, refl, Result, ok, err, arith, nat_eq, if◌then◌else◌}
use locoloco.Protocol.Types.{ActuatorType, Error, unknown_actuator_type, switch_rails}
use locoloco.Protocol.IsCode.{IsCode}

unfoldable pub try_from : ℕ → Result Error ActuatorType
try_from value = if nat_eq value 1 then ok switch_rails else err (unknown_actuator_type value)

unfoldable pub into : ActuatorType → ℕ
into switch_rails = 1

unfoldable pub fmt : ActuatorType → String
fmt switch_rails = "SwitchRails"

try_from-into : (a : ActuatorType) → try_from (into a) ≡ ok a
unfolding try_from into
try_from-into switch_rails = refl

into-lt : (a : ActuatorType) → into a < 256
unfolding into
into-lt switch_rails = omega arith

into-try_from : (n : ℕ) (a : ActuatorType) → try_from n ≡ ok a → into a ≡ n
unfolding try_from into
into-try_from n a h = ground arith

try_from_refused :
    (n : ℕ) → ((a : ActuatorType) → into a ≢ n) → try_from n ≡ err (unknown_actuator_type n)
unfolding try_from into
try_from_refused n h = ground (arith, h switch_rails)

pub into-IsCode : IsCode into try_from unknown_actuator_type
into-IsCode = record {
  from_into = try_from-into;
  into_from = into-try_from;
  refused = try_from_refused;
  fits = into-lt;
}
