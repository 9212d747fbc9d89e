-- ===== src/Protocol/Direction.antt =====
-- The byte code of `Direction` (loco_protocol/src/lib.rs).
use locoloco.Common.{ℕ, ◌<◌, ◌≡◌, ◌≢◌, refl, Result, ok, err, arith, nat_eq, if◌then◌else◌}
use locoloco.Protocol.Types.{Direction, Error, unknown_direction, forward, backward}
use locoloco.Protocol.IsCode.{IsCode}

unfoldable pub try_from : ℕ → Result Error Direction
try_from value =
    if nat_eq value 1
    then ok forward
    else if nat_eq value 2
    then ok backward
    else err (unknown_direction value)

unfoldable pub into : Direction → ℕ
into forward = 1
into backward = 2

try_from-into : (a : Direction) → try_from (into a) ≡ ok a
unfolding try_from into
try_from-into forward = refl
try_from-into _ = refl

into-lt : (a : Direction) → into a < 256
unfolding into
into-lt forward = omega arith
into-lt _ = omega arith

into-try_from : (n : ℕ) (a : Direction) → try_from n ≡ ok a → into a ≡ n
unfolding try_from into
into-try_from n a h = ground arith

try_from_refused : (n : ℕ) → ((a : Direction) → into a ≢ n) → try_from n ≡ err (unknown_direction n)
unfolding try_from into
try_from_refused n h = ground (arith, h forward, h backward)

pub into-IsCode : IsCode into try_from unknown_direction
into-IsCode = record {
  from_into = try_from-into;
  into_from = into-try_from;
  refused = try_from_refused;
  fits = into-lt;
}
