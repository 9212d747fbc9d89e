-- ===== src/Protocol/SwitchRailsState.antt =====
-- The byte code of `SwitchRailsState` and its text (loco_protocol/src/lib.rs).
use Prim.Native.String.{String}
use locoloco.Common.{ℕ, ◌<◌, ◌≡◌, ◌≢◌, refl, Result, ok, err, arith, nat_eq, if◌then◌else◌}
use locoloco.Protocol.Types.{SwitchRailsState, Error, unknown_switch_rails_state, direct, diverted}
use locoloco.Protocol.IsCode.{IsCode}

unfoldable pub try_from : ℕ → Result Error SwitchRailsState
try_from value =
    if nat_eq value 1
    then ok direct
    else if nat_eq value 2
    then ok diverted
    else err (unknown_switch_rails_state value)

unfoldable pub into : SwitchRailsState → ℕ
into direct = 1
into diverted = 2

unfoldable pub fmt : SwitchRailsState → String
fmt direct = "Direct"
fmt diverted = "Diverted"

try_from-into : (a : SwitchRailsState) → try_from (into a) ≡ ok a
unfolding try_from into
try_from-into direct = refl
try_from-into _ = refl

into-lt : (a : SwitchRailsState) → into a < 256
unfolding into
into-lt direct = omega arith
into-lt _ = omega arith

into-try_from : (n : ℕ) (a : SwitchRailsState) → try_from n ≡ ok a → into a ≡ n
unfolding try_from into
into-try_from n a h = ground arith

try_from_refused :
    (n : ℕ)
    → ((a : SwitchRailsState) → into a ≢ n)
    → try_from n ≡ err (unknown_switch_rails_state n)
unfolding try_from into
try_from_refused n h = ground (arith, h direct, h diverted)

pub into-IsCode : IsCode into try_from unknown_switch_rails_state
into-IsCode = record {
  from_into = try_from-into;
  into_from = into-try_from;
  refused = try_from_refused;
  fits = into-lt;
}
