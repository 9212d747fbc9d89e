-- ===== src/Protocol/Speed.antt =====
-- The byte code of `Speed` (loco_protocol/src/lib.rs): four named speeds, and a PWM duty cycle.
use locoloco.Common.{
  ℕ, ◌+◌, ◌-◌, ◌≤◌, ◌<◌, ◌≡◌, refl, ◌↔◌, Result, ok, err, arith, ltb, leb, nat_eq, ◌&&◌,
  if◌then◌else◌,
}
use locoloco.Protocol.Types.{Speed, Error, unknown_speed, stop, slow, normal, fast, pwm_duty_cycle}

abbrev pub speed_pwm_range : ℕ
speed_pwm_range = 100

abbrev pub speed_pwm_idx_l : ℕ
speed_pwm_idx_l = 100

abbrev pub speed_pwm_idx_h : ℕ
speed_pwm_idx_h = speed_pwm_idx_l + speed_pwm_range

-- the range pattern `L..H` leaves `H` out
unfoldable pub try_from : ℕ → Result Error Speed
try_from value =
    if nat_eq value 0
    then ok stop
    else if nat_eq value 1
    then ok slow
    else if nat_eq value 2
    then ok normal
    else if nat_eq value 3
    then ok fast
    else if leb speed_pwm_idx_l value && ltb value speed_pwm_idx_h
    then ok (pwm_duty_cycle (value - speed_pwm_idx_l))
    else err (unknown_speed value)

unfoldable pub into : Speed → ℕ
into stop = 0
into slow = 1
into normal = 2
into fast = 3
into (pwm_duty_cycle duty_percent) =
    (if ltb speed_pwm_range duty_percent then speed_pwm_range else duty_percent) + speed_pwm_idx_l

-- A code of a speed is one byte, so the addition in `into` does not wrap.
pub into-lt : (s : Speed) → into s < 256
unfolding into
into-lt s = ground arith

-- The speeds whose code is read back: the named ones, and duty cycles below 100.
abbrev pub IsReadable : Speed → Type 0
IsReadable (pwm_duty_cycle d) = d < speed_pwm_range
IsReadable _ = Unit

-- A speed is read back from its code exactly when it is a named speed or a duty cycle below 100.
pub try_from-into_iff : (s : Speed) → (try_from (into s) ≡ ok s) ↔ IsReadable s
unfolding try_from into
try_from-into_iff (pwm_duty_cycle d) = ground arith
try_from-into_iff _ = (λ _. tt, λ _. refl)

-- Every duty cycle of 100 or more has the code 200, which the receiver refuses.
pub try_from-into_full :
    (d : ℕ)
    → 100 ≤ d
    → (into (pwm_duty_cycle d) ≡ 200)
      × (try_from (into (pwm_duty_cycle d)) ≡ err (unknown_speed 200))
unfolding try_from into
try_from-into_full d h = ground arith

-- An accepted byte is the code of the speed that was read, and that speed is readable.
pub into-try_from-IsReadable : (n : ℕ) (s : Speed) → try_from n ≡ ok s → (into s ≡ n) × IsReadable s
unfolding try_from into
into-try_from-IsReadable n stop h = ground arith
into-try_from-IsReadable n _ h = ground arith
