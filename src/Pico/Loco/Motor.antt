-- ===== src/Pico/Loco/Motor.antt =====
-- `PwmController` of loco_pico/src/bin/loco_pico.rs: the motor is driven by two PWM outputs, one for
-- each direction.
use locoloco.Common.{ℕ, ◌+◌, ◌%◌, Bool, false, Result, ok, err, if◌then◌else◌}
use Prim.Native.Nat.{◌*◌, ◌/◌}
use locoloco.Protocol.Types.{
  Direction, forward, backward, Speed, stop, slow, normal, fast, pwm_duty_cycle,
}
use locoloco.Pico.Loco.Types.{Error, set_pwm_duty_cycle, PwmOutput, PwmController}

abbrev pub desired_freq_hz : ℕ
desired_freq_hz = 100

abbrev pub divider : ℕ
divider = 32

-- The top value of the PWM counter at a system clock. The cast to u16 keeps the low 16 bits, and the
-- subtraction wraps, as it does in a build without overflow checks; in a build with them it panics
-- where the cast gives 0, which no clock from 3.2 kHz to 209.7152 MHz makes it do.
unfoldable pub period : ℕ → ℕ
period clock_freq_hz = (clock_freq_hz / (desired_freq_hz * divider) % 65536 + 65535) % 65536

unfoldable pub duty_cycle : Speed → ℕ
duty_cycle stop = 0
duty_cycle slow = 25
duty_cycle normal = 75
duty_cycle fast = 100
duty_cycle (pwm_duty_cycle dc) = dc

module _ {P : Type 0} (o : PwmOutput P) where
  -- `PwmController::new`, with the two outputs that it makes of the pins
  unfoldable pub new : P → P → Result Error (PwmController P)
  new pwm_forward pwm_backward =
      let (f, pwm_forward') = o.set_duty_cycle_fully_off pwm_forward in
      let (b, pwm_backward') = o.set_duty_cycle_fully_off pwm_backward in
      if f
      then if b
        then ok (record { pwm_forward = pwm_forward'; pwm_backward = pwm_backward' })
        else err set_pwm_duty_cycle
      else err set_pwm_duty_cycle

  -- The output to clear, and the one to set: off first, then the duty cycle. The flag is the success
  -- of both.
  unfoldable pub clear_then_set : (pwm_clear pwm_set : P) → ℕ → Bool × P × P
  clear_then_set pwm_clear pwm_set duty =
      let (cleared, pwm_clear') = o.set_duty_cycle_fully_off pwm_clear in
      let (done, pwm_set') = o.set_duty_cycle_percent pwm_set duty in
      if cleared then (done, pwm_clear', pwm_set') else (false, pwm_clear', pwm_set)

  unfoldable pub control_loco :
      Direction → Speed → PwmController P → Result Error (Unit {0}) × PwmController P
  unfolding clear_then_set duty_cycle
  control_loco forward speed c =
      let (done, clear, set) = clear_then_set c.pwm_backward c.pwm_forward (duty_cycle speed) in
      (
        if done then ok tt else err set_pwm_duty_cycle,
        record { pwm_forward = set; pwm_backward = clear },
      )
  control_loco backward speed c =
      let (done, clear, set) = clear_then_set c.pwm_forward c.pwm_backward (duty_cycle speed) in
      (
        if done then ok tt else err set_pwm_duty_cycle,
        record { pwm_forward = clear; pwm_backward = set },
      )
