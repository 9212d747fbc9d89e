-- ===== src/Pico/Loco/Frequency.antt =====
-- The frequency of the PWM outputs (`PwmController::new` of loco_pico/src/bin/loco_pico.rs).
use locoloco.Common.{ℕ, ◌+◌, ◌≤◌, ◌<◌, arith}
use Prim.Native.Nat.{◌*◌}
use locoloco.Pico.Loco.Motor.{desired_freq_hz, divider, period}

-- At a system clock of 3.2 kHz to 209.7152 MHz, the period fits its u16 without wrapping, and it is
-- the greatest at which the outputs still reach the desired frequency of 100 Hz: `period + 1` ticks of
-- the divided clock make at least 100 cycles a second, and one tick more would not.
pub period_bounds :
    (clock_freq_hz : ℕ)
    → 3200 ≤ clock_freq_hz
    → clock_freq_hz < 209715200
    → (desired_freq_hz * divider * (period clock_freq_hz + 1) ≤ clock_freq_hz)
      × (clock_freq_hz < desired_freq_hz * divider * (period clock_freq_hz + 2))
      × (period clock_freq_hz < 65536)
unfolding period
period_bounds clock_freq_hz low high = omega arith
