-- ===== src/Pico/Loco/Types.antt =====
-- The data of loco_pico/src/bin/loco_pico.rs. `P` is the type of a PWM output, which embassy drives;
-- the errors of bincode, of the socket and of the PWM carry no value here.
use locoloco.Common.{ℕ, ◌≤◌, ◌≡◌, Bool, true, false, List}
use locoloco.Protocol.Types as ProtocolTypes
use locoloco.Protocol.Types.{Direction, Speed, Operation}

pub data Error : Type 0 where
  convert_loco_protocol_type : ProtocolTypes.Error → Error
  decode_from_slice encode_into_slice : Error
  invalid_backend_protocol_magic_number invalid_encoded_header_size : ℕ → Error
  read_eof read_less_than_expected set_pwm_duty_cycle tcp_read tcp_write : Error
  unknown_direction unknown_operation unknown_speed : ℕ → Error
  unsupported_operation : Operation → Error

-- What the firmware uses of a PWM output; false is an error.
pub record PwmOutput (P : Type 0) : Type 0 where
  pub set_duty_cycle_fully_off : P → Bool × P
  pub set_duty_cycle_percent : P → ℕ → Bool × P

-- Its documented behaviour: the duty cycle in percent is what was set last. A percentage is at most
-- 100; a call that fails changes nothing.
pub record IsPwmOutput {P : Type 0} (o : PwmOutput P) (duty : P → ℕ) : Type 0 where
  pub off :
      (p : P) → (o.set_duty_cycle_fully_off p).0 ≡ true → duty (o.set_duty_cycle_fully_off p).1 ≡ 0
  pub off_failed :
      (p : P)
      → (o.set_duty_cycle_fully_off p).0 ≡ false
      → duty (o.set_duty_cycle_fully_off p).1 ≡ duty p
  pub percent :
      (p : P) (n : ℕ)
      → n ≤ 100
      → (o.set_duty_cycle_percent p n).0 ≡ true
      → duty (o.set_duty_cycle_percent p n).1 ≡ n
  pub percent_failed :
      (p : P) (n : ℕ)
      → n ≤ 100
      → (o.set_duty_cycle_percent p n).0 ≡ false
      → duty (o.set_duty_cycle_percent p n).1 ≡ duty p

pub record PwmController (P : Type 0) : Type 0 where
  pub pwm_forward : P
  pub pwm_backward : P

pub record Loco (P : Type 0) : Type 0 where
  pub direction : Direction
  pub speed : Speed
  pub response : List ℕ
  pub pwm_ctrl : PwmController P
