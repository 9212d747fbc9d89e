-- ===== src/Examples/Boards.antt =====
-- The boards of the locos, on a socket that is two lists and outputs that are values.
use locoloco.Common.{
  Option, ℕ, ◌+◌, ◌≤◌, ◌<◌, ◌≡◌, refl, true, none, some, List, [], ◌∷◌, length, zero, suc, ok, All,
  get, insert, inl, arith,
}
use Prim.Native.Nat.{◌*◌}
use locoloco.Protocol.Types.{
  forward, backward, slow, fast, switch_rails, switch_rails3, loco1, loco_id_eq,
}
use locoloco.Protocol.Direction
use locoloco.Protocol.Speed
use locoloco.Backend.Types.{LocoInfo}
use locoloco.Backend.State as State
use locoloco.Backend.Frames.{control_loco_message, loco_status_message}
use locoloco.Backend.Delivery.{requests}
use locoloco.Backend.Locos.{handle_loco_connection}
use locoloco.Pico.Loop.{IsEnded}
use locoloco.Pico.Receive.Limits.{IsByte}
use locoloco.Pico.Loco.Types.{PwmOutput, IsPwmOutput, Loco}
use locoloco.Pico.Loco.Motor.{desired_freq_hz, divider, period}
use locoloco.Pico.Loco.Messages.{handle_message, handle_messages, connect_message}
use locoloco.Pico.Loco.Messages as LocoMessages
use locoloco.Pico.Loco.Safety.{IsSafe}
use locoloco.Pico.Loco.Termination.{handle_messages-IsEnded}
use locoloco.Pico.Loco.Delivery.{IsWorking, IsObeyed, control_loco_reaches}
use locoloco.Pico.Loco.Answers.{IsAnswered, loco_status-IsAnswered}
use locoloco.Pico.Loco.Connect.{connect_message_accepted}
use locoloco.Pico.Loco.Frequency.{period_bounds}
use locoloco.Examples.Pipe.{Pipe, pipe, traffic, pipe-IsWire}
use locoloco.Examples.Slices.{socket, socket-IsSocket}

-- an output that is its duty cycle
abbrev pub pwm : PwmOutput ℕ
pwm = record {
  set_duty_cycle_fully_off = λ p. (true, 0);
  set_duty_cycle_percent = λ p n. (true, n);
}

abbrev pub duty : ℕ → ℕ
duty n = n

pub pwm-IsPwmOutput : IsPwmOutput pwm duty
pwm-IsPwmOutput = record {
  off = λ p e. refl;
  off_failed = λ p e. absurd (cc);
  percent = λ p n h e. refl;
  percent_failed = λ p n h e. absurd (cc);
}

pub pwm-IsWorking : IsWorking pwm
pwm-IsWorking = record { off = λ p. refl; percent = λ p n h. refl }

-- a loco that drives backward
abbrev pub board : Loco ℕ
board = record {
  direction = backward;
  speed = slow;
  response = LocoMessages.zeros 1024;
  pwm_ctrl = record { pwm_forward = 0; pwm_backward = 25 };
}

length-zeros : (n : ℕ) → length (LocoMessages.zeros n) ≡ n
unfolding LocoMessages.zeros
length-zeros zero = refl
length-zeros (suc n) = omega (arith, length-zeros n)

pub board-IsSafe : IsSafe duty board
board-IsSafe = record { single = inl refl; readable = tt; buffer = length-zeros 1024 }

abbrev drive_forward : List ℕ
drive_forward = 0xab ∷ 2 ∷ 2 ∷ Direction.into forward ∷ Speed.into fast ∷ []

drive_forward-sent : control_loco_message pipe forward fast ≡ ok drive_forward
drive_forward-sent = (requests pipe traffic pipe-IsWire forward fast switch_rails3 switch_rails 0).0

control_loco_reaches_example :
    IsObeyed socket traffic socket-IsSocket pwm duty pwm-IsPwmOutput pwm-IsWorking forward fast
      (0xab ∷ [])
      (0xab ∷ 2 ∷ 2 ∷ Direction.into forward ∷ Speed.into fast ∷ 0xab ∷ [], [])
      (handle_message socket pwm
        (0xab ∷ 2 ∷ 2 ∷ Direction.into forward ∷ Speed.into fast ∷ 0xab ∷ [], [])
        board)
control_loco_reaches_example =
    control_loco_reaches socket traffic socket-IsSocket pwm duty pwm-IsPwmOutput pwm-IsWorking pipe
      traffic pipe-IsWire forward fast drive_forward (0xab ∷ [])
      (0xab ∷ 2 ∷ 2 ∷ Direction.into forward ∷ Speed.into fast ∷ 0xab ∷ [], []) board tt
      drive_forward-sent refl

status-sent : loco_status_message pipe ≡ ok (0xab ∷ 3 ∷ 0 ∷ [])
status-sent = (requests pipe traffic pipe-IsWire forward fast switch_rails3 switch_rails 0).1

loco_status-IsAnswered_example :
    IsAnswered socket traffic socket-IsSocket pwm duty pwm-IsPwmOutput pipe traffic pipe-IsWire
      board
      (7 ∷ [])
      (0xab ∷ 3 ∷ 0 ∷ 7 ∷ [], 5 ∷ [])
      (handle_message socket pwm (0xab ∷ 3 ∷ 0 ∷ 7 ∷ [], 5 ∷ []) board)
loco_status-IsAnswered_example =
    loco_status-IsAnswered socket traffic socket-IsSocket pwm duty pwm-IsPwmOutput pipe traffic
      pipe-IsWire (0xab ∷ 3 ∷ 0 ∷ []) (7 ∷ []) (0xab ∷ 3 ∷ 0 ∷ 7 ∷ [], 5 ∷ []) board board-IsSafe
      (λ s m. refl) status-sent refl

-- a command, and the start of a next one
abbrev pub talk : Pipe
talk = (0xab ∷ 2 ∷ 2 ∷ 1 ∷ 202 ∷ 0xab ∷ [], [])

pub talk-IsByte : All IsByte (traffic.incoming talk)
talk-IsByte =
    (omega arith, (omega arith, (omega arith, (omega arith, (omega arith, (omega arith, tt))))))

handle_messages-IsEnded_example :
    IsEnded
      (handle_message socket pwm)
      traffic
      (IsSafe duty)
      (handle_messages socket pwm 7 talk board)
handle_messages-IsEnded_example =
    handle_messages-IsEnded socket pwm traffic socket-IsSocket duty pwm-IsPwmOutput 7 talk board
      (omega arith) talk-IsByte board-IsSafe

-- the controller is reached in the first and in the third round
abbrev pub connections : List (ℕ × Option Pipe)
connections = (7, some talk) ∷ (1, none) ∷ (7, some talk) ∷ []

period_bounds_example :
    (desired_freq_hz * divider * (period 125000000 + 1) ≤ 125000000)
    × (125000000 < desired_freq_hz * divider * (period 125000000 + 2))
    × (period 125000000 < 65536)
period_bounds_example = period_bounds 125000000 (omega arith) (omega arith)

abbrev info : LocoInfo Pipe
info = record { stream = none; location = none; intent = none }

at_loco1 : get (State.new {S = Pipe}).loco_info loco1 ≡ some info
unfolding State.new get
at_loco1 = refl

connect_message_accepted_example :
    (connect_message socket pwm ≡ ok (0xab ∷ 1 ∷ 1 ∷ 1 ∷ []))
    × (stream' : Pipe) × (traffic.incoming stream' ≡ 9 ∷ [])
    × (handle_loco_connection pipe (0xab ∷ 1 ∷ 1 ∷ 1 ∷ 9 ∷ [], []) State.new ≡ (
      ok tt,
      record State.new {
        loco_info =
            insert loco1 (record info { stream = some stream' }) (State.new {S = Pipe}).loco_info;
      },
    ))
connect_message_accepted_example =
    connect_message_accepted socket traffic socket-IsSocket pwm pipe traffic pipe-IsWire (9 ∷ [])
      (0xab ∷ 1 ∷ 1 ∷ 1 ∷ 9 ∷ [], []) State.new info at_loco1 refl
