-- ===== src/Pico/Loco/Replay.antt =====
-- A loco's board behind a stream of requests (loco_pico/src/bin/loco_pico.rs).
use locoloco.Common.{ℕ, ◌≡◌, sym, ap, ◌∙◌, true, Option, some, List, [], ◌∷◌, ◌++◌, Result, err}
use locoloco.Protocol.Types.{Direction, Speed}
use locoloco.Wire.{Traffic}
use locoloco.Pico.Socket.{Socket, IsSocket}
use locoloco.Pico.Loco.Types.{Error, PwmOutput, IsPwmOutput, Loco}
use locoloco.Pico.Loco.Motor.{duty_cycle}
use locoloco.Pico.Loco.Safety.{IsSafe}
use locoloco.Pico.Loco.Delivery.{driving, opposite, IsWorking}
use locoloco.Pico.Loco.Requests.{Request, last_course, answers, course_of}

-- The motor drives as the state says: one output has the duty cycle of the speed, the other is off.
pub record IsOnCourse {P : Type 0} (duty : P → ℕ) (loco : Loco P) : Type 0 where
  pub driven : duty (driving loco.direction loco.pwm_ctrl) ≡ duty_cycle loco.speed
  pub released : duty (opposite loco.direction loco.pwm_ctrl) ≡ 0

module _ {S P : Type 0} (k : Socket S) (t : Traffic S) (network : IsSocket k t) (o : PwmOutput P)
    (duty : P → ℕ) (lawful : IsPwmOutput o duty) (working : IsWorking o)
    (writing : (s : S) (m : List ℕ) → (k.write_all s m).0 ≡ true) where
  -- what a request does
  record Does (r : Request) (x y : S × Loco P) : Type 0 where
    course : course_of y.1 ≡ last_course (r ∷ []) (course_of x.1)
    sent : t.sent y.0 ≡ t.sent x.0 ++ answers (r ∷ []) (course_of x.1)

  -- what holds between two requests
  record IsSound (loco : Loco P) : Type 0 where
    safe : IsSafe duty loco
    on_course : IsOnCourse duty loco

  on_course :
      {d : Direction} {s : Speed} {loco : Loco P}
      → loco.direction ≡ d
      → loco.speed ≡ s
      → duty (driving d loco.pwm_ctrl) ≡ duty_cycle s
      → duty (opposite d loco.pwm_ctrl) ≡ 0
      → IsOnCourse duty loco
  on_course {loco} e f driven released = record {
    driven = ap (λ d. duty (driving d loco.pwm_ctrl)) e ∙ driven ∙ ap duty_cycle (sym f);
    released = ap (λ d. duty (opposite d loco.pwm_ctrl)) e ∙ released;
  }

  -- The board came to the end of its connection: it is on the course of the last command, its motor
  -- drives so, and it answered each request for the status.
  pub record IsServed (rs : List Request) (s : S) (loco : Loco P)
      (result : Option (Result Error (Unit {0}) × S × Loco P)) : Type 0 where
    pub error : Error
    pub before : S
    pub socket : S
    pub state : Loco P
    pub ended : result ≡ some (err error, socket, state)
    pub course : course_of state ≡ last_course rs (course_of loco)
    pub motor : IsOnCourse duty state
    pub sent : t.sent before ≡ t.sent s ++ answers rs (course_of loco)
