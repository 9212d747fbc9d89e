-- ===== src/System/Motions.antt =====
-- The motor behind a command of the oracle (loco_controller/src/oracle.rs,
-- loco_pico/src/bin/loco_pico.rs).
use locoloco.Common.{ℕ, ◌≡◌, sym, ap, subst, ◌∙◌, some, List, In}
use locoloco.Protocol.Types.{LocoId, forward, backward, Direction}
use locoloco.RailNetwork.Types.{SegmentId}
use locoloco.Oracle.Types.{ActiveSegment, LocoControl}
use locoloco.Oracle.Grants.{sent_off, stopped, IsCaused}
use locoloco.Pico.Loco.Types.{PwmController, Loco}
use locoloco.Pico.Loco.Motor.{duty_cycle}
use locoloco.Pico.Loco.Delivery.{driving, opposite}
use locoloco.Pico.Loco.Requests.{Course, course_of}
use locoloco.Pico.Loco.Replay.{IsOnCourse}

-- The motor drives at normal speed in the direction of an active segment of the loco, and the loco may
-- enter that segment; or the motor is off.
pub data Motion {P : Type 0} (duty : P → ℕ) (j : LocoId) (segments : List ActiveSegment)
    (taken : List SegmentId) (c : PwmController P) : Type 0 where
  drives :
      (s : ActiveSegment) (id : SegmentId)
      → In s segments
      → s.loco_id ≡ j
      → s.id ≡ some id
      → In id taken
      → duty (driving s.direction c) ≡ 75
      → duty (opposite s.direction c) ≡ 0
      → Motion duty j segments taken c
  stands : duty c.pwm_forward ≡ 0 → duty c.pwm_backward ≡ 0 → Motion duty j segments taken c

both_off :
    {P : Type 0} (duty : P → ℕ) (d : Direction) (c : PwmController P)
    → duty (driving d c) ≡ 0
    → duty (opposite d c) ≡ 0
    → (duty c.pwm_forward ≡ 0) × (duty c.pwm_backward ≡ 0)
both_off duty forward c e f = (e, f)
both_off duty backward c e f = (f, e)

-- a board that has the course of a command, with its motor driving so
pub motion :
    {P : Type 0} (duty : P → ℕ) (j : LocoId) (segments : List ActiveSegment)
    (taken : List SegmentId) (k : LocoControl) (loco : Loco P)
    → IsCaused segments taken k
    → k.0 ≡ j
    → course_of loco ≡ (k.1, k.2)
    → IsOnCourse duty loco
    → Motion duty j segments taken loco.pwm_ctrl
unfolding duty_cycle
motion duty j segments taken k loco cause same course motor =
    let c = loco.pwm_ctrl in
    let d = ap (λ (x : Course). x.0) course ∙ sym cause.direction in
    let v = ap (λ (x : Course). x.1) course in
    let ahead = subst (λ d. duty (driving d c) ≡ duty_cycle loco.speed) d motor.driven in
    let behind = subst (λ d. duty (opposite d c) ≡ 0) d motor.released in
    elim cause.granted [
      | sent_off id e m n ↦
          drives cause.segment id cause.listed (cause.loco ∙ same) e m
            (ahead ∙ ap duty_cycle (v ∙ n)) behind
      | stopped n ↦
          let (f, b) =
            both_off duty cause.segment.direction c (ahead ∙ ap duty_cycle (v ∙ n)) behind in
          stands f b
    ]
