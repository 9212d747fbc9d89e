-- ===== src/Pico/Loco/Delivery.antt =====
-- The controller's command at a loco's board, from the bytes to the motor
-- (loco_controller/src/backend.rs, loco_pico/src/bin/loco_pico.rs).
use locoloco.Common.{
  ℕ, ◌≤◌, ◌≡◌, refl, sym, ap, subst, ◌∙◌, true, List, [], ◌∷◌, ◌++◌, Result, ok, arith,
  ok-injective,
}
use locoloco.Protocol.Types as ProtocolTypes
use locoloco.Protocol.Types.{
  Direction, forward, backward, Speed, Operation, LocoStatusResponse, ControlLocoPayload,
}
use locoloco.Protocol.Direction
use locoloco.Protocol.Speed
use locoloco.Protocol.Speed.{IsReadable}
use locoloco.Protocol.Operation
use locoloco.Wire.{Wire, Traffic, IsWire}
use locoloco.Backend.Frames.{control_loco_message}
use locoloco.Backend.Delivery.{requests}
use locoloco.Pico.Socket.{Socket, IsSocket}
use locoloco.Pico.Receive.{receive}
use locoloco.Pico.Receive.Frames.{IsReceived, receive-IsReceived}
use locoloco.Pico.Loco.Types.{Error, PwmOutput, IsPwmOutput, PwmController, Loco}
use locoloco.Pico.Loco.Motor as Motor
use locoloco.Pico.Loco.Motor.{duty_cycle, clear_then_set}
use locoloco.Pico.Loco.Messages.{
  reasons, apply, set_speed, set_direction, set_controls, handle_op_control_loco, dispatch, handle,
  handle_message,
}
use locoloco.Pico.Loco.Safety.{duty_cycle-le}

-- The frame with a direction and a speed.
abbrev pub drive_bytes : Direction → Speed → List ℕ
drive_bytes d s = 0xab ∷ 2 ∷ 2 ∷ Direction.into d ∷ Speed.into s ∷ []

-- The output that drives in a direction, and the other.
abbrev pub driving : {P : Type 0} → Direction → PwmController P → P
driving forward c = c.pwm_forward
driving backward c = c.pwm_backward

abbrev pub opposite : {P : Type 0} → Direction → PwmController P → P
opposite forward c = c.pwm_backward
opposite backward c = c.pwm_forward

-- Every call on the outputs succeeds.
pub record IsWorking {P : Type 0} (o : PwmOutput P) : Type 0 where
  pub off : (p : P) → (o.set_duty_cycle_fully_off p).0 ≡ true
  pub percent : (p : P) (n : ℕ) → n ≤ 100 → (o.set_duty_cycle_percent p n).0 ≡ true

module _ {S P : Type 0} (k : Socket S) (t : Traffic S) (network : IsSocket k t) (o : PwmOutput P)
    (duty : P → ℕ) (lawful : IsPwmOutput o duty) (working : IsWorking o) where
  pub control_loco_lem :
      (d : Direction) (s : Speed) (c : PwmController P)
      → IsReadable s
      → let out = Motor.control_loco o d s c in
        (out.0 ≡ ok tt) × (duty (driving d out.1) ≡ duty_cycle s) × (duty (opposite d out.1) ≡ 0)
  unfolding Motor.control_loco clear_then_set
  control_loco_lem forward s c h =
      let n = duty_cycle s in
      let le = duty_cycle-le s h in
      let a = working.off c.pwm_backward in
      let b = working.percent c.pwm_forward n le in
      (
        ground arith,
        ground (arith, lawful.percent c.pwm_forward n le b),
        ground (arith, lawful.off c.pwm_backward a),
      )
  control_loco_lem backward s c h =
      let n = duty_cycle s in
      let le = duty_cycle-le s h in
      let a = working.off c.pwm_forward in
      let b = working.percent c.pwm_backward n le in
      (
        ground arith,
        ground (arith, lawful.percent c.pwm_backward n le b),
        ground (arith, lawful.off c.pwm_forward a),
      )

  -- A loco drives as it was told, and said nothing.
  pub record IsObeyed (d : Direction) (s : Speed) (rest : List ℕ) (socket : S)
      (out : Result Error (Unit {0}) × S × Loco P) : Type 0 where
    pub done : out.0 ≡ ok tt
    pub left : t.incoming out.1 ≡ rest
    pub silent : t.sent out.1 ≡ t.sent socket
    pub direction : out.2.direction ≡ d
    pub speed : out.2.speed ≡ s
    pub driven : duty (driving d out.2.pwm_ctrl) ≡ duty_cycle s
    pub released : duty (opposite d out.2.pwm_ctrl) ≡ 0

  handle_op_control_loco-eq :
      (d : Direction) (s : Speed) (loco : Loco P)
      → IsReadable s
      → handle_op_control_loco k o (Direction.into d ∷ Speed.into s ∷ []) loco
        ≡ apply k o (record loco { direction = d; speed = s })
  unfolding handle_op_control_loco
  handle_op_control_loco-eq d s loco h =
      let p : ControlLocoPayload = record { direction = Direction.into d; speed = Speed.into s } in
      rw
        (
          network.control_loco_codec.decodes p [],
          handle_op_control_loco,
          set_controls,
          Direction.into-IsCode.from_into d,
          set_direction,
          (Speed.try_from-into_iff s).1 h,
          set_speed,
        )
        refl

  handle_message-control_loco :
      (payload : List ℕ) (rest : List ℕ) (socket : S) (loco : Loco P)
      → IsReceived reasons k t network ProtocolTypes.control_loco payload rest socket
          (receive reasons k socket)
      → handle_message k o socket loco ≡ (
        (handle_op_control_loco k o payload loco).0,
        (receive reasons k socket).1,
        (handle_op_control_loco k o payload loco).1,
      )
  unfolding handle_message handle dispatch
  handle_message-control_loco payload rest socket loco r =
      rw (r.message, handle_message, handle, dispatch) refl

  -- a frame with a direction and a speed that can be read back
  pub handle_message-IsObeyed :
      (d : Direction) (s : Speed) (rest : List ℕ) (socket : S) (loco : Loco P)
      → IsReadable s
      → t.incoming socket ≡ drive_bytes d s ++ rest
      → IsObeyed d s rest socket (handle_message k o socket loco)
  unfolding apply Operation.into
  handle_message-IsObeyed d s rest socket loco h arrived =
      let payload : List ℕ = Direction.into d ∷ Speed.into s ∷ [] in
      let r =
        receive-IsReceived reasons k t network ProtocolTypes.control_loco payload rest socket
          (omega arith) arrived in
      let (fine, driven, off) = control_loco_lem d s loco.pwm_ctrl h in
      let step =
        handle_message-control_loco payload rest socket loco r
        ∙ ap (λ p. (p.0, (receive reasons k socket).1, p.1))
            (handle_op_control_loco-eq d s loco h) in
      subst (IsObeyed d s rest socket) (sym step) (record {
        done = fine;
        left = r.left;
        silent = r.silent;
        direction = refl;
        speed = refl;
        driven = driven;
        released = off;
      })

  module _ {C : Type 0} (w : Wire C) (c : Traffic C) (wired : IsWire w c) where
    -- Under the laws of `IsWire`, `IsSocket` and `IsPwmOutput`, while the calls on the outputs succeed:
    -- when the bytes of the controller's `control_loco` arrive at a loco's board, with a speed that can
    -- be read back, one message succeeds and takes exactly these bytes. The board then has the
    -- direction and the speed, drives with the duty cycle of the speed on the output of the direction,
    -- has the other output off, and has answered nothing.
    pub control_loco_reaches :
        (d : Direction) (s : Speed) (message rest : List ℕ) (socket : S) (loco : Loco P)
        → IsReadable s
        → control_loco_message w d s ≡ ok message
        → t.incoming socket ≡ message ++ rest
        → IsObeyed d s rest socket (handle_message k o socket loco)
    control_loco_reaches d s message rest socket loco h sent e =
        let same : message ≡ drive_bytes d s = ok-injective (
          sym sent
          ∙ (requests w c wired d s ProtocolTypes.switch_rails1 ProtocolTypes.switch_rails 0).0) in
        handle_message-IsObeyed d s rest socket loco h (e ∙ ap (λ l. l ++ rest) same)
