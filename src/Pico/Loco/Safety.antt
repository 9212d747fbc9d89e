-- ===== src/Pico/Loco/Safety.antt =====
-- What holds of a loco's board whatever arrives (loco_pico/src/bin/loco_pico.rs).
use locoloco.Common.{
  ℕ, ◌≤◌, ◌≡◌, ◌⊎◌, inl, inr, refl, ◌∙◌, Option, none, some, List, [], ◌∷◌, length, drop,
  length-overwrite, Result, ok, err, panic, arith, Bool-cases,
}
use locoloco.Protocol.Types as ProtocolTypes
use locoloco.Protocol.Types.{
  Direction, forward, backward, Speed, stop, slow, Operation, ControlLocoPayload, loco_status,
  control_loco,
}
use locoloco.Protocol.Direction
use locoloco.Protocol.Speed
use locoloco.Protocol.Speed.{IsReadable}
use locoloco.Wire.{Traffic}
use locoloco.Pico.Socket.{Socket, IsSocket}
use locoloco.Pico.Receive.{receive}
use locoloco.Pico.Loco.Types.{Error, PwmOutput, IsPwmOutput, PwmController, Loco}
use locoloco.Pico.Loco.Motor
use locoloco.Pico.Loco.Motor.{duty_cycle, clear_then_set}
use locoloco.Pico.Loco.Messages.{
  reasons, apply, set_speed, set_direction, set_controls, handle_op_control_loco,
  handle_op_loco_status, respond, dispatch, handle, handle_message, reset,
}

module _ {P : Type 0} (o : PwmOutput P) (duty : P → ℕ) (lawful : IsPwmOutput o duty) where
  -- At most one of the two outputs drives the motor.
  abbrev pub IsSingle : PwmController P → Type 0
  IsSingle c = (duty c.pwm_forward ≡ 0) ⊎ (duty c.pwm_backward ≡ 0)

  -- the one to clear is off, or nothing was set
  clear_then_set-cases :
      (clear set : P) (n : ℕ)
      → n ≤ 100
      → let out = clear_then_set o clear set n in
        (duty out.1 ≡ 0) ⊎ ((duty out.1 ≡ duty clear) × (duty out.2 ≡ duty set))
  unfolding clear_then_set
  clear_then_set-cases clear set n h = elim (Bool-cases (o.set_duty_cycle_fully_off clear).0) [
    | inl e ↦ inl (rw (e, clear_then_set) (lawful.off clear e))
    | inr e ↦ inr (rw (e, clear_then_set) (lawful.off_failed clear e, refl))
  ]

  -- Whether the outputs take their duty cycles or fail, at most one drives the motor afterwards, if
  -- it was so before.
  control_loco-IsSingle :
      (d : Direction) (s : Speed) (c : PwmController P)
      → duty_cycle s ≤ 100
      → IsSingle c
      → IsSingle (Motor.control_loco o d s c).1
  unfolding Motor.control_loco
  control_loco-IsSingle forward s c h single =
      elim (clear_then_set-cases c.pwm_backward c.pwm_forward (duty_cycle s) h) [
        | inl off ↦ inr off
        | inr (a, b) ↦ elim single [ inl f ↦ inl (b ∙ f) | inr g ↦ inr (a ∙ g) ]
      ]
  control_loco-IsSingle backward s c h single =
      elim (clear_then_set-cases c.pwm_forward c.pwm_backward (duty_cycle s) h) [
        | inl off ↦ inl off
        | inr (a, b) ↦ elim single [ inl f ↦ inl (a ∙ f) | inr g ↦ inr (b ∙ g) ]
      ]

-- A speed that can be read back is a duty cycle of at most 100 percent.
pub duty_cycle-le : (s : Speed) → IsReadable s → duty_cycle s ≤ 100
unfolding duty_cycle
duty_cycle-le stop h = omega arith
duty_cycle-le _ h = ground arith

-- What holds between two messages: at most one output drives the motor, the speed can be read back
-- from its code, and the buffer of the response has its size.
pub record IsSafe {P : Type 0} (duty : P → ℕ) (loco : Loco P) : Type 0 where
  pub single : (duty loco.pwm_ctrl.pwm_forward ≡ 0) ⊎ (duty loco.pwm_ctrl.pwm_backward ≡ 0)
  pub readable : IsReadable loco.speed
  pub buffer : length loco.response ≡ 1024

module _ {S P : Type 0} (k : Socket S) (t : Traffic S) (network : IsSocket k t) (o : PwmOutput P)
    (duty : P → ℕ) (lawful : IsPwmOutput o duty) where
  apply-IsSafe : (loco : Loco P) → IsSafe duty loco → IsSafe duty (apply k o loco).1
  unfolding apply
  apply-IsSafe loco h = record {
    single =
        control_loco-IsSingle o duty lawful loco.direction loco.speed loco.pwm_ctrl
          (duty_cycle-le loco.speed h.readable) h.single;
    readable = h.readable;
    buffer = h.buffer;
  }

  set_speed-IsSafe :
      (n : ℕ) (loco : Loco P)
      → IsSafe duty loco
      → IsSafe duty (set_speed k o (Speed.try_from n) loco).1
  set_speed-IsSafe n loco h = on (Speed.try_from n) refl
    where
      on :
          (r : Result ProtocolTypes.Error Speed)
          → Speed.try_from n ≡ r
          → IsSafe duty (set_speed k o r loco).1
      on (ok s) e =
          unfold set_speed in
          apply-IsSafe (record loco { speed = s })
            (record {
              single = h.single;
              readable = (Speed.into-try_from-IsReadable n s e).1;
              buffer = h.buffer;
            })
      on (err x) e = unfold set_speed in h
      on panic e = unfold set_speed in h

  set_direction-IsSafe :
      (r : Result ProtocolTypes.Error Direction) (n : ℕ) (loco : Loco P)
      → IsSafe duty loco
      → IsSafe duty (set_direction k o r n loco).1
  unfolding set_direction
  set_direction-IsSafe (ok d) n loco h =
      set_speed-IsSafe n (record loco { direction = d })
        (record { single = h.single; readable = h.readable; buffer = h.buffer })
  set_direction-IsSafe (err e) n loco h = h
  set_direction-IsSafe panic n loco h = h

  set_controls-IsSafe :
      (p : Option ControlLocoPayload) (loco : Loco P)
      → IsSafe duty loco
      → IsSafe duty (set_controls k o p loco).1
  unfolding set_controls
  set_controls-IsSafe none loco h = h
  set_controls-IsSafe (some p) loco h =
      set_direction-IsSafe (Direction.try_from p.direction) p.speed loco h

  -- the response that a safe state encodes
  pub handle_op_loco_status-eq :
      (loco : Loco P)
      → IsSafe duty loco
      → handle_op_loco_status k o loco ≡ (
        ok 2,
        record loco {
          response = Direction.into loco.direction ∷ Speed.into loco.speed ∷ drop 2 loco.response;
        },
      )
  unfolding handle_op_loco_status
  handle_op_loco_status-eq loco h =
      let room : 2 ≤ length loco.response = omega (arith, h.buffer) in
      rw
        (
          network.loco_status_codec.encodes
              (record { direction = Direction.into loco.direction; speed = Speed.into loco.speed })
              (length loco.response) room,
          handle_op_loco_status,
        )
        refl

  respond-IsSafe :
      (r : Result Error ℕ) (s : S) (loco : Loco P)
      → IsSafe duty loco
      → IsSafe duty (respond k o r s loco).2
  unfolding respond
  respond-IsSafe (ok n) s loco h = h
  respond-IsSafe (err e) s loco h = h
  respond-IsSafe panic s loco h = h

  handle_op_loco_status-IsSafe :
      (loco : Loco P) → IsSafe duty loco → IsSafe duty (handle_op_loco_status k o loco).1
  handle_op_loco_status-IsSafe loco h =
      let bytes : List ℕ = Direction.into loco.direction ∷ Speed.into loco.speed ∷ [] in
      rw (handle_op_loco_status-eq loco h) (record {
        single = h.single;
        readable = h.readable;
        buffer = length-overwrite bytes loco.response (omega (arith, h.buffer)) ∙ h.buffer;
      })

  dispatch-IsSafe :
      (op : Operation) (payload : List ℕ) (s : S) (loco : Loco P)
      → IsSafe duty loco
      → IsSafe duty (dispatch k o op payload s loco).2
  unfolding dispatch handle_op_control_loco
  dispatch-IsSafe ProtocolTypes.control_loco payload s loco h =
      set_controls-IsSafe (k.control_loco_payload.decode_from_slice payload) loco h
  dispatch-IsSafe ProtocolTypes.loco_status payload s loco h =
      respond-IsSafe (handle_op_loco_status k o loco).0 s (handle_op_loco_status k o loco).1
        (handle_op_loco_status-IsSafe loco h)
  dispatch-IsSafe _ payload s loco h = h

  handle-IsSafe :
      (r : Result Error (Operation × List ℕ)) (s : S) (loco : Loco P)
      → IsSafe duty loco
      → IsSafe duty (handle k o r s loco).2
  unfolding handle
  handle-IsSafe (ok (op, payload)) s loco h = dispatch-IsSafe op payload s loco h
  handle-IsSafe (err e) s loco h = h
  handle-IsSafe panic s loco h = h

  -- Whatever arrives, and whether the outputs take their duty cycles or fail, a message leaves the
  -- board safe.
  pub handle_message-IsSafe :
      (s : S) (loco : Loco P) → IsSafe duty loco → IsSafe duty (handle_message k o s loco).2
  unfolding handle_message
  handle_message-IsSafe s loco h =
      let (message, s') = receive reasons k s in handle-IsSafe message s' loco h

  pub reset-IsSafe : (loco : Loco P) → IsSafe duty loco → IsSafe duty (reset k o loco).1
  unfolding reset
  reset-IsSafe loco h =
      apply-IsSafe (record loco { direction = forward; speed = stop })
        (record { single = h.single; readable = tt; buffer = h.buffer })
