-- ===== src/Pico/Loco/Termination.antt =====
-- `handle_messages` of a loco's board, as long as its connection lasts
-- (loco_pico/src/bin/loco_pico.rs).
use locoloco.Common.{
  ℕ, ◌<◌, ◌≡◌, ◌≢◌, refl, sym, ap, ◌∙◌, Option, none, some, List, ◌++◌, length, Result, ok, err,
  panic, All, arith, take, Bool-cases, inl, inr,
}
use locoloco.Protocol.Types as ProtocolTypes
use locoloco.Protocol.Types.{
  Direction, Speed, Operation, ControlLocoPayload, control_loco, loco_status,
}
use locoloco.Protocol.Direction
use locoloco.Protocol.Speed
use locoloco.Wire.{Traffic}
use locoloco.Pico.Socket.{Socket, IsSocket}
use locoloco.Pico.Receive.{receive}
use locoloco.Pico.Receive.Limits.{IsByte, Takes, receive-IsBounded}
use locoloco.Pico.Loop.{IsRound, IsEnded, loop-IsEnded}
use locoloco.Pico.Loco.Types.{Error, PwmOutput, IsPwmOutput, Loco}
use locoloco.Pico.Loco.Motor as Motor
use locoloco.Pico.Loco.Messages.{
  reasons, apply, set_speed, set_direction, set_controls, handle_op_control_loco,
  handle_op_loco_status, respond, dispatch, handle, handle_message, handle_messages,
}
use locoloco.Pico.Loco.Safety.{IsSafe, handle_message-IsSafe}

speed-ne-panic : (n : ℕ) → Speed.try_from n ≢ panic
unfolding Speed.try_from
speed-ne-panic n = ground arith

direction-ne-panic : (n : ℕ) → Direction.try_from n ≢ panic
unfolding Direction.try_from
direction-ne-panic n = ground arith

module _ {S P : Type 0} (k : Socket S) (o : PwmOutput P) where
  apply-ne-panic : (loco : Loco P) → (apply k o loco).0 ≢ panic
  unfolding apply Motor.control_loco
  apply-ne-panic loco = ground arith

  set_speed-ne-panic :
      (r : Result ProtocolTypes.Error Speed) (loco : Loco P)
      → r ≢ panic
      → (set_speed k o r loco).0 ≢ panic
  unfolding set_speed
  set_speed-ne-panic (ok s) loco h = apply-ne-panic (record loco { speed = s })
  set_speed-ne-panic (err e) loco h = λ p. cc
  set_speed-ne-panic panic loco h = absurd (h refl)

  set_direction-ne-panic :
      (r : Result ProtocolTypes.Error Direction) (n : ℕ) (loco : Loco P)
      → r ≢ panic
      → (set_direction k o r n loco).0 ≢ panic
  unfolding set_direction
  set_direction-ne-panic (ok d) n loco h =
      set_speed-ne-panic (Speed.try_from n) (record loco { direction = d }) (speed-ne-panic n)
  set_direction-ne-panic (err e) n loco h = λ p. cc
  set_direction-ne-panic panic n loco h = absurd (h refl)

  set_controls-ne-panic :
      (p : Option ControlLocoPayload) (loco : Loco P) → (set_controls k o p loco).0 ≢ panic
  unfolding set_controls
  set_controls-ne-panic none loco = λ p. cc
  set_controls-ne-panic (some p) loco =
      set_direction-ne-panic (Direction.try_from p.direction) p.speed loco
        (direction-ne-panic p.direction)

  handle_op_loco_status-ne-panic : (loco : Loco P) → (handle_op_loco_status k o loco).0 ≢ panic
  unfolding handle_op_loco_status
  handle_op_loco_status-ne-panic loco = ground arith

  module _ (t : Traffic S) (network : IsSocket k t) where
    -- the write of a response takes nothing off the connection
    respond_lem :
        (r : Result Error ℕ) (s : S) (loco : Loco P)
        → r ≢ panic
        → ((respond k o r s loco).0 ≢ panic)
          × ((respond k o r s loco).0 ≡ ok tt → t.incoming (respond k o r s loco).1 ≡ t.incoming s)
    unfolding respond
    respond_lem (ok n) s loco h = elim (Bool-cases (k.write_all s (take n loco.response)).0) [
      | inl e ↦ ((λ p. ground arith), (λ p. (network.writes s (take n loco.response) e).1))
      | inr e ↦ ((λ p. ground arith), (λ p. absurd (ground arith)))
    ]
    respond_lem (err e) s loco h = ((λ p. cc), (λ p. absurd (cc)))
    respond_lem panic s loco h = absurd (h refl)

    dispatch_lem :
        (op : Operation) (payload : List ℕ) (s : S) (loco : Loco P)
        → ((dispatch k o op payload s loco).0 ≢ panic)
          × ((dispatch k o op payload s loco).0 ≡ ok tt
              → t.incoming (dispatch k o op payload s loco).1 ≡ t.incoming s)
    unfolding dispatch handle_op_control_loco
    dispatch_lem ProtocolTypes.control_loco payload s loco =
        (set_controls-ne-panic (k.control_loco_payload.decode_from_slice payload) loco, λ p. refl)
    dispatch_lem ProtocolTypes.loco_status payload s loco =
        respond_lem (handle_op_loco_status k o loco).0 s (handle_op_loco_status k o loco).1
          (handle_op_loco_status-ne-panic loco)
    dispatch_lem _ payload s loco = ((λ p. cc), (λ p. absurd (cc)))

    handle_lem :
        (r : Result Error (Operation × List ℕ)) (s s' : S) (loco : Loco P)
        → r ≢ panic
        → ((x : Operation × List ℕ) → r ≡ ok x → Takes 3 (t.incoming s) (t.incoming s'))
        → ((handle k o r s' loco).0 ≢ panic)
          × ((handle k o r s' loco).0 ≡ ok tt
              → Takes 1 (t.incoming s) (t.incoming (handle k o r s' loco).1))
    unfolding handle
    handle_lem (ok (op, payload)) s s' loco h taken =
        let (safe, quiet) = dispatch_lem op payload s' loco in
        (
          safe,
          λ p.
              let (front, size, split) = taken (op, payload) refl in
              (front, omega arith, split ∙ ap (λ l. front ++ l) (sym (quiet p))),
        )
    handle_lem (err e) s s' loco h taken = ((λ p. cc), (λ p. absurd (cc)))
    handle_lem panic s s' loco h taken = absurd (h refl)

    module _ (duty : P → ℕ) (lawful : IsPwmOutput o duty) where
      handle_message-IsRound :
          (s : S) (loco : Loco P)
          → All IsByte (t.incoming s)
          → IsSafe duty loco
          → IsRound (handle_message k o) t (IsSafe duty) s (handle_message k o s loco)
      unfolding handle_message
      handle_message-IsRound s loco bytes h =
          let (safe, taken) = receive-IsBounded k t network reasons s bytes in
          let (message, s') = receive reasons k s in
          let (fine, fewer) = handle_lem message s s' loco safe taken in
          record {
            kept = handle_message-IsSafe k t network o duty lawful s loco h;
            safe = fine;
            taken = fewer;
          }

      -- If the socket delivers bytes and behaves as documented, and so do the outputs, then from a
      -- safe state and with more fuel than bytes to come, `handle_messages` ends with an error, not
      -- with a panic, and the board is safe: at most one output drives the motor, and the speed can
      -- be read back from its code.
      pub handle_messages-IsEnded :
          (fuel : ℕ) (s : S) (loco : Loco P)
          → length (t.incoming s) < fuel
          → All IsByte (t.incoming s)
          → IsSafe duty loco
          → IsEnded (handle_message k o) t (IsSafe duty) (handle_messages k o fuel s loco)
      unfolding handle_messages
      handle_messages-IsEnded fuel s loco h bytes safe =
          loop-IsEnded (handle_message k o) t (IsSafe duty)
            (λ s loco. handle_message-IsRound s loco) fuel s loco h bytes safe
