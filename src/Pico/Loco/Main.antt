-- ===== src/Pico/Loco/Main.antt =====
-- One round of `main` of loco_pico/src/bin/loco_pico.rs: the reset, the connection, and the messages.
use locoloco.Common.{
  ℕ, ◌<◌, ◌≡◌, refl, sym, ap, subst, Bool, true, false, Option, none, some, List, [], ◌∷◌, length,
  Result, ok, err, panic, All, Bool-cases, inl, inr, if◌then◌else◌, arith,
}
use locoloco.Protocol.Types.{forward, stop}
use locoloco.Wire.{Traffic}
use locoloco.Pico.Socket.{Socket, IsSocket}
use locoloco.Pico.Loop.{behind}
use locoloco.Pico.Loco.Types.{Error, tcp_write, PwmOutput, IsPwmOutput, Loco}
use locoloco.Pico.Loco.Motor.{duty_cycle}
use locoloco.Pico.Loco.Messages.{apply, reset, send_connect_op, handle_messages}
use locoloco.Pico.Receive.Limits.{IsByte}
use locoloco.Pico.Loco.Safety.{IsSafe, reset-IsSafe}
use locoloco.Pico.Loco.Termination.{handle_messages-IsEnded}
use locoloco.Pico.Loco.Connect.{connect_message-eq}
use locoloco.Pico.Loco.Delivery.{IsWorking, control_loco_lem}

module _ {S P : Type 0} (k : Socket S) (o : PwmOutput P) where
  -- with the result of `send_connect_op`
  unfoldable pub handle_connected : ℕ → Result Error (Unit {0}) → S → Loco P → Option (Loco P)
  unfolding handle_messages
  handle_connected fuel (ok _) socket loco = behind (handle_messages k o fuel socket loco)
  handle_connected fuel (err e) socket loco = some loco
  handle_connected fuel panic socket loco = none

  -- with the result of `reset`, and the socket if the controller was reached
  unfoldable pub connect_and_handle :
      ℕ → Result Error (Unit {0}) → Option S → Loco P → Option (Loco P)
  unfolding send_connect_op handle_connected
  connect_and_handle fuel (ok _) none loco = some loco
  connect_and_handle fuel (ok _) (some socket) loco =
      let (sent, socket') = send_connect_op k o socket in handle_connected fuel sent socket' loco
  connect_and_handle fuel (err e) connection loco = some loco
  connect_and_handle fuel panic connection loco = none

  -- The board at the end of the round; `none` is the end of the fuel, or a panic.
  unfoldable pub session : ℕ → Option S → Loco P → Option (Loco P)
  unfolding reset connect_and_handle
  session fuel connection loco =
      let (r, loco') = reset k o loco in connect_and_handle fuel r connection loco'

  module _ (t : Traffic S) (network : IsSocket k t) (duty : P → ℕ) (lawful : IsPwmOutput o duty)
      (working : IsWorking o) where
    -- The board stands still.
    pub record IsStopped (loco : Loco P) : Type 0 where
      pub direction : loco.direction ≡ forward
      pub speed : loco.speed ≡ stop
      pub forward_off : duty loco.pwm_ctrl.pwm_forward ≡ 0
      pub backward_off : duty loco.pwm_ctrl.pwm_backward ≡ 0

    reset_stops : (loco : Loco P) → ((reset k o loco).0 ≡ ok tt) × IsStopped (reset k o loco).1
    unfolding reset apply duty_cycle
    reset_stops loco =
        let (fine, driven, off) =
          control_loco_lem k t network o duty lawful working forward stop loco.pwm_ctrl tt in
        (fine, record { direction = refl; speed = refl; forward_off = driven; backward_off = off })

    -- How a round ends: the board is safe, and the next round begins by stopping it.
    pub record IsOver (result : Option (Loco P)) : Type 0 where
      pub loco : Loco P
      pub ended : result ≡ some loco
      pub safe : IsSafe duty loco
      pub resets : (reset k o loco).0 ≡ ok tt
      pub stopped : IsStopped (reset k o loco).1

    pub over : (loco : Loco P) → IsSafe duty loco → IsOver (some loco)
    over loco safe =
        let (fine, still) = reset_stops loco in
        record { loco = loco; ended = refl; safe = safe; resets = fine; stopped = still }

    handle_connected-IsOver :
        (fuel : ℕ) (sent : Bool) (socket : S) (loco : Loco P)
        → length (t.incoming socket) < fuel
        → All IsByte (t.incoming socket)
        → IsSafe duty loco
        → IsOver (handle_connected fuel (if sent then ok tt else err tcp_write) socket loco)
    unfolding handle_connected
    handle_connected-IsOver fuel true socket loco enough bytes safe =
        let e =
          handle_messages-IsEnded k o t network duty lawful fuel socket loco enough bytes safe in
        let o' = over e.state e.kept in rw (e.ended, handle_connected) o'
    handle_connected-IsOver fuel false socket loco enough bytes safe = over loco safe

    connected-IsOver :
        (fuel : ℕ) (socket : S) (loco : Loco P)
        → length (t.incoming socket) < fuel
        → All IsByte (t.incoming socket)
        → IsSafe duty loco
        → IsOver (connect_and_handle fuel (ok tt) (some socket) loco)
    unfolding connect_and_handle send_connect_op
    connected-IsOver fuel socket loco enough bytes safe =
        let hello : List ℕ = 0xab ∷ 1 ∷ 1 ∷ 1 ∷ [] in
        let (done, socket') = k.write_all socket hello in
        let said = connect_message-eq k t network o in
        let step : connect_and_handle fuel (ok tt) (some socket) loco
            ≡ handle_connected fuel (if done then ok tt else err tcp_write) socket' loco =
          rw (said, connect_and_handle, send_connect_op) refl in
        subst IsOver (sym step) (elim (Bool-cases done) [
          | inl wrote ↦
              let quiet = (network.writes socket hello wrote).1 in
              rw wrote (
                handle_connected-IsOver fuel true socket' loco
                  (omega (arith, ap length quiet, enough)) (subst (All IsByte) (sym quiet) bytes)
                  safe)
          | inr failed ↦ rw failed (over loco safe)
        ])

    -- what the connection still delivers, if there is one
    abbrev pub incoming : Option S → List ℕ
    incoming none = []
    incoming (some socket) = t.incoming socket

    -- If the socket delivers bytes and behaves as documented, while the calls on the outputs succeed,
    -- from a safe board and with more fuel than bytes to come: a round of `main` ends, whether the
    -- controller is reached or not, and whatever arrives. It leaves the board safe, and the next round
    -- begins by setting both outputs off, forward and at no speed.
    pub session-IsOver :
        (fuel : ℕ) (connection : Option S) (loco : Loco P)
        → length (incoming connection) < fuel
        → All IsByte (incoming connection)
        → IsSafe duty loco
        → IsOver (session fuel connection loco)
    unfolding session
    session-IsOver fuel none loco enough bytes safe =
        let fine = (reset_stops loco).0 in
        let kept = reset-IsSafe k t network o duty lawful loco safe in
        unfold connect_and_handle in rw (fine, session) (over (reset k o loco).1 kept)
    session-IsOver fuel (some socket) loco enough bytes safe =
        let fine = (reset_stops loco).0 in
        let kept = reset-IsSafe k t network o duty lawful loco safe in
        rw (fine, session) (connected-IsOver fuel socket (reset k o loco).1 enough bytes kept)
