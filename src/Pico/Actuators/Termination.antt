-- ===== src/Pico/Actuators/Termination.antt =====
-- `handle_messages` of the actuators' board, as long as its connection lasts
-- (actuators_pico/src/bin/actuators_pico.rs).
use locoloco.Common.{
  ℕ, ◌<◌, ◌≡◌, ◌≢◌, refl, sym, ap, ◌∙◌, ◌++◌, Option, none, some, List, length, Result, ok, err,
  panic, All, arith,
}
use locoloco.Protocol.Types as ProtocolTypes
use locoloco.Protocol.Types.{
  ActuatorId, ActuatorType, switch_rails, SwitchRailsState, Operation, DriveActuatorPayload,
}
use locoloco.Protocol.ActuatorId
use locoloco.Protocol.ActuatorType
use locoloco.Protocol.SwitchRailsState
use locoloco.Wire.{Traffic}
use locoloco.Pico.Socket.{Socket, IsSocket}
use locoloco.Pico.Receive.{receive}
use locoloco.Pico.Receive.Limits.{IsByte, Takes, receive-IsBounded}
use locoloco.Pico.Loop.{IsRound, IsEnded, loop-IsEnded}
use locoloco.Pico.Actuators.Types.{Error, Level, Output, IsOutput, Actuators}
use locoloco.Pico.Actuators.Messages.{
  reasons, update_switch_rails, drive_state, drive_type, drive_id, drive, handle_op_drive_actuator,
  dispatch, handle, handle_message, handle_messages,
}
use locoloco.Pico.Actuators.Switches.{IsWired, ids-update_first}

id-ne-panic : (n : ℕ) → ActuatorId.try_from n ≢ panic
unfolding ActuatorId.try_from
id-ne-panic n = ground arith

kind-ne-panic : (n : ℕ) → ActuatorType.try_from n ≢ panic
unfolding ActuatorType.try_from
kind-ne-panic n = ground arith

state-ne-panic : (n : ℕ) → SwitchRailsState.try_from n ≢ panic
unfolding SwitchRailsState.try_from
state-ne-panic n = ground arith

module _ {S G : Type 0} (k : Socket S) (t : Traffic S) (network : IsSocket k t) (o : Output G)
    (level : G → Level) (lawful : IsOutput o level) where
  -- no panic, and the array keeps its ids
  drive_state_lem :
      (id : ActuatorId) (r : Result ProtocolTypes.Error SwitchRailsState) (a : Actuators G)
      → r ≢ panic
      → IsWired a
      → let out = drive_state o id r a in (out.0 ≢ panic) × IsWired out.1
  unfolding drive_state update_switch_rails
  drive_state_lem id (ok state) a h w =
      (λ p. cc, record { same = ids-update_first o level lawful id state a.switch_rails ∙ w.same })
  drive_state_lem id (err e) a h w = (λ p. cc, w)
  drive_state_lem id panic a h w = absurd (h refl)

  drive_type_lem :
      (id : ActuatorId) (r : Result ProtocolTypes.Error ActuatorType) (state : ℕ) (a : Actuators G)
      → r ≢ panic
      → IsWired a
      → let out = drive_type o id r state a in (out.0 ≢ panic) × IsWired out.1
  unfolding drive_type
  drive_type_lem id (ok switch_rails) state a h w =
      drive_state_lem id (SwitchRailsState.try_from state) a (state-ne-panic state) w
  drive_type_lem id (err e) state a h w = (λ p. cc, w)
  drive_type_lem id panic state a h w = absurd (h refl)

  drive_id_lem :
      (r : Result ProtocolTypes.Error ActuatorId) (kind state : ℕ) (a : Actuators G)
      → r ≢ panic
      → IsWired a
      → let out = drive_id o r kind state a in (out.0 ≢ panic) × IsWired out.1
  unfolding drive_id
  drive_id_lem (ok id) kind state a h w =
      drive_type_lem id (ActuatorType.try_from kind) state a (kind-ne-panic kind) w
  drive_id_lem (err e) kind state a h w = (λ p. cc, w)
  drive_id_lem panic kind state a h w = absurd (h refl)

  drive_lem :
      (p : Option DriveActuatorPayload) (a : Actuators G)
      → IsWired a
      → let out = drive o p a in (out.0 ≢ panic) × IsWired out.1
  unfolding drive
  drive_lem none a w = (λ p. cc, w)
  drive_lem (some p) a w =
      drive_id_lem (ActuatorId.try_from p.actuator_id) p.actuator_type p.actuator_state a
        (id-ne-panic p.actuator_id) w

  -- what a dispatched message does: no panic, the ids stay, and nothing is taken off the connection
  dispatch_lem :
      (op : Operation) (payload : List ℕ) (s : S) (a : Actuators G)
      → IsWired a
      → let out = dispatch k o op payload s a in
        (out.0 ≢ panic) × IsWired out.2 × (out.0 ≡ ok tt → out.1 ≡ s)
  unfolding dispatch handle_op_drive_actuator
  dispatch_lem ProtocolTypes.drive_actuator payload s a w =
      let (safe, kept) = drive_lem (k.drive_actuator_payload.decode_from_slice payload) a w in
      (safe, kept, λ p. refl)
  dispatch_lem _ payload s a w = (λ p. cc, w, λ p. absurd (cc))

  handle-IsRound :
      (r : Result Error (Operation × List ℕ)) (s s' : S) (a : Actuators G)
      → IsWired a
      → r ≢ panic
      → ((x : Operation × List ℕ) → r ≡ ok x → Takes 3 (t.incoming s) (t.incoming s'))
      → IsRound (handle_message k o) t IsWired s (handle k o r s' a)
  unfolding handle
  handle-IsRound (ok (op, payload)) s s' a w h taken =
      let (safe, kept, quiet) = dispatch_lem op payload s' a w in
      let (front, size, split) = taken (op, payload) refl in
      record {
        kept = kept;
        safe = safe;
        taken = λ p. (front, omega arith, split ∙ ap (λ z. front ++ t.incoming z) (sym (quiet p)));
      }
  handle-IsRound (err e) s s' a w h taken = record {
    kept = w;
    safe = λ p. cc;
    taken = λ p. absurd (cc);
  }
  handle-IsRound panic s s' a w h taken = absurd (h refl)

  handle_message-IsRound :
      (s : S) (a : Actuators G)
      → All IsByte (t.incoming s)
      → IsWired a
      → IsRound (handle_message k o) t IsWired s (handle_message k o s a)
  unfolding handle_message
  handle_message-IsRound s a bytes w =
      let (safe, taken) = receive-IsBounded k t network reasons s bytes in
      let (message, s') = receive reasons k s in handle-IsRound message s s' a w safe taken

  -- If the socket delivers bytes and behaves as documented, then with more fuel than bytes to come,
  -- `handle_messages` ends with an error, not with a panic, and the array has every switch once.
  pub handle_messages-IsWired :
      (fuel : ℕ) (s : S) (a : Actuators G)
      → length (t.incoming s) < fuel
      → All IsByte (t.incoming s)
      → IsWired a
      → IsEnded (handle_message k o) t IsWired (handle_messages k o fuel s a)
  unfolding handle_messages
  handle_messages-IsWired fuel s a h bytes w =
      loop-IsEnded (handle_message k o) t IsWired (λ s a. handle_message-IsRound s a) fuel s a h
        bytes w
