-- ===== src/Pico/Actuators/Replay.antt =====
-- The switches behind a stream of commands (actuators_pico/src/bin/actuators_pico.rs).
use locoloco.Common.{
  ℕ, ◌<◌, ◌≡◌, refl, ap, ◌∙◌, Option, some, List, [], ◌∷◌, ◌++◌, length, Result, err, ◌==◌,
  if◌then◌else◌, arith,
}
use locoloco.Protocol.Types.{ActuatorId, SwitchRailsState, actuator_id_eq}
use locoloco.Wire.{Traffic}
use locoloco.Pico.Socket.{Socket, IsSocket}
use locoloco.Pico.Receive.{receive}
use locoloco.Pico.Replay.{all_bytes, Chain, at_end, next, receive-nil, IsHandled, loop-IsReplayed}
use locoloco.Pico.Actuators.Types.{Error, Level, Output, IsOutput, Actuators}
use locoloco.Pico.Actuators.Messages.{reasons, level_of, handle, handle_message, handle_messages}
use locoloco.Pico.Actuators.Switches.{IsWired, level_at}
use locoloco.Pico.Actuators.Delivery.{drive_bytes, handle_message-IsSwitched}

-- A command for a switch.
abbrev pub Drive : Type 0
Drive = ActuatorId × SwitchRailsState

abbrev pub bytes_of : Drive → List ℕ
bytes_of (id, state) = drive_bytes id state

-- The level that the last command for a switch asks for, or the level before.
abbrev pub last_level : ActuatorId → List Drive → Option Level → Option Level
last_level j [] before = before
last_level j ((id, state) ∷ rest) before =
    last_level j rest (if id == j then some (level_of state) else before)

pub last_level-append :
    (j : ActuatorId) (xs ys : List Drive) (before : Option Level)
    → last_level j (xs ++ ys) before ≡ last_level j ys (last_level j xs before)
last_level-append j [] ys before = refl
last_level-append j ((id, state) ∷ xs) ys before = last_level-append j xs ys _

module _ {S G : Type 0} (k : Socket S) (t : Traffic S) (network : IsSocket k t) (o : Output G)
    (level : G → Level) (lawful : IsOutput o level) where
  -- what a command does
  record Switches (drive : Drive) (x y : S × Actuators G) : Type 0 where
    silent : t.sent y.0 ≡ t.sent x.0
    levels :
        (j : ActuatorId)
        → level_at level y.1.switch_rails j
          ≡ (if drive.0 == j then some (level_of drive.1) else level_at level x.1.switch_rails j)

  handled :
      (drive : Drive) (rest : List ℕ) (s : S) (a : Actuators G)
      → IsWired a
      → t.incoming s ≡ bytes_of drive ++ rest
      → IsHandled
          (handle_message k o)
          t
          bytes_of
          Switches
          IsWired
          drive
          rest
          s
          a
          (handle_message k o s a)
  handled (id, state) rest s a w e =
      let r = handle_message-IsSwitched k t network o level lawful id state rest s a w e in
      record {
        done = r.done;
        left = r.left;
        kept = r.wired;
        does = record { silent = r.silent; levels = r.levels };
      }

  closed :
      (s : S) (a : Actuators G)
      → t.incoming s ≡ []
      → (error : Error) × (s' : S) × (handle_message k o s a ≡ (err error, s', a))
  unfolding handle_message handle
  closed s a e =
      let failed = receive-nil reasons k t network s e in
      (reasons.tcp_read, (receive reasons k s).1, rw (failed, handle_message, handle) refl)

  levels-Chain :
      {ds : List Drive} {x y : S × Actuators G}
      → Chain Switches ds x y
      → (j : ActuatorId)
      → level_at level y.1.switch_rails j ≡ last_level j ds (level_at level x.1.switch_rails j)
  levels-Chain at_end j = refl
  levels-Chain (next {m = d} {ms = ds} one more) j =
      levels-Chain more j ∙ ap (last_level j ds) (one.levels j)

  -- The board came to the end of its connection, with each switch where it was driven last.
  pub record IsDriven (ds : List Drive) (a : Actuators G)
      (result : Option (Result Error (Unit {0}) × S × Actuators G)) : Type 0 where
    pub error : Error
    pub socket : S
    pub state : Actuators G
    pub ended : result ≡ some (err error, socket, state)
    pub levels :
        (j : ActuatorId)
        → level_at level state.switch_rails j ≡ last_level j ds (level_at level a.switch_rails j)

  -- Under the laws of `IsSocket` and `IsOutput`: when commands for switches arrive, in any order,
  -- at a board whose array has every switch once, and then the connection ends, `handle_messages`
  -- ends, with more fuel than bytes, and each switch has the level of the last command for it, or
  -- the level that it had if there was none.
  pub handle_messages-IsDriven :
      (ds : List Drive) (fuel : ℕ) (s : S) (a : Actuators G)
      → IsWired a
      → t.incoming s ≡ all_bytes bytes_of ds
      → length (all_bytes bytes_of ds) < fuel
      → IsDriven ds a (handle_messages k o fuel s a)
  unfolding handle_messages
  handle_messages-IsDriven ds fuel s a w e h =
      let r =
        loop-IsReplayed (handle_message k o) t bytes_of Switches IsWired handled closed
          (λ d. omega arith) ds fuel s a w e h in
      record {
        error = r.error;
        socket = r.socket;
        state = r.state;
        ended = r.ended;
        levels = levels-Chain r.chain;
      }
