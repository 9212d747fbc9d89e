-- ===== src/Pico/Actuators/Main.antt =====
-- One round of `main` of actuators_pico/src/bin/actuators_pico.rs: the connection, and the messages.
use locoloco.Common.{ℕ, ◌<◌, ◌≡◌, refl, ap, Option, none, some, List, [], length, All}
use locoloco.Wire.{Traffic}
use locoloco.Pico.Socket.{Socket, IsSocket}
use locoloco.Pico.Receive.Limits.{IsByte}
use locoloco.Pico.Loop.{behind}
use locoloco.Pico.Actuators.Types.{Level, Output, IsOutput, Actuators}
use locoloco.Pico.Actuators.Messages.{handle_messages}
use locoloco.Pico.Actuators.Switches.{IsWired}
use locoloco.Pico.Actuators.Termination.{handle_messages-IsWired}

module _ {S G : Type 0} (k : Socket S) (o : Output G) where
  -- The switches at the end of the round, with the socket if the controller was reached; `none` is the
  -- end of the fuel, or a panic.
  unfoldable pub session : ℕ → Option S → Actuators G → Option (Actuators G)
  unfolding handle_messages
  session fuel none a = some a
  session fuel (some socket) a = behind (handle_messages k o fuel socket a)

  module _ (t : Traffic S) (network : IsSocket k t) (level : G → Level)
      (lawful : IsOutput o level) where
    -- what the connection still delivers, if there is one
    abbrev pub incoming : Option S → List ℕ
    incoming none = []
    incoming (some socket) = t.incoming socket

    -- If the socket delivers bytes and behaves as documented, and the fuel is more than the bytes to
    -- come: a round of `main` ends, whether the controller is reached or not, and whatever arrives, and
    -- the array has every switch once.
    pub session-IsWired :
        (fuel : ℕ) (connection : Option S) (a : Actuators G)
        → length (incoming connection) < fuel
        → All IsByte (incoming connection)
        → IsWired a
        → (a' : Actuators G) × (session fuel connection a ≡ some a') × IsWired a'
    unfolding session
    session-IsWired fuel none a enough bytes w = (a, refl, w)
    session-IsWired fuel (some socket) a enough bytes w =
        let e = handle_messages-IsWired k t network o level lawful fuel socket a enough bytes w in
        (e.state, ap behind e.ended, e.kept)
