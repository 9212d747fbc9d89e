-- ===== src/Pico/Actuators/Program.antt =====
-- `main` of actuators_pico/src/bin/actuators_pico.rs, through a list of connections.
use locoloco.Common.{ℕ, ◌<◌, ◌≡◌, refl, Option, none, some, List, [], ◌∷◌, length, All}
use locoloco.Wire.{Traffic}
use locoloco.Pico.Socket.{Socket, IsSocket}
use locoloco.Pico.Receive.Limits.{IsByte}
use locoloco.Pico.Actuators.Types.{Level, Output, IsOutput, Actuators}
use locoloco.Pico.Actuators.Switches.{wired, IsWired, wired-IsWired}
use locoloco.Pico.Actuators.Main.{session, incoming, session-IsWired}

-- The eight outputs of the pins.
pub record Pins (G : Type 0) : Type 0 where
  pub pin2 : G
  pub pin3 : G
  pub pin4 : G
  pub pin5 : G
  pub pin6 : G
  pub pin7 : G
  pub pin8 : G
  pub pin9 : G

module _ {S G : Type 0} (k : Socket S) (o : Output G) where
  -- The loop: each round with its fuel, and its socket if the controller was reached.
  unfoldable pub sessions : List (ℕ × Option S) → Actuators G → Option (Actuators G)
  unfolding session
  sessions [] a = some a
  sessions ((fuel, connection) ∷ rest) a = elim (session k o fuel connection a) [
    | none ↦ none
    | some a' ↦ sessions rest a'
  ]

  -- on outputs that are low
  unfoldable pub main : Pins G → List (ℕ × Option S) → Option (Actuators G)
  unfolding sessions wired
  main p connections =
      sessions connections (wired p.pin2 p.pin3 p.pin4 p.pin5 p.pin6 p.pin7 p.pin8 p.pin9)

module _ {S G : Type 0} (k : Socket S) (o : Output G) (t : Traffic S) (network : IsSocket k t)
    (level : G → Level) (lawful : IsOutput o level) where
  -- A connection delivers bytes, fewer than the fuel of its round.
  abbrev pub IsFueled : ℕ × Option S → Type 0
  IsFueled (fuel, connection) =
      let bytes = incoming k o t network level lawful connection in
      (length bytes < fuel) × All IsByte bytes

  sessions-IsWired :
      (connections : List (ℕ × Option S)) (a : Actuators G)
      → All IsFueled connections
      → IsWired a
      → (a' : Actuators G) × (sessions k o connections a ≡ some a') × IsWired a'
  unfolding sessions
  sessions-IsWired [] a fueled w = (a, refl, w)
  sessions-IsWired ((fuel, connection) ∷ rest) a fueled w =
      let (enough, bytes) = fueled.0 in
      let (a', ended, w') =
        session-IsWired k o t network level lawful fuel connection a enough bytes w in
      let (a'', over, w'') = sessions-IsWired rest a' fueled.1 w' in
      (a'', rw (ended, sessions) over, w'')

  -- If the socket delivers bytes and behaves as documented, and so do the outputs, `main` of the
  -- actuators gets through any list of rounds, whether the controller is reached in a round or not,
  -- and whatever arrives, if each round has more fuel than bytes to come; the array then has every
  -- switch once.
  pub main-IsWired :
      (p : Pins G) (connections : List (ℕ × Option S))
      → All IsFueled connections
      → (a : Actuators G) × (main k o p connections ≡ some a) × IsWired a
  unfolding main
  main-IsWired p connections fueled =
      sessions-IsWired connections (wired p.pin2 p.pin3 p.pin4 p.pin5 p.pin6 p.pin7 p.pin8 p.pin9)
        fueled (wired-IsWired p.pin2 p.pin3 p.pin4 p.pin5 p.pin6 p.pin7 p.pin8 p.pin9)
