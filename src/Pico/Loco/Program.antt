-- ===== src/Pico/Loco/Program.antt =====
-- `main` of loco_pico/src/bin/loco_pico.rs, through a list of connections.
use locoloco.Common.{ℕ, ◌<◌, Option, none, some, List, [], ◌∷◌, length, Result, ok, err, panic, All}
use locoloco.Wire.{Traffic}
use locoloco.Pico.Socket.{Socket, IsSocket}
use locoloco.Pico.Receive.Limits.{IsByte}
use locoloco.Pico.Loco.Types.{Error, PwmOutput, IsPwmOutput, PwmController, Loco}
use locoloco.Pico.Loco.Motor as Motor
use locoloco.Pico.Loco.Messages.{new}
use locoloco.Pico.Loco.Delivery.{IsWorking}
use locoloco.Pico.Loco.Main.{session, incoming}

module _ {S P : Type 0} (k : Socket S) (o : PwmOutput P) where
  -- The loop: each round with its fuel, and its socket if the controller was reached.
  unfoldable pub sessions : List (ℕ × Option S) → Loco P → Option (Loco P)
  unfolding session
  sessions [] loco = some loco
  sessions ((fuel, connection) ∷ rest) loco = elim (session k o fuel connection loco) [
    | none ↦ none
    | some loco' ↦ sessions rest loco'
  ]

  -- with the outputs, or the error that `unwrap` panics on
  unfoldable pub start : Result Error (PwmController P) → List (ℕ × Option S) → Option (Loco P)
  unfolding new sessions
  start (ok pwm_ctrl) connections = sessions connections (new pwm_ctrl)
  start (err e) connections = none
  start panic connections = none

  -- on the two outputs of the pins
  unfoldable pub main : P → P → List (ℕ × Option S) → Option (Loco P)
  unfolding Motor.new start
  main pwm_forward pwm_backward connections =
      start (Motor.new o pwm_forward pwm_backward) connections

module _ {S P : Type 0} (k : Socket S) (o : PwmOutput P) (t : Traffic S) (network : IsSocket k t)
    (duty : P → ℕ) (lawful : IsPwmOutput o duty) (working : IsWorking o) where
  -- A connection delivers bytes, fewer than the fuel of its round.
  abbrev pub IsFueled : ℕ × Option S → Type 0
  IsFueled (fuel, connection) =
      let bytes = incoming k o t network duty lawful working connection in
      (length bytes < fuel) × All IsByte bytes
