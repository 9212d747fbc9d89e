-- ===== src/Threads/Calls.antt =====
-- The calls of the controller's threads on the backend that they share
-- (loco_controller/src/main.rs, loco_controller/src/backend.rs).
use locoloco.Common.{
  ℕ, ◌≡◌, ◌≢◌, refl, Bool, true, false, ◌&&◌, List, [], ◌∷◌, Result, ok, err, panic,
}
use locoloco.Protocol.Types.{LocoId, SensorId, Direction, Speed, ActuatorId, ActuatorType}
use locoloco.Wire.{Wire}
use locoloco.Backend.Types.{Error, OracleMode, off, auto, LocoIntent, Backend}
use locoloco.Backend.State.{Method, IsFull, set_loco_intent, set_oracle_mode}
use locoloco.Backend.Locos as Locos
use locoloco.Backend.Actuators as Actuators
use locoloco.Backend.Sensors as Sensors
use locoloco.Backend.Totality.{
  control_loco-IsTotal, loco_status-IsTotal, drive_actuator-IsTotal, handle_loco_connection-IsTotal,
  with_loco_info-IsTotal, IsTotal,
}

-- One call: a section of a thread on the state that a mutex guards. The reports of the sensors come
-- one by one, since `handle_op_sensors_status` takes the mutex for each of them.
pub data Call (S : Type 0) : Type 0 where
  handle_loco_connection handle_actuators_connection : S → Call S
  set_location : LocoId → SensorId → Call S
  loco_status : LocoId → Call S
  control_loco : LocoId → Direction → Speed → Call S
  drive_actuator : ActuatorId → ActuatorType → ℕ → Call S
  loco_intent : LocoId → LocoIntent → Call S
  oracle_mode : OracleMode → Call S

-- It did not panic.
abbrev pub returns : {E A : Type 0} → Result E A → Bool
returns (ok _) = true
returns (err _) = true
returns panic = false

pub returns-eq : {E A : Type 0} (r : Result E A) → r ≢ panic → returns r ≡ true
returns-eq (ok a) h = refl
returns-eq (err e) h = refl
returns-eq panic h = absurd (h refl)

abbrev settled : {S A : Type 0} → Result Error A × Backend S → Bool × Backend S
settled (r, b) = (returns r, b)

module _ {S : Type 0} (w : Wire S) where
  unfoldable pub call : Call S → Backend S → Bool × Backend S
  unfolding set_loco_intent set_oracle_mode Locos.handle_loco_connection Locos.loco_status
      Locos.control_loco Actuators.handle_actuators_connection Actuators.drive_actuator
      Sensors.set_location
  call (handle_loco_connection stream) b = settled (Locos.handle_loco_connection w stream b)
  call (handle_actuators_connection stream) b =
      settled (Actuators.handle_actuators_connection stream b)
  call (set_location id sensor) b = settled (Sensors.set_location id sensor b)
  call (loco_status id) b = settled (Locos.loco_status w id b)
  call (control_loco id direction speed) b = settled (Locos.control_loco w id direction speed b)
  call (drive_actuator id kind state) b = settled (Actuators.drive_actuator w id kind state b)
  call (loco_intent id intent) b = settled (set_loco_intent id intent b)
  call (oracle_mode mode) b = (true, set_oracle_mode mode b)

  -- The calls in the order in which the mutexes let them in; the flag tells that none panicked.
  unfoldable pub interleave : List (Call S) → Backend S → Bool × Backend S
  unfolding call
  interleave [] b = (true, b)
  interleave (c ∷ calls) b =
      let (fine, b') = call c b in let (fine', b'') = interleave calls b' in (fine && fine', b'')

  -- of a method that is total
  settled-IsFull :
      {A : Type 0} (m : Method S A)
      → IsTotal m
      → (b : Backend S) → IsFull b
      → IsFull (settled (m b)).1 × ((settled (m b)).0 ≡ true)
  settled-IsFull m total b full = let (full', h) = total b full in (full', returns-eq (m b).0 h)

  -- A call on a backend with an entry for each loco does not panic, and leaves such a backend.
  pub call-IsFull :
      (c : Call S) (b : Backend S) → IsFull b → IsFull (call c b).1 × ((call c b).0 ≡ true)
  unfolding call Actuators.handle_actuators_connection set_loco_intent set_oracle_mode
      Sensors.set_location
  call-IsFull (handle_loco_connection stream) b full =
      settled-IsFull (Locos.handle_loco_connection w stream)
        (handle_loco_connection-IsTotal w stream) b full
  call-IsFull (handle_actuators_connection stream) b full = (full, refl)
  call-IsFull (set_location id sensor) b full =
      settled-IsFull (Sensors.set_location id sensor) (with_loco_info-IsTotal id _ (λ info p. cc)) b
        full
  call-IsFull (loco_status id) b full =
      settled-IsFull (Locos.loco_status w id) (loco_status-IsTotal w id) b full
  call-IsFull (control_loco id d s) b full =
      settled-IsFull (Locos.control_loco w id d s) (control_loco-IsTotal w id d s) b full
  call-IsFull (drive_actuator id kind state) b full =
      settled-IsFull (Actuators.drive_actuator w id kind state)
        (drive_actuator-IsTotal w id kind state) b full
  call-IsFull (loco_intent id intent) b full =
      settled-IsFull (set_loco_intent id intent) (with_loco_info-IsTotal id _ (λ info p. cc)) b full
  call-IsFull (oracle_mode off) b full = (full, refl)
  call-IsFull (oracle_mode auto) b full = (full, refl)
