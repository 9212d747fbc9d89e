-- ===== src/Threads/Refinement.antt =====
-- The calls of the threads in any order, and what they see of the backend
-- (loco_controller/src/main.rs, loco_controller/src/backend.rs).
use locoloco.Common.{
  ℕ, ◌≡◌, refl, ap, ◌∙◌, true, none, some, List, [], ◌∷◌, Result, ok, err, panic, arith,
}
use locoloco.Protocol.Types.{LocoId, Direction, Speed, ActuatorId, ActuatorType, Operation, connect}
use locoloco.Wire.{Wire}
use locoloco.Backend.Types.{Error, off, auto, LocoInfo, Backend}
use locoloco.Backend.State.{Method, IsFull, set_oracle_mode, with_loco_info}
use locoloco.Backend.Frames.{
  check_header, control_loco_message, loco_status_message, drive_actuator_message,
}
use locoloco.Backend.Locos as Locos
use locoloco.Backend.Locos.{loco_of, send, query, handle_op_connect, dispatch_loco}
use locoloco.Backend.Actuators as Actuators
use locoloco.Backend.Actuators.{send_actuators}
use locoloco.Threads.Calls.{
  Call, handle_loco_connection, handle_actuators_connection, set_location, loco_status,
  control_loco, drive_actuator, loco_intent, oracle_mode, call, interleave, call-IsFull,
}
use locoloco.Threads.Views.{
  view, change, changes, view-with_loco_info, view-set_location, view-set_loco_intent,
}

-- On a backend with an entry for each loco the method leaves the view.
abbrev pub Keeps : {S A : Type 0} → Method S A → Type 0
Keeps {S} m = (b : Backend S) → IsFull b → view (m b).1 ≡ view b

module _ {S : Type 0} where
  -- a method that either fails, or goes on as one that keeps the view
  after-Keeps :
      {A B : Type 0} (r : Result Error A) (f : A → Method S B)
      → ((a : A) → Keeps (f a))
      → Keeps {S = S} {A = B}
          (λ b. elim r [ ok a ↦ f a b | err e ↦ (err e, b) | panic ↦ (panic, b) ])
  after-Keeps (ok a) f h b full = h a b full
  after-Keeps (err e) f h b full = refl
  after-Keeps panic f h b full = refl

  with_loco_info-Keeps :
      {A : Type 0} (id : LocoId) (action : LocoInfo S → Result Error A × LocoInfo S)
      → ((info : LocoInfo S) → (action info).1.location ≡ info.location)
      → ((info : LocoInfo S) → (action info).1.intent ≡ info.intent)
      → Keeps (with_loco_info id action)
  with_loco_info-Keeps id action l i b full = view-with_loco_info id b full action l i

module _ {S : Type 0} (w : Wire S) where
  location-send :
      (id : LocoId) (m : List ℕ) (info : LocoInfo S) → (send w id m info).1.location ≡ info.location
  unfolding send
  location-send id m info = ground arith

  intent-send :
      (id : LocoId) (m : List ℕ) (info : LocoInfo S) → (send w id m info).1.intent ≡ info.intent
  unfolding send
  intent-send id m info = ground arith

  location-query :
      (id : LocoId) (m : List ℕ) (info : LocoInfo S)
      → (query w id m info).1.location ≡ info.location
  unfolding query
  location-query id m info = ground arith

  intent-query :
      (id : LocoId) (m : List ℕ) (info : LocoInfo S) → (query w id m info).1.intent ≡ info.intent
  unfolding query
  intent-query id m info = ground arith

  control_loco-Keeps :
      (id : LocoId) (d : Direction) (s : Speed) → Keeps (Locos.control_loco w id d s)
  unfolding Locos.control_loco
  control_loco-Keeps id d s =
      after-Keeps (control_loco_message w d s) (λ m. with_loco_info id (send w id m))
        (λ m. with_loco_info-Keeps id (send w id m) (location-send id m) (intent-send id m))

  pub loco_status-Keeps : (id : LocoId) → Keeps (Locos.loco_status w id)
  unfolding Locos.loco_status
  loco_status-Keeps id =
      after-Keeps (loco_status_message w) (λ m. with_loco_info id (query w id m))
        (λ m. with_loco_info-Keeps id (query w id m) (location-query id m) (intent-query id m))

  send_actuators-Keeps : (m : List ℕ) → Keeps (send_actuators w m)
  unfolding send_actuators
  send_actuators-Keeps m b full =
      elim b.actuator_info.stream
        as (λ s.
          view (send_actuators w m (record b { actuator_info = record { stream = s } })).1
          ≡ view b) [ none ↦ refl | some stream ↦ refl ]

  drive_actuator-Keeps :
      (i : ActuatorId) (t : ActuatorType) (n : ℕ) → Keeps (Actuators.drive_actuator w i t n)
  unfolding Actuators.drive_actuator
  drive_actuator-Keeps i t n =
      after-Keeps (drive_actuator_message w i t n) (send_actuators w) send_actuators-Keeps

  handle_op_connect-Keeps : (stream : S) → Keeps (handle_op_connect w stream)
  unfolding handle_op_connect
  handle_op_connect-Keeps stream =
      let (payload, stream') = w.connect_payload.decode_from_std_read stream in
      after-Keeps (loco_of payload)
        (λ id. with_loco_info id (λ info. (ok tt, record info { stream = some stream' })))
        (λ id. with_loco_info-Keeps id _ (λ info. refl) (λ info. refl))

  dispatch_loco-Keeps : (op : Operation) (stream : S) → Keeps (dispatch_loco w op stream)
  unfolding dispatch_loco
  dispatch_loco-Keeps connect stream = handle_op_connect-Keeps stream
  dispatch_loco-Keeps _ stream = λ b full. refl

  handle_loco_connection-Keeps : (stream : S) → Keeps (Locos.handle_loco_connection w stream)
  unfolding Locos.handle_loco_connection
  handle_loco_connection-Keeps stream =
      let (header, stream') = w.header.decode_from_std_read stream in
      after-Keeps (check_header header) (λ op. dispatch_loco w op stream')
        (λ op. dispatch_loco-Keeps op stream')

  -- each call
  pub view-call : (c : Call S) (b : Backend S) → IsFull b → view (call w c b).1 ≡ change c (view b)
  unfolding call Actuators.handle_actuators_connection set_oracle_mode
  view-call (handle_loco_connection stream) b full = handle_loco_connection-Keeps stream b full
  view-call (handle_actuators_connection stream) b full = refl
  view-call (set_location id sensor) b full = view-set_location id b full sensor
  view-call (loco_status id) b full = loco_status-Keeps id b full
  view-call (control_loco id d s) b full = control_loco-Keeps id d s b full
  view-call (drive_actuator id kind state) b full = drive_actuator-Keeps id kind state b full
  view-call (loco_intent id intent) b full = view-set_loco_intent id b full intent
  view-call (oracle_mode off) b full = refl
  view-call (oracle_mode auto) b full = refl

  -- The calls of the threads in any order, from a backend with an entry for each loco, whatever the
  -- connections do: none panics, the backend that they leave has an entry for each loco, and where
  -- each loco is, where it is to go, and whether the oracle is on are what the reports, the intents
  -- and the modes among the calls make of it, one after the other; no other call touches these.
  pub view-interleave :
      (calls : List (Call S)) (b : Backend S)
      → IsFull b
      → ((interleave w calls b).0 ≡ true)
        × IsFull (interleave w calls b).1
        × (view (interleave w calls b).1 ≡ changes calls (view b))
  unfolding interleave
  view-interleave [] b full = (refl, full, refl)
  view-interleave (c ∷ calls) b full =
      let (full', fine) = call-IsFull w c b full in
      let (fine', full'', same) = view-interleave calls (call w c b).1 full' in
      (ground arith, full'', same ∙ ap (changes calls) (view-call c b full))
