-- ===== src/Threads/Entries.antt =====
-- The calls of the threads and the entries of the locos (loco_controller/src/main.rs,
-- loco_controller/src/backend.rs).
use locoloco.Common.{
  ℕ, ◌≡◌, refl, ◌∙◌, some, List, [], ◌∷◌, Option-cases, inl, inr, keys-insert, get, Result, ok, err,
  panic, arith,
}
use locoloco.Protocol.Types.{LocoId, loco_id_eq, Operation, connect}
use locoloco.Wire.{Wire}
use locoloco.Backend.Types.{Error, off, auto, LocoInfo, Backend}
use locoloco.Backend.State.{Method, loco_ids, set_oracle_mode, set_loco_intent, with_loco_info}
use locoloco.Backend.Frames.{
  check_header, control_loco_message, loco_status_message, drive_actuator_message,
}
use locoloco.Backend.Locos as Locos
use locoloco.Backend.Locos.{loco_of, send, query, handle_op_connect, dispatch_loco}
use locoloco.Backend.Actuators as Actuators
use locoloco.Backend.Actuators.{send_actuators}
use locoloco.Backend.Sensors as Sensors
use locoloco.Threads.Calls.{
  Call, handle_loco_connection, handle_actuators_connection, set_location, loco_status,
  control_loco, drive_actuator, loco_intent, oracle_mode, call, interleave,
}

-- The method adds no entry, and moves none.
abbrev Keeps : {S A : Type 0} → Method S A → Type 0
Keeps {S} m = (b : Backend S) → loco_ids (m b).1 ≡ loco_ids b

module _ {S : Type 0} where
  after-Keeps :
      {A B : Type 0} (r : Result Error A) (f : A → Method S B)
      → ((a : A) → Keeps (f a))
      → Keeps {S = S} {A = B}
          (λ b. elim r [ ok a ↦ f a b | err e ↦ (err e, b) | panic ↦ (panic, b) ])
  after-Keeps (ok a) f h b = h a b
  after-Keeps (err e) f h b = refl
  after-Keeps panic f h b = refl

  with_loco_info-Keeps :
      {A : Type 0} (id : LocoId) (action : LocoInfo S → Result Error A × LocoInfo S)
      → Keeps (with_loco_info id action)
  unfolding with_loco_info loco_ids
  with_loco_info-Keeps id action b = elim (Option-cases (get b.loco_info id)) [
    | inl e ↦ rw (e, with_loco_info) refl
    | inr (info, e) ↦ rw (e, with_loco_info) (keys-insert id (action info).1 info b.loco_info e)
  ]

module _ {S : Type 0} (w : Wire S) where
  send_actuators-Keeps : (m : List ℕ) → Keeps (send_actuators w m)
  unfolding send_actuators loco_ids
  send_actuators-Keeps m b = ground arith

  dispatch_loco-Keeps : (op : Operation) (stream : S) → Keeps (dispatch_loco w op stream)
  unfolding dispatch_loco handle_op_connect
  dispatch_loco-Keeps connect stream =
      let (payload, stream') = w.connect_payload.decode_from_std_read stream in
      after-Keeps (loco_of payload)
        (λ id. with_loco_info id (λ info. (ok tt, record info { stream = some stream' })))
        (λ id. with_loco_info-Keeps id _)
  dispatch_loco-Keeps _ stream = λ b. refl

  loco_ids-call : (c : Call S) (b : Backend S) → loco_ids (call w c b).1 ≡ loco_ids b
  unfolding call Actuators.handle_actuators_connection set_oracle_mode loco_ids set_loco_intent
      Sensors.set_location Actuators.drive_actuator Locos.handle_loco_connection Locos.loco_status
      Locos.control_loco
  loco_ids-call (handle_loco_connection stream) b =
      let (header, stream') = w.header.decode_from_std_read stream in
      after-Keeps (check_header header) (λ op. dispatch_loco w op stream')
        (λ op. dispatch_loco-Keeps op stream') b
  loco_ids-call (handle_actuators_connection stream) b = refl
  loco_ids-call (set_location id sensor) b = with_loco_info-Keeps id _ b
  loco_ids-call (loco_status id) b =
      after-Keeps (loco_status_message w) (λ m. with_loco_info id (query w id m))
        (λ m. with_loco_info-Keeps id (query w id m)) b
  loco_ids-call (control_loco id d s) b =
      after-Keeps (control_loco_message w d s) (λ m. with_loco_info id (send w id m))
        (λ m. with_loco_info-Keeps id (send w id m)) b
  loco_ids-call (drive_actuator id kind state) b =
      after-Keeps (drive_actuator_message w id kind state) (send_actuators w) send_actuators-Keeps b
  loco_ids-call (loco_intent id intent) b = with_loco_info-Keeps id _ b
  loco_ids-call (oracle_mode off) b = refl
  loco_ids-call (oracle_mode auto) b = refl

  -- The calls add no entry and move none.
  pub loco_ids-interleave :
      (calls : List (Call S)) (b : Backend S) → loco_ids (interleave w calls b).1 ≡ loco_ids b
  unfolding interleave
  loco_ids-interleave [] b = refl
  loco_ids-interleave (c ∷ calls) b = loco_ids-interleave calls (call w c b).1 ∙ loco_ids-call c b
