-- ===== src/Backend/Totality.antt =====
-- Panics of the backend's operations, and the entries of the locos
-- (loco_controller/src/backend.rs).
pub mod Sensors
use locoloco.Common.{
  ℕ, zero, suc, ◌≡◌, ◌≢◌, refl, sym, ap, Bool, true, false, Option, none, some, List, [], ◌∷◌, ◌∙◌,
  Result, ok, err, panic, map_err, ◌>>=◌, get, insert, get-insert, Option-cases, Bool-cases, inl,
  inr, arith,
}
use locoloco.Protocol.Types.{
  LocoId, SensorId, loco1, loco2, loco_id_eq, Direction, Speed, ActuatorId, ActuatorType, Operation,
  connect, sensors_status, ConnectPayload, LocoStatusResponse, Header, SensorStatus,
}
use locoloco.Protocol.LocoId
use locoloco.Wire.{Wire}
use locoloco.Backend.Types.{decode_from_stream, Error, LocoInfo, Backend, LocoIntent, LocoStatus}
use locoloco.Backend.State.{Method, with_loco_info, IsFull, new, set_loco_intent}
use locoloco.Backend.Frames.{
  check_header, retrieve_header_op, header_for, control_loco_message, loco_status_message,
  drive_actuator_message,
}
use locoloco.Backend.Locos.{
  loco_of, status_of, handle_op_connect, dispatch_loco, handle_loco_connection, send, control_loco,
  query, loco_status,
}
use locoloco.Backend.Actuators.{handle_actuators_connection, send_actuators, drive_actuator}
use locoloco.Backend.Sensors.{
  sighting, set_location, read_reports, handle_op_sensors_status, dispatch_sensors, serve_round,
}

-- On a backend with an entry for each loco the method does not panic, and leaves such a backend.
abbrev pub IsTotal : {S A : Type 0} → Method S A → Type 0
IsTotal {S} m = (b : Backend S) → IsFull b → IsFull (m b).1 × ((m b).0 ≢ panic)

module _ {S : Type 0} where
  pub new-IsFull : IsFull (new {S = S})
  unfolding new get
  new-IsFull loco1 = (_, refl)
  new-IsFull loco2 = (_, refl)

  pub with_loco_info_lem :
      {A : Type 0} (id : LocoId) (action : LocoInfo S → Result Error A × LocoInfo S) (b : Backend S)
      (info : LocoInfo S)
      → get b.loco_info id ≡ some info
      → with_loco_info id action b
        ≡ ((action info).0, record b { loco_info = insert id (action info).1 b.loco_info })
  unfolding with_loco_info
  with_loco_info_lem id action b info e = rw (e, with_loco_info)

  IsFull-insert :
      (b : Backend S) (id : LocoId) (info : LocoInfo S)
      → IsFull b
      → IsFull (record b { loco_info = insert id info b.loco_info })
  IsFull-insert b id info full other =
      let (old, e) = full other in
      elim (Bool-cases (loco_id_eq.beq id other)) [
        | inl same ↦ (info, get-insert id other info b.loco_info ∙ rw same)
        | inr differ ↦ (old, get-insert id other info b.loco_info ∙ rw differ e)
      ]

  pub with_loco_info-IsTotal :
      {A : Type 0} (id : LocoId) (action : LocoInfo S → Result Error A × LocoInfo S)
      → ((info : LocoInfo S) → (action info).0 ≢ panic)
      → IsTotal (with_loco_info id action)
  with_loco_info-IsTotal id action h b full =
      let (info, e) = full id in
      rw (with_loco_info_lem id action b info e) (IsFull-insert b id (action info).1 full, h info)

  -- a method that either fails with an error, or goes on as a total method does
  after-IsTotal :
      {A B : Type 0} (r : Result Error A) (f : A → Method S B)
      → r ≢ panic
      → ((a : A) → IsTotal (f a))
      → IsTotal {S = S} {A = B}
          (λ b. elim r [ ok a ↦ f a b | err e ↦ (err e, b) | panic ↦ (panic, b) ])
  after-IsTotal (ok a) f h t b full = t a b full
  after-IsTotal (err e) f h t b full = (full, λ p. cc)
  after-IsTotal panic f h t b full = absurd (h refl)

pub check_header-ne-panic : (h : Option Header) → check_header h ≢ panic
unfolding check_header
check_header-ne-panic h = ground arith

loco_of-ne-panic : (p : Option ConnectPayload) → loco_of p ≢ panic
unfolding LocoId.try_from
loco_of-ne-panic p = ground arith

status_of-ne-panic :
    {S : Type 0} (info : LocoInfo S) (r : Option LocoStatusResponse) → status_of info r ≢ panic
unfolding status_of
status_of-ne-panic info r = ground arith

module _ {S : Type 0} (w : Wire S) where
  control_loco_message-ne-panic : (d : Direction) (s : Speed) → control_loco_message w d s ≢ panic
  unfolding control_loco_message
  control_loco_message-ne-panic d s = ground arith

  drive_actuator_message-ne-panic :
      (i : ActuatorId) (t : ActuatorType) (n : ℕ) → drive_actuator_message w i t n ≢ panic
  unfolding drive_actuator_message
  drive_actuator_message-ne-panic i t n = ground arith

  loco_status_message-ne-panic : loco_status_message w ≢ panic
  unfolding loco_status_message
  loco_status_message-ne-panic = ground arith

  send-ne-panic : (id : LocoId) (m : List ℕ) (info : LocoInfo S) → (send w id m info).0 ≢ panic
  unfolding send
  send-ne-panic id m info = ground arith

  query-ne-panic : (id : LocoId) (m : List ℕ) (info : LocoInfo S) → (query w id m info).0 ≢ panic
  unfolding query
  query-ne-panic id m info = ground arith

  loco_info-send_actuators :
      (m : List ℕ) (b : Backend S) → (send_actuators w m b).1.loco_info ≡ b.loco_info
  unfolding send_actuators
  loco_info-send_actuators m b = ground arith

  send_actuators-ne-panic : (m : List ℕ) (b : Backend S) → (send_actuators w m b).0 ≢ panic
  unfolding send_actuators
  send_actuators-ne-panic m b = ground arith

  send_actuators-IsTotal : (m : List ℕ) → IsTotal (send_actuators w m)
  send_actuators-IsTotal m b full = (
    λ id. let (info, e) = full id in (info, rw (loco_info-send_actuators m b) e),
    send_actuators-ne-panic m b,
  )

  -- `control_loco` and `loco_status` do not panic, and keep an entry for each loco.
  pub control_loco-IsTotal :
      (id : LocoId) (d : Direction) (s : Speed) → IsTotal (control_loco w id d s)
  unfolding control_loco
  control_loco-IsTotal id d s =
      after-IsTotal (control_loco_message w d s) (λ m. with_loco_info id (send w id m))
        (control_loco_message-ne-panic d s)
        (λ m. with_loco_info-IsTotal id (send w id m) (send-ne-panic id m))

  pub loco_status-IsTotal : (id : LocoId) → IsTotal (loco_status w id)
  unfolding loco_status
  loco_status-IsTotal id =
      after-IsTotal (loco_status_message w) (λ m. with_loco_info id (query w id m))
        loco_status_message-ne-panic
        (λ m. with_loco_info-IsTotal id (query w id m) (query-ne-panic id m))

  pub drive_actuator-IsTotal :
      (i : ActuatorId) (t : ActuatorType) (n : ℕ) → IsTotal (drive_actuator w i t n)
  unfolding drive_actuator
  drive_actuator-IsTotal i t n =
      after-IsTotal (drive_actuator_message w i t n) (send_actuators w)
        (drive_actuator_message-ne-panic i t n) send_actuators-IsTotal

  handle_op_connect-IsTotal : (stream : S) → IsTotal (handle_op_connect w stream)
  unfolding handle_op_connect
  handle_op_connect-IsTotal stream =
      let (payload, stream') = w.connect_payload.decode_from_std_read stream in
      after-IsTotal (loco_of payload)
        (λ id. with_loco_info id (λ info. (ok tt, record info { stream = some stream' })))
        (loco_of-ne-panic payload) (λ id. with_loco_info-IsTotal id _ (λ info p. cc))

  dispatch_loco-IsTotal : (op : Operation) (stream : S) → IsTotal (dispatch_loco w op stream)
  unfolding dispatch_loco
  dispatch_loco-IsTotal connect stream = handle_op_connect-IsTotal stream
  dispatch_loco-IsTotal _ stream = λ b full. (full, λ p. cc)

  -- A new connection of a loco does not panic, and keeps an entry for each loco.
  pub handle_loco_connection-IsTotal : (stream : S) → IsTotal (handle_loco_connection w stream)
  unfolding handle_loco_connection
  handle_loco_connection-IsTotal stream =
      let (header, stream') = w.header.decode_from_std_read stream in
      after-IsTotal (check_header header) (λ op. dispatch_loco w op stream')
        (check_header-ne-panic header) (λ op. dispatch_loco-IsTotal op stream')

  -- If the backend has an entry for each loco, a new connection of a loco does not panic, whatever
  -- the stream delivers, and leaves an entry for each loco.
  pub handle_loco_connection_total :
      (stream : S) (b : Backend S)
      → IsFull b
      → IsFull (handle_loco_connection w stream b).1
        × ((handle_loco_connection w stream b).0 ≢ panic)
  handle_loco_connection_total stream b full = handle_loco_connection-IsTotal stream b full
