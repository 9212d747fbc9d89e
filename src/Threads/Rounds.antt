-- ===== src/Threads/Rounds.antt =====
-- The rounds of the controller's threads as calls on the backend (loco_controller/src/main.rs).
use locoloco.Common.{
  ◌≡◌, refl, ap, ◌∙◌, List, [], ◌∷◌, ◌++◌, Result, ok, err, panic, All, All-append, Bool-cases, inl,
  inr, ◌>>=◌,
}
use locoloco.Protocol.Types.{LocoId}
use locoloco.Wire.{Wire}
use locoloco.Backend.Types as BackendTypes
use locoloco.Backend.Types.{Backend, LocoStatus, loco_not_connected}
use locoloco.Backend.State.{loco_ids}
use locoloco.Backend.Locos as Locos
use locoloco.Backend.Actuators as Actuators
use locoloco.Oracle.Types.{
  Error, Oracle, ActiveLoco, ActiveSegment, ActuatorControl, LocoControl, control_loco,
  drive_actuator,
}
use locoloco.Oracle.Order.{sort_active_segments}
use locoloco.Oracle.Controls.{determine_controls}
use locoloco.Oracle.Segments.{determine_active_segments_from}
use locoloco.Oracle.Process.{
  heard, go_on, ask, active_locos, drive_all, control_each, apply_controls, act_on,
  determine_active_segments, process,
}
use locoloco.Threads.Calls.{Call, call, interleave}
use locoloco.Threads.Calls as Calls

-- A question or a command of the oracle.
abbrev pub IsCommand : {S : Type 0} → Call S → Type 0
IsCommand (Calls.loco_status id) = Unit
IsCommand (Calls.control_loco id d s) = Unit
IsCommand (Calls.drive_actuator id kind state) = Unit
IsCommand _ = ⊥

-- A report of the sensors.
abbrev pub IsReport : {S : Type 0} → Call S → Type 0
IsReport (Calls.set_location id sensor) = Unit
IsReport _ = ⊥

module _ {S : Type 0} (w : Wire S) where
  -- The second backend is what a sequence of such calls makes of the first.
  pub record AreCalls (P : Call S → Type 0) (b b' : Backend S) : Type 0 where
    pub calls : List (Call S)
    pub each : All P calls
    pub left : (interleave w calls b).1 ≡ b'

  pub interleave-append :
      (xs ys : List (Call S)) (b : Backend S)
      → (interleave w (xs ++ ys) b).1 ≡ (interleave w ys (interleave w xs b).1).1
  unfolding interleave
  interleave-append [] ys b = refl
  interleave-append (x ∷ xs) ys b = interleave-append xs ys (call w x b).1

  module _ {P : Call S → Type 0} where
    pub AreCalls-none : (b : Backend S) → AreCalls P b b
    AreCalls-none b = unfold interleave in record { calls = []; each = tt; left = refl }

    pub AreCalls-append : {a b c : Backend S} → AreCalls P a b → AreCalls P b c → AreCalls P a c
    AreCalls-append {a} u v = record {
      calls = u.calls ++ v.calls;
      each = All-append P u.calls v.calls u.each v.each;
      left =
          interleave-append u.calls v.calls a
          ∙ ap (λ z. (interleave w v.calls z).1) u.left
          ∙ v.left;
    }

    pub AreCalls-one : (c : Call S) → P c → (b : Backend S) → AreCalls P b (call w c b).1
    AreCalls-one c h b = unfold interleave in record { calls = c ∷ []; each = (h, tt); left = refl }

  -- one call, and what follows it
  status-AreCalls :
      (id : LocoId) (b : Backend S) → AreCalls IsCommand b (Locos.loco_status w id b).1
  status-AreCalls id b = unfold call in AreCalls-one (Calls.loco_status id) tt b

  control-AreCalls :
      (c : LocoControl) (b : Backend S)
      → AreCalls IsCommand b (Locos.control_loco w c.0 c.1 c.2 b).1
  control-AreCalls (id, d, s) b = unfold call in AreCalls-one (Calls.control_loco id d s) tt b

  drive-AreCalls :
      (c : ActuatorControl) (b : Backend S)
      → AreCalls IsCommand b (Actuators.drive_actuator w c.0 c.1 c.2 b).1
  drive-AreCalls (id, kind, state) b =
      unfold call in AreCalls-one (Calls.drive_actuator id kind state) tt b

  -- an operation of the oracle on the backend that only asks and commands
  abbrev Commands : {A : Type 0} → (Backend S → Result Error A × Backend S) → Type 0
  Commands f = (b : Backend S) → AreCalls IsCommand b (f b).1

  heard-Commands :
      (id : LocoId) (next : Backend S → Result Error (List ActiveLoco) × Backend S)
      → Commands next
      → (status : Result BackendTypes.Error LocoStatus) → Commands (heard id next status)
  unfolding heard
  heard-Commands id next h (ok s) b = h b
  heard-Commands id next h (err (loco_not_connected _)) b = h b
  heard-Commands id next h (err e) b = AreCalls-none b
  heard-Commands id next h panic b = AreCalls-none b

  go_on-Commands :
      {E : Type 0} (wrap : E → Error) (next : Backend S → Result Error (Unit {0}) × Backend S)
      → Commands next
      → (r : Result E (Unit {0})) → Commands (go_on wrap next r)
  unfolding go_on
  go_on-Commands wrap next h (ok u) b = h b
  go_on-Commands wrap next h (err e) b = AreCalls-none b
  go_on-Commands wrap next h panic b = AreCalls-none b

  ask-Commands : (ids : List LocoId) → Commands (ask w ids)
  unfolding ask
  ask-Commands [] b = AreCalls-none b
  ask-Commands (id ∷ ids) b = AreCalls-append (status-AreCalls id b) (
      heard-Commands id (ask w ids) (ask-Commands ids) (Locos.loco_status w id b).0
        (Locos.loco_status w id b).1)

  drive_all-Commands : (cs : List ActuatorControl) → Commands (drive_all w cs)
  unfolding drive_all
  drive_all-Commands [] b = AreCalls-none b
  drive_all-Commands ((id, kind, state) ∷ rest) b =
      let (r, b') = Actuators.drive_actuator w id kind state b in
      AreCalls-append (drive-AreCalls (id, kind, state) b)
        (go_on-Commands drive_actuator (drive_all w rest) (drive_all-Commands rest) r b')

  control_each-Commands : (cs : List LocoControl) → Commands (control_each w cs)
  unfolding control_each
  control_each-Commands [] b = AreCalls-none b
  control_each-Commands ((id, d, s) ∷ rest) b =
      let (r, b') = Locos.control_loco w id d s b in
      AreCalls-append (control-AreCalls (id, d, s) b)
        (go_on-Commands control_loco (control_each w rest) (control_each-Commands rest) r b')

  act_on-Commands :
      (o : Oracle) (r : Result Error (List ActiveSegment)) (b : Backend S)
      → AreCalls IsCommand b (act_on w o r b).2
  unfolding act_on apply_controls
  act_on-Commands o (ok segments) b =
      let c =
        determine_controls o.last_segment_id (sort_active_segments o.last_segment_id segments) in
      let (r, b') = drive_all w c.actuator_controls b in
      AreCalls-append (drive_all-Commands c.actuator_controls b) (
        go_on-Commands (λ e. e) (control_each w c.loco_controls)
          (control_each-Commands c.loco_controls) r b')
  act_on-Commands o (err e) b = AreCalls-none b
  act_on-Commands o panic b = AreCalls-none b

  pub process-AreCalls : (o : Oracle) (b : Backend S) → AreCalls IsCommand b (process w o b).2
  unfolding process determine_active_segments active_locos
  process-AreCalls o b = elim (Bool-cases b.oracle_enabled) [
    | inl on ↦
        let (locos, b') = ask w (loco_ids b) b in
        simp on (
          AreCalls-append (ask-Commands (loco_ids b) b)
            (act_on-Commands o (locos >>= determine_active_segments_from o.rail_network) b'))
    | inr off ↦ simp off (AreCalls-none b)
  ]
