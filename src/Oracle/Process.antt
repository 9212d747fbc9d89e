-- ===== src/Oracle/Process.antt =====
-- `active_locos` and `process` of loco_controller/src/oracle.rs.
use locoloco.Common.{List, [], ◌∷◌, Result, ok, err, panic, not, ◌>>=◌, if◌then◌else◌}
use mathlib.Core.Option
use locoloco.Protocol.Types.{LocoId}
use locoloco.RailNetwork.Convert.{into_checkpoint_id}
use locoloco.RailNetwork.Tables.{new}
use locoloco.Wire.{Wire}
use locoloco.Backend.Types as BackendTypes
use locoloco.Backend.Types.{Backend, LocoStatus, loco_not_connected}
use locoloco.Backend.State.{loco_ids}
use locoloco.Backend.Locos as Locos
use locoloco.Backend.Actuators as Actuators
use locoloco.Oracle.Types.{
  Error, loco_status, control_loco, drive_actuator, Oracle, ActiveLoco, ActiveSegment,
  ActuatorControl, LocoControl,
}
use locoloco.Oracle.Segments.{determine_active_segments_from}
use locoloco.Oracle.Order.{sort_active_segments}
use locoloco.Oracle.Controls.{determine_controls}

unfoldable pub init : Oracle
unfolding new
init = record { rail_network = new; last_segment_id = [] }

-- what the oracle keeps of a loco's status
abbrev pub active_loco : LocoId → LocoStatus → ActiveLoco
active_loco id status = record {
  id = id;
  speed = status.speed;
  location = Option.map into_checkpoint_id status.location;
  intent = status.intent;
}

-- a vector that goes on behind its first element
abbrev pub prepend : ActiveLoco → Result Error (List ActiveLoco) → Result Error (List ActiveLoco)
prepend l (ok ls) = ok (l ∷ ls)
prepend l (err e) = err e
prepend l panic = panic

-- an operation of the oracle on the backend
abbrev pub Action : Type 0 → Type 0 → Type 0
Action S A = Backend S → Result Error A × Backend S

module _ {S : Type 0} where
  -- the `match` of `active_locos`; a loco that is not connected is passed over
  unfoldable pub heard :
      LocoId
      → Action S (List ActiveLoco)
      → Result BackendTypes.Error LocoStatus
      → Action S (List ActiveLoco)
  unfolding into_checkpoint_id
  heard id next (ok s) b = let (rest, b') = next b in (prepend (active_loco id s) rest, b')
  heard id next (err (loco_not_connected _)) b = next b
  heard id next (err e) b = (err (loco_status e), b)
  heard id next panic b = (panic, b)

  -- `map_err(wrap)?`, and the rest of the function
  unfoldable pub go_on :
      {E : Type 0} → (E → Error) → Action S (Unit {0}) → Result E (Unit {0}) → Action S (Unit {0})
  go_on wrap next (ok _) b = next b
  go_on wrap next (err e) b = (err (wrap e), b)
  go_on wrap next panic b = (panic, b)

module _ {S : Type 0} (w : Wire S) where
  -- the loop of `active_locos`
  unfoldable pub ask : List LocoId → Action S (List ActiveLoco)
  unfolding Locos.loco_status heard
  ask [] b = (ok [], b)
  ask (id ∷ ids) b = let (status, b') = Locos.loco_status w id b in heard id (ask ids) status b'

  unfoldable pub active_locos : Action S (List ActiveLoco)
  unfolding ask loco_ids
  active_locos b = ask (loco_ids b) b

  -- the loop that applies the controls of the actuators
  unfoldable pub drive_all : List ActuatorControl → Action S (Unit {0})
  unfolding Actuators.drive_actuator go_on
  drive_all [] b = (ok tt, b)
  drive_all ((id, kind, state) ∷ rest) b =
      let (r, b') = Actuators.drive_actuator w id kind state b in
      go_on drive_actuator (drive_all rest) r b'

  -- the loop that applies the controls of the locos
  unfoldable pub control_each : List LocoControl → Action S (Unit {0})
  unfolding Locos.control_loco go_on
  control_each [] b = (ok tt, b)
  control_each ((id, direction, speed) ∷ rest) b =
      let (r, b') = Locos.control_loco w id direction speed b in
      go_on control_loco (control_each rest) r b'

  -- the actuators first, then the locos
  unfoldable pub apply_controls : List ActuatorControl → List LocoControl → Action S (Unit {0})
  unfolding drive_all control_each go_on
  apply_controls actuators locos b =
      let (r, b') = drive_all actuators b in go_on (λ e. e) (control_each locos) r b'

  -- what follows the active segments
  unfoldable pub act :
      List ActiveSegment → Oracle → Backend S → Result Error (Unit {0}) × Oracle × Backend S
  unfolding sort_active_segments determine_controls apply_controls
  act segments o b =
      let c =
        determine_controls o.last_segment_id (sort_active_segments o.last_segment_id segments) in
      let (r, b') = apply_controls c.actuator_controls c.loco_controls b in
      (r, record o { last_segment_id = c.last_segment_id }, b')

  unfoldable pub determine_active_segments : Oracle → Action S (List ActiveSegment)
  unfolding active_locos determine_active_segments_from
  determine_active_segments o b =
      let (locos, b') = active_locos b in
      (locos >>= determine_active_segments_from o.rail_network, b')

  -- with the active segments, or the error of finding them
  unfoldable pub act_on :
      Oracle
      → Result Error (List ActiveSegment)
      → Backend S
      → Result Error (Unit {0}) × Oracle × Backend S
  unfolding act
  act_on o (ok segments) b = act segments o b
  act_on o (err e) b = (err e, o, b)
  act_on o panic b = (panic, o, b)

  unfoldable pub process : Oracle → Backend S → Result Error (Unit {0}) × Oracle × Backend S
  unfolding determine_active_segments act_on
  process o b =
      if not b.oracle_enabled
      then (ok tt, o, b)
      else let (segments, b') = determine_active_segments o b in act_on o segments b'
