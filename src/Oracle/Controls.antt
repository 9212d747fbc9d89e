-- ===== src/Oracle/Controls.antt =====
-- `determine_controls` of loco_controller/src/oracle.rs.
use locoloco.Common.{
  Bool, not, ◌&&◌, none, some, List, [], ◌∷◌, ◌++◌, map, contains, any, insert, if◌then◌else◌,
}
use locoloco.Protocol.Types.{LocoId, switch_rails, normal, stop, loco_id_eq}
use locoloco.Protocol.SwitchRailsState
use locoloco.RailNetwork.Types.{SegmentId, Segment, SwitchRails, segment_id_eq}
use locoloco.Oracle.Types.{ActiveSegment, ActuatorControl, LocoControl}

-- The vectors that the loop fills, and the map that it updates.
pub record Controls : Type 0 where
  pub actuator_controls : List ActuatorControl
  pub loco_controls : List LocoControl
  pub busy_segment_ids : List SegmentId
  pub last_segment_id : List (LocoId × SegmentId)

-- the command for one switch of a segment
abbrev pub actuator_control : SwitchRails → ActuatorControl
actuator_control r = (r.actuator_id, switch_rails, SwitchRailsState.into r.state)

-- Neither the segment nor one of its conflicts is busy.
unfoldable pub is_free : List SegmentId → SegmentId → Segment → Bool
is_free busy segment_id segment =
    not (contains busy segment_id) && not (any (contains busy) segment.conflicts)

-- the loco may go
unfoldable pub grant : Controls → ActiveSegment → SegmentId → Segment → Controls
unfolding insert
grant c s segment_id segment = record {
  actuator_controls = c.actuator_controls ++ map actuator_control segment.switch_rails;
  loco_controls = c.loco_controls ++ (s.loco_id, s.direction, normal) ∷ [];
  busy_segment_ids = c.busy_segment_ids ++ segment_id ∷ [];
  last_segment_id = insert s.loco_id segment_id c.last_segment_id;
}

-- the loco has to stand still
unfoldable pub deny : Controls → ActiveSegment → Controls
deny c s = record c { loco_controls = c.loco_controls ++ (s.loco_id, s.direction, stop) ∷ [] }

-- one round of the loop
unfoldable pub control : Controls → ActiveSegment → Controls
unfolding is_free grant deny
control c s = elim s.id [
  | none ↦ deny c s
  | some segment_id ↦ elim s.segment [
    | none ↦ deny c s
    | some segment ↦
        if is_free c.busy_segment_ids segment_id segment
        then grant c s segment_id segment
        else deny c s
  ]
]

unfoldable pub control_all : Controls → List ActiveSegment → Controls
unfolding control
control_all c [] = c
control_all c (s ∷ rest) = control_all (control c s) rest

unfoldable pub determine_controls : List (LocoId × SegmentId) → List ActiveSegment → Controls
unfolding control_all
determine_controls last_segment_id active_segments =
    control_all
      (record {
        actuator_controls = [];
        loco_controls = [];
        busy_segment_ids = [];
        last_segment_id = last_segment_id;
      })
      active_segments
