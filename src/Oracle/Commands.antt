-- ===== src/Oracle/Commands.antt =====
-- The commands of one round, one for each active segment in order, read off `determine_controls`.
use locoloco.Common.{
  ◌≡◌, sym, Option, none, some, List, [], ◌∷◌, ◌++◌, ◌==◌, if◌then◌else◌, append-nil, append_assoc,
  arith,
}
use locoloco.Protocol.Types.{LocoId, Speed, normal, stop, speed_eq}
use locoloco.RailNetwork.Types.{SegmentId}
use locoloco.Oracle.Types.{ActiveSegment, LocoControl}
use locoloco.Oracle.Controls.{
  Controls, is_free, grant, deny, control, control_all, determine_controls,
}

-- the segment that a loco may enter while `busy` is taken
abbrev pub entered : List SegmentId → ActiveSegment → Option SegmentId
entered busy s = elim s.id [
  | none ↦ none
  | some id ↦ elim s.segment [
    | none ↦ none
    | some segment ↦ if is_free busy id segment then some id else none
  ]
]

abbrev pub speed_for : Option SegmentId → Speed
speed_for none = stop
speed_for (some _) = normal

abbrev pub added : Option SegmentId → List SegmentId
added none = []
added (some id) = id ∷ []

-- The commands in the order of the active segments, while `busy` is taken.
unfoldable pub commands : List SegmentId → List ActiveSegment → List LocoControl
commands busy [] = []
commands busy (s ∷ rest) =
    let e = entered busy s in
    (s.loco_id, s.direction, speed_for e) ∷ commands (busy ++ added e) rest

-- The segments whose loco is sent off at normal speed.
unfoldable pub moving : List ActiveSegment → List LocoControl → List SegmentId
moving [] cs = []
moving (s ∷ rest) [] = []
moving (s ∷ rest) ((_, _, speed) ∷ cs) =
    let later = moving rest cs in
    if speed == normal then elim s.id [ some id ↦ id ∷ later | none ↦ later ] else later

module _ (c : Controls) (s : ActiveSegment) where
  loco_controls-control :
      (control c s).loco_controls
      ≡ c.loco_controls ++ (s.loco_id, s.direction, speed_for (entered c.busy_segment_ids s)) ∷ []
  unfolding control grant deny
  loco_controls-control = ground arith

  pub busy_segment_ids-control :
      (control c s).busy_segment_ids ≡ c.busy_segment_ids ++ added (entered c.busy_segment_ids s)
  unfolding control grant deny
  busy_segment_ids-control = ground (arith, append-nil c.busy_segment_ids)

loco_controls-control_all :
    (c : Controls) (segments : List ActiveSegment)
    → (control_all c segments).loco_controls
      ≡ c.loco_controls ++ commands c.busy_segment_ids segments
unfolding control_all commands
loco_controls-control_all c [] = sym (append-nil _)
loco_controls-control_all c (s ∷ rest) = rw (
  loco_controls-control_all (control c s) rest,
  loco_controls-control c s,
  busy_segment_ids-control c s,
  append_assoc,
)

pub moving-commands_cons :
    (busy : List SegmentId) (s : ActiveSegment) (rest : List ActiveSegment)
    → moving (s ∷ rest) (commands busy (s ∷ rest))
      ≡ added (entered busy s) ++ moving rest (commands (busy ++ added (entered busy s)) rest)
unfolding moving commands
moving-commands_cons busy s rest = ground arith

busy_segment_ids-control_all :
    (c : Controls) (segments : List ActiveSegment)
    → (control_all c segments).busy_segment_ids
      ≡ c.busy_segment_ids ++ moving segments (commands c.busy_segment_ids segments)
unfolding control_all
busy_segment_ids-control_all c [] = unfold moving in sym (append-nil _)
busy_segment_ids-control_all c (s ∷ rest) = rw (
  busy_segment_ids-control_all (control c s) rest,
  moving-commands_cons c.busy_segment_ids s rest,
  busy_segment_ids-control c s,
  append_assoc,
)

-- Each active segment gets one command, in order: its loco and direction, at normal speed if the
-- segment is free of those granted before, and the stop otherwise.
pub loco_controls-determine_controls :
    (last : List (LocoId × SegmentId)) (segments : List ActiveSegment)
    → (determine_controls last segments).loco_controls ≡ commands [] segments
unfolding determine_controls
loco_controls-determine_controls last segments = loco_controls-control_all _ segments

-- The busy segments are those whose loco is sent off.
pub busy_segment_ids-determine_controls :
    (last : List (LocoId × SegmentId)) (segments : List ActiveSegment)
    → let c = determine_controls last segments in
      c.busy_segment_ids ≡ moving segments c.loco_controls
unfolding determine_controls
busy_segment_ids-determine_controls last segments =
    rw (loco_controls-control_all _ segments) (busy_segment_ids-control_all _ segments)
