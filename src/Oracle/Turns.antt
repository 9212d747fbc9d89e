-- ===== src/Oracle/Turns.antt =====
-- In which order `sort_active_segments` of loco_controller/src/oracle.rs lets the locos have their
-- turn.
use mathlib.Core.List.{Perm}
use locoloco.Common.{
  filter, ◌≡◌, List, [], ok, All, All-of, All-In, sort_by_key-IsSortedBy, Pairwise,
}
use locoloco.Protocol.Types.{LocoId, loco_id_eq}
use locoloco.RailNetwork.Types.{CheckpointId, SegmentId, SegmentPriority, segment_id_eq}
use locoloco.RailNetwork.Tables.{new}
use locoloco.Oracle.Types.{ActiveLoco, ActiveSegment}
use locoloco.Oracle.Segments.{determine_active_segments_from}
use locoloco.Oracle.Order.{place_all, priority_key, sort_active_segments}
use locoloco.Oracle.Intents.{Planned, waits, wants, Plans, done, skip, plan}
use locoloco.Backend.Types.{LocoIntent}
use locoloco.Oracle.Plans.{determine_active_segments-Plans}
use locoloco.Oracle.Ordering.{sort_active_segments-perm, In-sort_active_segments}
use locoloco.Oracle.Arrivals.{arrives, filter-sort_active_segments}
use locoloco.Oracle.Priorities.{NotAfter, priority_of, IsSortedBy-NotAfter}
use locoloco.Oracle.Fairness.{IsOvertaken, IsEntered, sort_active_segments-Fair, Fair-entered}

-- The active segments in the order in which they are served.
pub record IsInTurn (last : List (LocoId × SegmentId)) (segments sorted : List ActiveSegment)
    : Type 0 where
  -- none is lost and none is added
  pub perm : Perm sorted segments
  -- the priorities come in order
  pub by_priority : Pairwise (λ s t. NotAfter (priority_of s) (priority_of t)) sorted
  -- a loco that was sent onto the segment comes before the others that want it
  pub by_last : Pairwise (λ s t. ¬ IsOvertaken last s t) sorted
  -- those that were not sent onto their segment before keep their order within a priority
  pub by_arrival :
      (p : SegmentPriority) → filter (arrives last p) sorted ≡ filter (arrives last p) segments

Planned-IsEntered :
    {all : List ActiveLoco} {loco_id : LocoId} {here : CheckpointId} {intent : LocoIntent}
    {s : ActiveSegment}
    → Planned all loco_id here intent s
    → IsEntered s
Planned-IsEntered (waits w) id e = absurd cc
Planned-IsEntered (wants i found w at) id e = cc (e, at)

Plans-IsEntered :
    {all ls : List ActiveLoco} {ss : List ActiveSegment} → Plans all ls ss → All IsEntered ss
Plans-IsEntered done = tt
Plans-IsEntered (skip w p) = Plans-IsEntered p
Plans-IsEntered (plan here intent at wish q p) = (Planned-IsEntered q, Plans-IsEntered p)

-- Whatever the states of the locos and whatever segments they used last, a round on the tables of
-- `new` finds its active segments, and sorts them without losing or adding one: first those of
-- `Priority0`, then of `Priority1`, then of `Priority2`, with which the locos that wait are
-- counted. A loco that was sent onto the segment it wants never stands behind one that wants the
-- same segment and was not, and those that were not sent onto the segment they want keep their
-- order within a priority.
pub round-IsInTurn :
    (last : List (LocoId × SegmentId)) (locos : List ActiveLoco)
    → (segments : List ActiveSegment) × (determine_active_segments_from new locos ≡ ok segments)
      × IsInTurn last segments (sort_active_segments last segments)
round-IsInTurn last locos =
    let (segments, e, p) = determine_active_segments-Plans locos in
    let sorted = sort_active_segments last segments in
    let entered = All-of IsEntered sorted (λ s m.
      All-In IsEntered s segments (Plans-IsEntered p)
        (In-sort_active_segments last segments s m)) in
    (
      segments,
      e,
      record {
        perm = sort_active_segments-perm last segments;
        by_priority = IsSortedBy-NotAfter sorted (
            unfold sort_active_segments in
            sort_by_key-IsSortedBy priority_key (place_all last [] segments));
        by_last = Fair-entered last sorted entered (sort_active_segments-Fair last segments);
        by_arrival = λ p. filter-sort_active_segments last p segments;
      },
    )
