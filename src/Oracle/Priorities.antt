-- ===== src/Oracle/Priorities.antt =====
-- The priorities of the active segments, as `sort_active_segments` of loco_controller/src/oracle.rs
-- orders them.
use locoloco.Common.{
  ◌≤◌, ◌≡◌, none, some, List, [], ◌∷◌, All, Option-cases, inl, inr, arith, IsSortedBy, Pairwise,
}
use locoloco.Protocol.Types.{loco_id_eq}
use locoloco.RailNetwork.Types.{
  segment_id_eq, SegmentPriority, priority0, priority1, priority2, rank,
}
use locoloco.Oracle.Types.{ActiveSegment}
use locoloco.Oracle.Order.{priority_key}

-- The first priority is served before the second, or they are one.
pub data NotAfter : SegmentPriority → SegmentPriority → Type 0 where
  same : {p : SegmentPriority} → NotAfter p p
  zero_one : NotAfter priority0 priority1
  zero_two : NotAfter priority0 priority2
  one_two : NotAfter priority1 priority2

-- The priority of the segment that a loco wants; that of a loco that waits is the last.
abbrev pub priority_of : ActiveSegment → SegmentPriority
priority_of s = elim s.segment [ some segment ↦ segment.priority | none ↦ priority2 ]

rank-NotAfter : (p q : SegmentPriority) → rank p ≤ rank q → NotAfter p q
rank-NotAfter priority0 priority0 h = same
rank-NotAfter priority0 priority1 h = zero_one
rank-NotAfter priority0 priority2 h = zero_two
rank-NotAfter priority1 priority0 h = absurd (omega arith)
rank-NotAfter priority1 priority1 h = same
rank-NotAfter priority1 priority2 h = one_two
rank-NotAfter priority2 priority0 h = absurd (omega arith)
rank-NotAfter priority2 priority1 h = absurd (omega arith)
rank-NotAfter priority2 priority2 h = same

pub priority_key-rank : (s : ActiveSegment) → priority_key s ≡ rank (priority_of s)
priority_key-rank s = elim (Option-cases s.segment) [
  | inl e ↦ ground arith
  | inr (segment, e) ↦ ground arith
]

pub IsSortedBy-NotAfter :
    (l : List ActiveSegment)
    → IsSortedBy priority_key l
    → Pairwise (λ s t. NotAfter (priority_of s) (priority_of t)) l
IsSortedBy-NotAfter [] h = tt
IsSortedBy-NotAfter (s ∷ l) h = (below l h.0, IsSortedBy-NotAfter l h.1)
  where
    below :
        (l : List ActiveSegment)
        → All (λ t. priority_key s ≤ priority_key t) l
        → All (λ t. NotAfter (priority_of s) (priority_of t)) l
    below [] b = tt
    below (t ∷ l) b = (
      rank-NotAfter (priority_of s) (priority_of t)
          (omega (arith, b.0, priority_key-rank s, priority_key-rank t)),
      below l b.1,
    )
