-- ===== src/Oracle/Commanded.antt =====
-- The commands of one round (`determine_controls` of loco_controller/src/oracle.rs), told by the
-- segments that were granted before and their conflicts in the table.
use locoloco.Common.{
  ◌≡◌, ◌⊎◌, refl, sym, subst, true, none, some, List, [], ◌∷◌, ◌++◌, append-nil, contains,
  contains_iff_In, any, any_iff, get, All, In, Bool-cases, Option-cases, inl, inr, arith,
}
use locoloco.Protocol.Types.{LocoId, normal, stop}
use locoloco.RailNetwork.Types.{SegmentId, Segment, segment_id_eq}
use locoloco.RailNetwork.Tables.{new}
use locoloco.Oracle.Types.{ActiveSegment, LocoControl}
use locoloco.Oracle.Controls.{is_free, determine_controls}
use locoloco.Oracle.Commands.{entered, commands, loco_controls-determine_controls}
use locoloco.Oracle.Progress.{IsServed, not_free-IsServed}
use locoloco.Oracle.Safety.{IsFromTable}

-- The commands for the active segments, in order, while the segments `busy` are granted already.
pub data Commanded : List SegmentId → List ActiveSegment → List LocoControl → Type 0 where
  done : {busy : List SegmentId} → Commanded busy [] []
  -- a loco that wants no segment is stopped
  idle :
      {busy : List SegmentId} {s : ActiveSegment} {rest : List ActiveSegment}
      {cs : List LocoControl}
      → (s.id ≡ none) ⊎ (s.segment ≡ none)
      → Commanded busy rest cs
      → Commanded busy (s ∷ rest) ((s.loco_id, s.direction, stop) ∷ cs)
  -- a loco is stopped if its segment is granted already, or in conflict with one that is
  denied :
      {busy : List SegmentId} {s : ActiveSegment} {rest : List ActiveSegment}
      {cs : List LocoControl} (id : SegmentId)
      → s.id ≡ some id
      → IsServed busy id
      → Commanded busy rest cs
      → Commanded busy (s ∷ rest) ((s.loco_id, s.direction, stop) ∷ cs)
  -- any other is sent off, and its segment is granted
  sent :
      {busy : List SegmentId} {s : ActiveSegment} {rest : List ActiveSegment}
      {cs : List LocoControl} (id : SegmentId) (segment : Segment)
      → s.id ≡ some id
      → s.segment ≡ some segment
      → ¬ IsServed busy id
      → Commanded (busy ++ id ∷ []) rest cs
      → Commanded busy (s ∷ rest) ((s.loco_id, s.direction, normal) ∷ cs)

-- a segment that is free is not served yet
is_free-IsServed :
    (busy : List SegmentId) (id : SegmentId) (segment : Segment)
    → get new.segments id ≡ some segment
    → is_free busy id segment ≡ true
    → ¬ IsServed busy id
unfolding is_free
is_free-IsServed busy id segment at free (inl m) = ground (arith, (contains_iff_In busy id).1 m)
is_free-IsServed busy id segment at free (inr (x, m, c)) =
    let same : c.segment ≡ segment = cc (c.at, at) in
    let listed = subst (λ (s : Segment). In x s.conflicts) same c.listed in
    let taken : any (contains busy) segment.conflicts ≡ true =
      (any_iff (contains busy) segment.conflicts).1 (x, listed, (contains_iff_In busy x).1 m) in
    ground arith

module _ (busy : List SegmentId) (s : ActiveSegment) (rest : List ActiveSegment) where
  commands-none :
      entered busy s ≡ none
      → commands busy (s ∷ rest) ≡ (s.loco_id, s.direction, stop) ∷ commands busy rest
  unfolding commands
  commands-none e = rw (e, append-nil) refl

  commands-some :
      (id : SegmentId)
      → entered busy s ≡ some id
      → commands busy (s ∷ rest)
        ≡ (s.loco_id, s.direction, normal) ∷ commands (busy ++ id ∷ []) rest
  unfolding commands
  commands-some id e = rw e refl

commands-Commanded :
    (busy : List SegmentId) (segments : List ActiveSegment)
    → All IsFromTable segments
    → Commanded busy segments (commands busy segments)
commands-Commanded busy [] h = unfold commands in done
commands-Commanded busy (s ∷ rest) (h, hs) = elim (Option-cases s.id) [
  | inl e ↦
      rw (commands-none busy s rest (ground arith)) (idle (inl e) (commands-Commanded busy rest hs))
  | inr (id, wanted) ↦ elim (Option-cases s.segment) [
    | inl e ↦
        rw (commands-none busy s rest (ground arith))
          (idle (inr e) (commands-Commanded busy rest hs))
    | inr (segment, carried) ↦
        let at = h id segment wanted carried in
        elim (Bool-cases (is_free busy id segment)) [
          | inl free ↦ rw (commands-some busy s rest id (ground arith)) (
              sent id segment wanted carried (is_free-IsServed busy id segment at free)
                (commands-Commanded (busy ++ id ∷ []) rest hs))
          | inr taken ↦ rw (commands-none busy s rest (ground arith)) (
              denied id wanted (not_free-IsServed busy id segment at taken)
                (commands-Commanded busy rest hs))
        ]
  ]
]

-- Each active segment gets one command, in order, if the segments carry their entries of the table:
-- its loco and direction, at normal speed if it wants a segment that is neither among those granted
-- before in the round nor in conflict with one of them by the table, and the stop otherwise. A
-- segment is granted exactly when its loco is sent off.
pub determine_controls-Commanded :
    (last : List (LocoId × SegmentId)) (segments : List ActiveSegment)
    → All IsFromTable segments
    → Commanded [] segments (determine_controls last segments).loco_controls
determine_controls-Commanded last segments h =
    subst (Commanded [] segments) (sym (loco_controls-determine_controls last segments))
      (commands-Commanded [] segments h)
