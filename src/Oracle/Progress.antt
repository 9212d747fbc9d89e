-- ===== src/Oracle/Progress.antt =====
-- Which wanted segments `determine_controls` grants (loco_controller/src/oracle.rs).
use locoloco.Common.{
  ◌≡◌, ◌⊎◌, refl, sym, subst, true, false, some, List, [], ◌∷◌, ◌++◌, contains, contains_iff_In,
  any, any_iff, get, In, In-append_left, In-append_right, Bool-cases, inl, inr, arith,
}
use locoloco.Protocol.Types.{LocoId}
use locoloco.RailNetwork.Types.{SegmentId, Segment, segment_id_eq}
use locoloco.RailNetwork.Tables.{new}
use locoloco.RailNetwork.Conflicts.{IsConflict}
use locoloco.Oracle.Types.{ActiveSegment}
use locoloco.Oracle.Controls.{Controls, is_free, control, control_all, determine_controls}
use locoloco.Oracle.Commands.{
  entered, added, moving, busy_segment_ids-control, busy_segment_ids-determine_controls,
}

-- The segment is among `busy`, or conflicts with one of them.
abbrev pub IsServed : List SegmentId → SegmentId → Type 0
IsServed busy id = In id busy ⊎ ((x : SegmentId) × In x busy × IsConflict new id x)

IsServed-append :
    (busy more : List SegmentId) (id : SegmentId) → IsServed busy id → IsServed (busy ++ more) id
IsServed-append busy more id (inl m) = inl (In-append_left id busy more m)
IsServed-append busy more id (inr (x, m, c)) = inr (x, In-append_left x busy more m, c)

-- a segment that is not free is served already
pub not_free-IsServed :
    (busy : List SegmentId) (id : SegmentId) (segment : Segment)
    → get new.segments id ≡ some segment
    → is_free busy id segment ≡ false
    → IsServed busy id
unfolding is_free
not_free-IsServed busy id segment at h = elim (Bool-cases (contains busy id)) [
  | inl e ↦ inl ((contains_iff_In busy id).0 e)
  | inr e ↦
      let found : any (contains busy) segment.conflicts ≡ true = ground arith in
      let (x, m, b) = (any_iff (contains busy) segment.conflicts).0 found in
      inr (x, (contains_iff_In busy x).0 b, record { segment = segment; at = at; listed = m })
]

module _ (s : ActiveSegment) (id : SegmentId) (segment : Segment) (wanted : s.id ≡ some id)
    (carried : s.segment ≡ some segment) (at : get new.segments id ≡ some segment) where
  entered-IsServed : (busy : List SegmentId) → IsServed (busy ++ added (entered busy s)) id
  entered-IsServed busy = elim (Bool-cases (is_free busy id segment)) [
    | inl free ↦
        let e : entered busy s ≡ some id = ground arith in
        inl (
          subst (λ o. In id (busy ++ added o)) (sym e)
            (In-append_right id busy (id ∷ []) (inl refl)))
    | inr taken ↦
        IsServed-append busy (added (entered busy s)) id
          (not_free-IsServed busy id segment at taken)
  ]

  control-IsServed : (c : Controls) → IsServed (control c s).busy_segment_ids id
  control-IsServed c =
      subst (λ busy. IsServed busy id) (sym (busy_segment_ids-control c s))
        (entered-IsServed c.busy_segment_ids)

control-keeps_IsServed :
    (c : Controls) (s : ActiveSegment) (id : SegmentId)
    → IsServed c.busy_segment_ids id
    → IsServed (control c s).busy_segment_ids id
control-keeps_IsServed c s id h =
    subst (λ busy. IsServed busy id) (sym (busy_segment_ids-control c s))
      (IsServed-append c.busy_segment_ids (added (entered c.busy_segment_ids s)) id h)

control_all-keeps_IsServed :
    (c : Controls) (segments : List ActiveSegment) (id : SegmentId)
    → IsServed c.busy_segment_ids id
    → IsServed (control_all c segments).busy_segment_ids id
unfolding control_all
control_all-keeps_IsServed c [] id h = h
control_all-keeps_IsServed c (s ∷ rest) id h =
    control_all-keeps_IsServed (control c s) rest id (control-keeps_IsServed c s id h)

control_all-IsServed :
    (c : Controls) (segments : List ActiveSegment) (s : ActiveSegment) (id : SegmentId)
    (segment : Segment)
    → In s segments
    → s.id ≡ some id
    → s.segment ≡ some segment
    → get new.segments id ≡ some segment
    → IsServed (control_all c segments).busy_segment_ids id
unfolding control_all
control_all-IsServed c [] s id segment m w k at = elim m [ ]
control_all-IsServed c (t ∷ rest) s id segment (inl e) w k at =
    control_all-keeps_IsServed (control c t) rest id (
      subst (λ u. IsServed (control c u).busy_segment_ids id) (sym e)
        (control-IsServed s id segment w k at c))
control_all-IsServed c (t ∷ rest) s id segment (inr m) w k at =
    control_all-IsServed (control c t) rest s id segment m w k at

-- Each segment that a loco wants, with its entry of the table, is granted in the round to a loco that
-- is sent off, or conflicts with a segment that is.
pub moving-IsServed :
    (last : List (LocoId × SegmentId)) (segments : List ActiveSegment) (s : ActiveSegment)
    (id : SegmentId) (segment : Segment)
    → In s segments
    → s.id ≡ some id
    → s.segment ≡ some segment
    → get new.segments id ≡ some segment
    → IsServed (moving segments (determine_controls last segments).loco_controls) id
unfolding determine_controls
moving-IsServed last segments s id segment m w k at =
    subst (λ busy. IsServed busy id) (busy_segment_ids-determine_controls last segments)
      (control_all-IsServed _ segments s id segment m w k at)
