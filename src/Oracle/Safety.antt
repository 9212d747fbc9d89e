-- ===== src/Oracle/Safety.antt =====
-- The segments and the switches that one round of `determine_controls` takes
-- (loco_controller/src/oracle.rs).
use locoloco.Common.{
  ◌≡◌, ◌≢◌, refl, sym, ap, subst, ◌∙◌, true, some, List, [], ◌∷◌, ◌++◌, map, contains,
  contains_iff_In, any_iff, get, All, All-append, All-In, All-of, In, In-append, In-append_left,
  In-append_right, In-map, Bool-cases, Option-cases, inl, inr, arith,
}
use locoloco.Protocol.Types.{LocoId}
use locoloco.Protocol.SwitchRailsState
use locoloco.RailNetwork.Types.{SegmentId, Segment, segment_id_eq}
use locoloco.RailNetwork.Tables.{new}
use locoloco.RailNetwork.Conflicts.{
  IsConflict, IsOpposed, IsConflict-iff_IsOpposed, IsConflict-symm, IsConflict-irrefl,
  SwitchRailsState-discrete,
}
use locoloco.Oracle.Types.{ActiveSegment, ActuatorControl}
use locoloco.Oracle.Controls.{
  Controls, actuator_control, is_free, grant, deny, control, control_all, determine_controls,
}
use locoloco.Oracle.Commands.{moving, busy_segment_ids-determine_controls}

-- An active segment that carries its entry of the table.
abbrev pub IsFromTable : ActiveSegment → Type 0
IsFromTable s =
    (id : SegmentId) (segment : Segment)
    → s.id ≡ some id
    → s.segment ≡ some segment
    → get new.segments id ≡ some segment

-- Two segments that may be used at one time.
abbrev pub IsApart : SegmentId → SegmentId → Type 0
IsApart s t = (s ≢ t) × (¬ IsConflict new s t)

-- Each segment is apart from all later ones.
abbrev pub IsExclusive : List SegmentId → Type 0
IsExclusive [] = Unit
IsExclusive (s ∷ rest) = All (IsApart s) rest × IsExclusive rest

IsExclusive-append :
    (xs : List SegmentId) (s : SegmentId)
    → IsExclusive xs
    → All (λ x. IsApart x s) xs
    → IsExclusive (xs ++ s ∷ [])
IsExclusive-append [] s h a = (tt, tt)
IsExclusive-append (x ∷ xs) s h a =
    (All-append (IsApart x) xs (s ∷ []) h.0 (a.0, tt), IsExclusive-append xs s h.1 a.1)

IsExclusive-In :
    (xs : List SegmentId) (s t : SegmentId)
    → IsExclusive xs
    → In s xs
    → In t xs
    → ¬ IsOpposed new s t
IsExclusive-In [] s t h m n o = elim m [ ]
IsExclusive-In (x ∷ xs) s t h (inl e) (inl f) o =
    IsConflict-irrefl s (subst (IsConflict new s) (sym f ∙ e) ((IsConflict-iff_IsOpposed s t).1 o))
IsExclusive-In (x ∷ xs) s t h (inl e) (inr n) o =
    (subst (λ y. IsApart y t) e (All-In (IsApart x) t xs h.0 n)).1
      ((IsConflict-iff_IsOpposed s t).1 o)
IsExclusive-In (x ∷ xs) s t h (inr m) (inl f) o =
    (subst (λ y. IsApart y s) f (All-In (IsApart x) s xs h.0 m)).1
      (IsConflict-symm ((IsConflict-iff_IsOpposed s t).1 o))
IsExclusive-In (x ∷ xs) s t h (inr m) (inr n) o = IsExclusive-In xs s t h.1 m n o

-- A free segment is apart from every busy one.
is_free-IsApart :
    (busy : List SegmentId) (id : SegmentId) (segment : Segment)
    → get new.segments id ≡ some segment
    → is_free busy id segment ≡ true
    → (x : SegmentId) → In x busy
    → IsApart x id
unfolding is_free
is_free-IsApart busy id segment e h x m = (
  λ same. ground (arith, (contains_iff_In busy id).1 (subst (λ y. In y busy) same m)),
  λ c.
      let c' = IsConflict-symm c in
      let same : c'.segment ≡ segment = cc (c'.at, e) in
      let here = subst (λ (s : Segment). In x s.conflicts) same c'.listed in
      let busy_conflict =
        (any_iff (contains busy) segment.conflicts).1 (x, here, (contains_iff_In busy x).1 m) in
      ground arith,
)

-- What holds of the vectors between two rounds of the loop.
record IsSafe (c : Controls) : Type 0 where
  exclusive : IsExclusive c.busy_segment_ids
  commanded :
      (a : ActuatorControl)
      → In a c.actuator_controls
      → (id : SegmentId) × (segment : Segment) × In id c.busy_segment_ids
        × (get new.segments id ≡ some segment)
        × In a (map actuator_control segment.switch_rails)

grant-IsSafe :
    (c : Controls) (s : ActiveSegment) (id : SegmentId) (segment : Segment)
    → get new.segments id ≡ some segment
    → is_free c.busy_segment_ids id segment ≡ true
    → IsSafe c
    → IsSafe (grant c s id segment)
unfolding grant
grant-IsSafe c s id segment e free h = record {
  exclusive = IsExclusive-append c.busy_segment_ids id h.exclusive (
      All-of (λ x. IsApart x id) c.busy_segment_ids
        (is_free-IsApart c.busy_segment_ids id segment e free));
  commanded = λ a m. elim (In-append a c.actuator_controls _ m) [
    | inl old ↦
        let (id', segment', n, e', r) = h.commanded a old in
        (id', segment', In-append_left id' c.busy_segment_ids (id ∷ []) n, e', r)
    | inr added ↦
        (id, segment, In-append_right id c.busy_segment_ids (id ∷ []) (inl refl), e, added)
  ];
}

deny-IsSafe : (c : Controls) (s : ActiveSegment) → IsSafe c → IsSafe (deny c s)
unfolding deny
deny-IsSafe c s h = record { exclusive = h.exclusive; commanded = h.commanded }

control-IsSafe :
    (c : Controls) (s : ActiveSegment) → IsFromTable s → IsSafe c → IsSafe (control c s)
unfolding control
control-IsSafe c s t h = elim (Option-cases s.id) [
  | inl e ↦ rw e (deny-IsSafe c s h)
  | inr (id, e) ↦ elim (Option-cases s.segment) [
    | inl e' ↦ rw (e, e') (deny-IsSafe c s h)
    | inr (segment, e') ↦ elim (Bool-cases (is_free c.busy_segment_ids id segment)) [
      | inl free ↦ rw (e, e', free) (grant-IsSafe c s id segment (t id segment e e') free h)
      | inr busy ↦ rw (e, e', busy) (deny-IsSafe c s h)
    ]
  ]
]

control_all-IsSafe :
    (c : Controls) (segments : List ActiveSegment)
    → All IsFromTable segments
    → IsSafe c
    → IsSafe (control_all c segments)
unfolding control_all
control_all-IsSafe c [] t h = h
control_all-IsSafe c (s ∷ rest) t h =
    control_all-IsSafe (control c s) rest t.1 (control-IsSafe c s t.0 h)

determine_controls-IsSafe :
    (last : List (LocoId × SegmentId)) (segments : List ActiveSegment)
    → All IsFromTable segments
    → IsSafe (determine_controls last segments)
unfolding determine_controls
determine_controls-IsSafe last segments t =
    control_all-IsSafe _ segments t (record { exclusive = tt; commanded = λ a m. absurd m })

-- If the active segments carry their entries of the table, then the segments onto which one round
-- sends locos at normal speed are distinct, and none conflicts with a later one.
pub moving-IsExclusive :
    (last : List (LocoId × SegmentId)) (segments : List ActiveSegment)
    → All IsFromTable segments
    → IsExclusive (moving segments (determine_controls last segments).loco_controls)
moving-IsExclusive last segments t =
    subst IsExclusive (busy_segment_ids-determine_controls last segments)
      (determine_controls-IsSafe last segments t).exclusive

-- If the active segments carry their entries of the table, then one round drives each switch to one
-- position at most: two commands for one switch have the same state.
pub actuator_controls_agree :
    (last : List (LocoId × SegmentId)) (segments : List ActiveSegment) (a b : ActuatorControl)
    → All IsFromTable segments
    → In a (determine_controls last segments).actuator_controls
    → In b (determine_controls last segments).actuator_controls
    → a.0 ≡ b.0
    → a.2 ≡ b.2
actuator_controls_agree last segments a b t m n same =
    let safe = determine_controls-IsSafe last segments t in
    let (i, s, p, e, u) = safe.commanded a m in
    let (j, r, q, f, v) = safe.commanded b n in
    let (x, x_in, xa) = In-map actuator_control a s.switch_rails u in
    let (y, y_in, yb) = In-map actuator_control b r.switch_rails v in
    let apart = IsExclusive-In _ i j safe.exclusive p q in
    let switch : x.actuator_id ≡ y.actuator_id =
      ap (λ (k : ActuatorControl). k.0) xa ∙ same ∙ sym (ap (λ (k : ActuatorControl). k.0) yb) in
    elim (SwitchRailsState-discrete x.state y.state) [
      | yes position ↦
          sym (ap (λ (k : ActuatorControl). k.2) xa)
          ∙ ap SwitchRailsState.into position
          ∙ ap (λ (k : ActuatorControl). k.2) yb
      | no positions ↦ absurd (
          apart (record {
            first = s;
            second = r;
            at_first = e;
            at_second = f;
            rails = x;
            other = y;
            of_first = x_in;
            of_second = y_in;
            same_switch = switch;
            positions = positions;
          }))
    ]
