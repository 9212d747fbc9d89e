-- ===== src/RailNetwork/Conflicts.antt =====
-- Conflicts and switch rails in the table of segments (loco_controller/src/rail_network.rs).
use locoloco.Common.{
  ◌≡◌, ◌≢◌, refl, ◌↔◌, Bool, true, false, ◌&&◌, not, none, some, ◌==◌, contains, contains_iff_In,
  Eq, derive_eq, get, In, any, any_iff, Option-cases, inl, inr, agree, agree→eq, sym, ◌∙◌, arith,
}
use locoloco.Protocol.Types.{SwitchRailsState, actuator_id_eq}
use locoloco.RailNetwork.Types.{SegmentId, Segment, SwitchRails, RailNetwork, segment_id_eq}
use locoloco.RailNetwork.Tables.{new}
use locoloco.RailNetwork.Every.{every_segment, every_segment_sound}

abbrev pub SwitchRailsState-discrete : Discrete SwitchRailsState
SwitchRailsState-discrete = hlevel

instance abbrev switch_rails_state_eq : Eq SwitchRailsState
switch_rails_state_eq = derive_eq SwitchRailsState-discrete

-- The table lists `t` among the conflicts of `s`.
pub record IsConflict (net : RailNetwork) (s t : SegmentId) : Type 0 where
  pub segment : Segment
  pub at : get net.segments s ≡ some segment
  pub listed : In t segment.conflicts

-- The two segments want one switch in two positions.
pub record IsOpposed (net : RailNetwork) (s t : SegmentId) : Type 0 where
  pub first : Segment
  pub second : Segment
  pub at_first : get net.segments s ≡ some first
  pub at_second : get net.segments t ≡ some second
  pub rails : SwitchRails
  pub other : SwitchRails
  pub of_first : In rails first.switch_rails
  pub of_second : In other second.switch_rails
  pub same_switch : rails.actuator_id ≡ other.actuator_id
  pub positions : rails.state ≢ other.state

clashes : SwitchRails → SwitchRails → Bool
clashes r q = r.actuator_id == q.actuator_id && not (r.state == q.state)

opposed : RailNetwork → SegmentId → SegmentId → Bool
unfolding clashes
opposed net s t = elim (get net.segments s) [
  | some a ↦ elim (get net.segments t) [
    | some b ↦ any (λ r. any (clashes r) b.switch_rails) a.switch_rails
    | none ↦ false
  ]
  | none ↦ false
]

conflicting : RailNetwork → SegmentId → SegmentId → Bool
conflicting net s t = elim (get net.segments s) [ some a ↦ contains a.conflicts t | none ↦ false ]

conflicts_table :
    every_segment (λ s. every_segment (λ t. agree (conflicting new s t) (opposed new s t))) ≡ true
unfolding every_segment conflicting opposed get new
conflicts_table = refl

conflicting_iff :
    (net : RailNetwork) (s t : SegmentId) → (conflicting net s t ≡ true) ↔ IsConflict net s t
unfolding conflicting
conflicting_iff net s t = (
  λ h. elim (Option-cases (get net.segments s)) [
    | inl e ↦ absurd (ground arith)
    | inr (a, e) ↦ record {
      segment = a;
      at = e;
      listed = (contains_iff_In a.conflicts t).0 (ground arith);
    }
  ],
  λ c. ground (arith, c.at, (contains_iff_In c.segment.conflicts t).1 c.listed),
)

clashes_iff :
    (r q : SwitchRails)
    → (clashes r q ≡ true) ↔ ((r.actuator_id ≡ q.actuator_id) × (r.state ≢ q.state))
unfolding clashes
clashes_iff r q = ground (
  arith,
  actuator_id_eq.beq_iff r.actuator_id q.actuator_id,
  switch_rails_state_eq.beq_iff r.state q.state,
)

opposed_iff : (net : RailNetwork) (s t : SegmentId) → (opposed net s t ≡ true) ↔ IsOpposed net s t
unfolding opposed
opposed_iff net s t = (
  λ h. elim (Option-cases (get net.segments s)) [
    | inl e ↦ absurd (ground arith)
    | inr (a, e) ↦ elim (Option-cases (get net.segments t)) [
      | inl e' ↦ absurd (ground arith)
      | inr (b, e') ↦
          let (r, m, h') =
            (any_iff (λ r. any (clashes r) b.switch_rails) a.switch_rails).0 (ground arith) in
          let (q, m', h'') = (any_iff (clashes r) b.switch_rails).0 h' in
          let (same, differ) = (clashes_iff r q).0 h'' in
          record {
            first = a;
            second = b;
            at_first = e;
            at_second = e';
            rails = r;
            other = q;
            of_first = m;
            of_second = m';
            same_switch = same;
            positions = differ;
          }
    ]
  ],
  λ o.
      let inner =
        (any_iff (clashes o.rails) o.second.switch_rails).1
          (o.other, o.of_second, (clashes_iff o.rails o.other).1 (o.same_switch, o.positions)) in
      let outer =
        (any_iff (λ r. any (clashes r) o.second.switch_rails) o.first.switch_rails).1
          (o.rails, o.of_first, inner) in
      ground (arith, o.at_first, o.at_second, outer),
)

-- The table lists a conflict exactly where two segments want one switch in two positions.
pub IsConflict-iff_IsOpposed : (s t : SegmentId) → IsConflict new s t ↔ IsOpposed new s t
IsConflict-iff_IsOpposed s t =
    let same = agree→eq _ _ (every_segment_sound _ t (every_segment_sound _ s conflicts_table)) in
    (
      λ c. (opposed_iff new s t).0 (sym same ∙ (conflicting_iff new s t).1 c),
      λ o. (conflicting_iff new s t).0 (same ∙ (opposed_iff new s t).1 o),
    )

-- Conflicts are mutual.
pub IsConflict-symm : {s t : SegmentId} → IsConflict new s t → IsConflict new t s
IsConflict-symm {s} {t} c =
    let o = (IsConflict-iff_IsOpposed s t).0 c in
    (IsConflict-iff_IsOpposed t s).1 (record {
      first = o.second;
      second = o.first;
      at_first = o.at_second;
      at_second = o.at_first;
      rails = o.other;
      other = o.rails;
      of_first = o.of_second;
      of_second = o.of_first;
      same_switch = sym o.same_switch;
      positions = λ e. o.positions (sym e);
    })

own_conflicts_table : every_segment (λ s. not (conflicting new s s)) ≡ true
unfolding every_segment conflicting get new
own_conflicts_table = refl

-- No segment conflicts with itself.
pub IsConflict-irrefl : (s : SegmentId) → ¬ IsConflict new s s
IsConflict-irrefl s c =
    let none_here = every_segment_sound _ s own_conflicts_table in
    let here = (conflicting_iff new s s).1 c in absurd (ground arith)
