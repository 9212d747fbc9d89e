-- ===== src/Oracle/Switches.antt =====
-- The switches of one round (loco_controller/src/oracle.rs).
use mathlib.Core.List.{map-append}
use locoloco.Common.{
  ◌≡◌, refl, sym, ap, subst, ◌∙◌, Option, none, some, List, [], ◌∷◌, ◌++◌, map, map-In, append-nil,
  append_assoc, get, All, In, In-append, In-append_left, In-append_right, Option-cases, inl, inr,
  ◌⊎◌, arith, ok-injective,
}
use locoloco.Protocol.Types.{LocoId}
use locoloco.Protocol.SwitchRailsState
use locoloco.RailNetwork.Types.{SegmentId, Segment, SwitchRails, segment_id_eq}
use locoloco.RailNetwork.Tables.{new}
use locoloco.Oracle.Types.{ActiveSegment}
use locoloco.Oracle.Controls.{
  Controls, actuator_control, grant, deny, control, control_all, determine_controls,
}
use locoloco.Oracle.Commands.{
  entered, added, moving, commands, moving-commands_cons, busy_segment_ids-control,
}
use locoloco.Oracle.Safety.{IsFromTable, actuator_controls_agree}

-- The switches of the segment that a loco may enter while `busy` is taken.
abbrev granted : List SegmentId → ActiveSegment → List SwitchRails
granted busy s = elim (entered busy s) [
  | none ↦ []
  | some _ ↦ elim s.segment [ none ↦ [] | some segment ↦ segment.switch_rails ]
]

-- The switches that are driven, in order.
unfoldable pub rails : List SegmentId → List ActiveSegment → List SwitchRails
rails busy [] = []
rails busy (s ∷ rest) = granted busy s ++ rails (busy ++ added (entered busy s)) rest

actuator_controls-control :
    (c : Controls) (s : ActiveSegment)
    → (control c s).actuator_controls
      ≡ c.actuator_controls ++ map actuator_control (granted c.busy_segment_ids s)
unfolding control grant deny
actuator_controls-control c s = ground (arith, append-nil c.actuator_controls)

actuator_controls-control_all :
    (c : Controls) (segments : List ActiveSegment)
    → (control_all c segments).actuator_controls
      ≡ c.actuator_controls ++ map actuator_control (rails c.busy_segment_ids segments)
unfolding control_all rails
actuator_controls-control_all c [] = sym (append-nil _)
actuator_controls-control_all c (s ∷ rest) = rw (
  actuator_controls-control_all (control c s) rest,
  actuator_controls-control c s,
  busy_segment_ids-control c s,
  append_assoc,
  map-append,
)

-- The commands for the actuators drive these switches, in this order.
pub actuator_controls-determine_controls :
    (last : List (LocoId × SegmentId)) (segments : List ActiveSegment)
    → (determine_controls last segments).actuator_controls
      ≡ map actuator_control (rails [] segments)
unfolding determine_controls
actuator_controls-determine_controls last segments = actuator_controls-control_all _ segments

entered-entry :
    (busy : List SegmentId) (s : ActiveSegment) (id : SegmentId)
    → entered busy s ≡ some id
    → IsFromTable s
    → (segment : Segment) × (get new.segments id ≡ some segment)
      × (granted busy s ≡ segment.switch_rails)
entered-entry busy s id e t = elim (Option-cases s.id) [
  | inl f ↦ absurd (ground arith)
  | inr (i, f) ↦ elim (Option-cases s.segment) [
    | inl g ↦ absurd (ground arith)
    | inr (segment, g) ↦
        let same : i ≡ id = ground arith in
        (segment, t id segment (f ∙ ap some same) g, ground arith)
  ]
]

-- An entry of the table.
abbrev pub Entry : SegmentId → Type 0
Entry id = (segment : Segment) × (get new.segments id ≡ some segment)

taken-cons :
    (busy : List SegmentId) (s : ActiveSegment) (rest : List ActiveSegment) (id : SegmentId)
    → In id (moving (s ∷ rest) (commands busy (s ∷ rest)))
    → (entered busy s ≡ some id)
      ⊎ In id (moving rest (commands (busy ++ added (entered busy s)) rest))
taken-cons busy s rest id m =
    let m' = subst (In id) (moving-commands_cons busy s rest) m in
    elim (In-append id (added (entered busy s)) _ m') [
      | inr later ↦ inr later
      | inl here ↦ elim (Option-cases (entered busy s)) [
        | inl e ↦ absurd (subst (λ (o : Option SegmentId). In id (added o)) e here)
        | inr (i, e) ↦ elim (subst (λ (o : Option SegmentId). In id (added o)) e here) [
          | inl same ↦ inl (e ∙ ap some same)
          | inr beyond ↦ absurd beyond
        ]
      ]
    ]

pub taken-here :
    (busy : List SegmentId) (s : ActiveSegment) (rest : List ActiveSegment) (id : SegmentId)
    → entered busy s ≡ some id
    → In id (moving (s ∷ rest) (commands busy (s ∷ rest)))
taken-here busy s rest id e = subst (In id) (sym (moving-commands_cons busy s rest)) (
    In-append_left id (added (entered busy s)) _
      (subst (λ (o : Option SegmentId). In id (added o)) (sym e) (inl refl)))

pub taken-later :
    (busy : List SegmentId) (s : ActiveSegment) (rest : List ActiveSegment) (id : SegmentId)
    → In id (moving rest (commands (busy ++ added (entered busy s)) rest))
    → In id (moving (s ∷ rest) (commands busy (s ∷ rest)))
taken-later busy s rest id m =
    subst (In id) (sym (moving-commands_cons busy s rest))
      (In-append_right id (added (entered busy s)) _ m)

pub rails_complete :
    (busy : List SegmentId) (segments : List ActiveSegment) (id : SegmentId)
    → All IsFromTable segments
    → In id (moving segments (commands busy segments))
    → (entry : Entry id) × ((r : SwitchRails)
        → In r entry.0.switch_rails
        → In r (rails busy segments))
unfolding rails moving
rails_complete busy [] id t m = absurd m
rails_complete busy (s ∷ rest) id t m =
    let busy' = busy ++ added (entered busy s) in
    elim (taken-cons busy s rest id m) [
      | inl here ↦
          let (segment, e, own) = entered-entry busy s id here t.0 in
          (
            (segment, e),
            λ r n. In-append_left r (granted busy s) (rails busy' rest) (subst (In r) (sym own) n),
          )
      | inr later ↦
          let (entry, f) = rails_complete busy' rest id t.1 later in
          (entry, λ r n. In-append_right r (granted busy s) (rails busy' rest) (f r n))
    ]

pub rails_sound :
    (busy : List SegmentId) (segments : List ActiveSegment) (r : SwitchRails)
    → All IsFromTable segments
    → In r (rails busy segments)
    → (id : SegmentId) × (entry : Entry id) × In id (moving segments (commands busy segments))
      × In r entry.0.switch_rails
unfolding rails moving
rails_sound busy [] r t m = absurd m
rails_sound busy (s ∷ rest) r t m =
    let busy' = busy ++ added (entered busy s) in
    elim (In-append r (granted busy s) (rails busy' rest) m) [
      | inl here ↦ elim (Option-cases (entered busy s)) [
        | inl e ↦ absurd (ground arith)
        | inr (id, e) ↦
            let (segment, at, own) = entered-entry busy s id e t.0 in
            (id, (segment, at), taken-here busy s rest id e, subst (In r) own here)
      ]
      | inr later ↦
          let (id, entry, n, f) = rails_sound busy' rest r t.1 later in
          (id, entry, taken-later busy s rest id n, f)
    ]

position : (a b : SwitchRails) → (actuator_control a).2 ≡ (actuator_control b).2 → a.state ≡ b.state
position a b e =
    let code = SwitchRailsState.into-IsCode in
    ok-injective
      (sym (code.from_into a.state) ∙ ap SwitchRailsState.try_from e ∙ code.from_into b.state)

-- Two of them for one switch want one position.
pub rails_agree :
    (last : List (LocoId × SegmentId)) (segments : List ActiveSegment) (a b : SwitchRails)
    → All IsFromTable segments
    → In a (rails [] segments)
    → In b (rails [] segments)
    → a.actuator_id ≡ b.actuator_id
    → a.state ≡ b.state
rails_agree last segments a b t m n same =
    let l = actuator_controls-determine_controls last segments in
    let commanded = λ (r : SwitchRails) (h : In r (rails [] segments)).
      subst (In (actuator_control r)) (sym l) (map-In actuator_control r (rails [] segments) h) in
    position a b (
      actuator_controls_agree last segments (actuator_control a) (actuator_control b) t
        (commanded a m) (commanded b n) same)
