-- ===== src/Oracle/Round.antt =====
-- One whole round of the automatic mode, from the states of the locos to the commands.
use mathlib.Core.List.{Perm}
use mathlib.Core.List.Perm
use locoloco.Common.{
  ◌≡◌, refl, ap, subst, sym, ◌∙◌, ok-injective, All, none, some, List, [], ◌∷◌, ◌++◌, map, ok,
  All-In, All-of, In, arith,
}
use locoloco.Protocol.Types.{LocoId}
use locoloco.RailNetwork.Types.{SegmentId, CheckpointId}
use locoloco.Backend.Types.{LocoIntent}
use locoloco.RailNetwork.Tables.{new}
use locoloco.Oracle.Types.{ActiveLoco, ActiveSegment, ActuatorControl, LocoControl}
use locoloco.Oracle.Segments.{determine_active_segments_from}
use locoloco.Oracle.Order.{sort_active_segments}
use locoloco.Oracle.Controls.{Controls, determine_controls}
use locoloco.Oracle.Commands.{entered, added, moving, commands, loco_controls-determine_controls}
use locoloco.Oracle.Safety.{IsFromTable, IsExclusive, moving-IsExclusive, actuator_controls_agree}
use locoloco.Oracle.Intents.{Planned, Plans, done, skip, plan, waits, wants}
use locoloco.Oracle.Plans.{determine_active_segments-Plans, Plans-IsFromTable}
use locoloco.Oracle.Ordering.{sort_active_segments-perm, In-sort_active_segments}

-- The locos with a location and an intent.
abbrev pub ready : List ActiveLoco → List LocoId
ready [] = []
ready (l ∷ ls) = elim l.location [
  | none ↦ ready ls
  | some _ ↦ elim l.intent [ none ↦ ready ls | some _ ↦ l.id ∷ ready ls ]
]

-- What a round does with the active segments that it found.
pub record IsSafeRound (last : List (LocoId × SegmentId)) (locos : List ActiveLoco)
    (segments : List ActiveSegment) (c : Controls) : Type 0 where
  -- the segments that locos are sent onto are distinct and without conflict
  pub exclusive : IsExclusive (moving (sort_active_segments last segments) c.loco_controls)
  -- each switch is driven to one position
  pub switches :
      (a b : ActuatorControl)
      → In a c.actuator_controls
      → In b c.actuator_controls
      → a.0 ≡ b.0
      → a.2 ≡ b.2
  -- each loco with a location and an intent has one command, and no other loco has any
  pub commanded : Perm (map (λ (k : LocoControl). k.0) c.loco_controls) (ready locos)

map-commands :
    (busy : List SegmentId) (segments : List ActiveSegment)
    → map (λ (k : LocoControl). k.0) (commands busy segments)
      ≡ map (λ (s : ActiveSegment). s.loco_id) segments
unfolding commands
map-commands busy [] = refl
map-commands busy (s ∷ rest) =
    ap (◌∷◌ s.loco_id) (map-commands (busy ++ added (entered busy s)) rest)

Planned-loco_id :
    {all : List ActiveLoco} {loco_id : LocoId} {here : CheckpointId} {intent : LocoIntent}
    {s : ActiveSegment}
    → Planned all loco_id here intent s
    → s.loco_id ≡ loco_id
Planned-loco_id (waits w) = refl
Planned-loco_id (wants id found w at) = refl

Plans-ready :
    {all : List ActiveLoco} {ls : List ActiveLoco} {ss : List ActiveSegment}
    → Plans all ls ss
    → map (λ (s : ActiveSegment). s.loco_id) ss ≡ ready ls
Plans-ready done = refl
Plans-ready (skip w p) = let ih = Plans-ready p in ground arith
Plans-ready (plan here intent at wish q p) =
    let ih = Plans-ready p in let first = Planned-loco_id q in ground arith

-- Whatever the states of the locos and whatever segments they used last, a round on the tables of
-- `new` finds its active segments, and its commands are safe: the segments that locos are sent onto
-- are distinct and without conflict, each switch is driven to one position at most, and the locos
-- that are commanded are those with a location and an intent, once each.
pub round-IsSafeRound :
    (last : List (LocoId × SegmentId)) (locos : List ActiveLoco)
    → (segments : List ActiveSegment) × (determine_active_segments_from new locos ≡ ok segments)
      × IsSafeRound last locos segments
          (determine_controls last (sort_active_segments last segments))
round-IsSafeRound last locos =
    let (segments, e, p) = determine_active_segments-Plans locos in
    let sorted = sort_active_segments last segments in
    let table = All-of IsFromTable sorted (λ s m.
      All-In IsFromTable s segments (Plans-IsFromTable p)
        (In-sort_active_segments last segments s m)) in
    (
      segments,
      e,
      record {
        exclusive = moving-IsExclusive last sorted table;
        switches = λ a b m n same. actuator_controls_agree last sorted a b table m n same;
        commanded =
            subst (λ l. Perm (map (λ (k : LocoControl). k.0) l) (ready locos))
              (sym (loco_controls-determine_controls last sorted))
              (subst (λ l. Perm l (ready locos)) (sym (map-commands [] sorted))
                (subst (Perm (map (λ (s : ActiveSegment). s.loco_id) sorted)) (Plans-ready p) (
                  Perm.map (λ (s : ActiveSegment). s.loco_id)
                    (sort_active_segments-perm last segments))));
      },
    )

-- The active segments of a round carry their entries, in the order in which they are served.
pub sorted-IsFromTable :
    (last : List (LocoId × SegmentId)) (locos : List ActiveLoco) (segments : List ActiveSegment)
    → determine_active_segments_from new locos ≡ ok segments
    → All IsFromTable (sort_active_segments last segments)
sorted-IsFromTable last locos segments e =
    let (segments', e', p) = determine_active_segments-Plans locos in
    let same = ok-injective (sym e' ∙ e) in
    All-of IsFromTable (sort_active_segments last segments) (λ s m.
      All-In IsFromTable s segments (subst (All IsFromTable) same (Plans-IsFromTable p))
        (In-sort_active_segments last segments s m))
