-- ===== src/RailNetwork/Topology.antt =====
-- How the entries of the tables of `RailNetwork::new` fit together: neighbours and segments
-- (loco_controller/src/rail_network.rs).
use locoloco.Common.{
  ◌≡◌, refl, ◌⊎◌, ◌↔◌, inl, inr, Bool, true, false, ◌&&◌, ◌||◌, none, some, List, Result, ok, err,
  panic, contains, contains_iff_In, get, Bool-cases, Option-cases, agree, agree→eq, sym, ◌∙◌, arith,
}
use locoloco.Protocol.Types.{Direction, forward, backward, actuator_id_eq}
use locoloco.RailNetwork.Types.{
  Error, CheckpointId, SegmentId, Checkpoint, Segment, checkpoint_id_eq, segment_id_eq,
  direction_eq, RailNetwork, checkpoint1, checkpoint2, checkpoint3, checkpoint4, checkpoint5,
  checkpoint6, segment1, segment2, segment3, segment4, segment5, segment6, segment7, segment8,
  segment9, segment10,
}
use locoloco.RailNetwork.Convert.{try_into_segment_id}
use locoloco.RailNetwork.Tables.{new}
use locoloco.RailNetwork.Every.{every_checkpoint, every_checkpoint_sound}
use locoloco.RailNetwork.Soundness.{IsNext}

-- Every segment is in the table, so `RailNetwork::segment` does not panic.
pub get_segment : (s : SegmentId) → (seg : Segment) × (get new.segments s ≡ some seg)
unfolding get new
get_segment segment1 = (_, refl)
get_segment _ = (_, refl)

-- Every checkpoint is in the table, and every direction in its entry, so no `unwrap` panics.
pub get_checkpoint :
    (a : CheckpointId) (d : Direction)
    → (cp : Checkpoint) × (ids : List CheckpointId) × (get new.checkpoints a ≡ some cp)
      × (get cp.checkpoint_ids d ≡ some ids)
unfolding get new
get_checkpoint checkpoint1 forward = (_, _, refl, refl)
get_checkpoint checkpoint2 forward = (_, _, refl, refl)
get_checkpoint checkpoint3 forward = (_, _, refl, refl)
get_checkpoint checkpoint4 forward = (_, _, refl, refl)
get_checkpoint checkpoint5 forward = (_, _, refl, refl)
get_checkpoint checkpoint6 forward = (_, _, refl, refl)
get_checkpoint CheckpointId.station1 forward = (_, _, refl, refl)
get_checkpoint CheckpointId.station2 forward = (_, _, refl, refl)
get_checkpoint _ _ = (_, _, refl, refl)

-- `b` stands in the table behind `a`
listed : RailNetwork → Direction → CheckpointId → CheckpointId → Bool
listed net d a b = elim (get net.checkpoints a) [
  | some cp ↦ elim (get cp.checkpoint_ids d) [ some ids ↦ contains ids b | none ↦ false ]
  | none ↦ false
]

listed-IsNext :
    (net : RailNetwork) (d : Direction) (a b : CheckpointId)
    → listed net d a b ≡ true
    → IsNext net d a b
unfolding listed
listed-IsNext net d a b h = elim (Option-cases (get net.checkpoints a)) [
  | inl e ↦ absurd (ground arith)
  | inr (cp, e) ↦ elim (Option-cases (get cp.checkpoint_ids d)) [
    | inl e' ↦ absurd (ground arith)
    | inr (ids, e') ↦
        let m = (contains_iff_In ids b).0 (ground arith) in
        record { cp = cp; ids = ids; at = e; towards = e'; listed = m }
  ]
]

IsNext-listed :
    (net : RailNetwork) (d : Direction) (a b : CheckpointId)
    → IsNext net d a b
    → listed net d a b ≡ true
unfolding listed
IsNext-listed net d a b n = ground (arith, n.at, n.towards, (contains_iff_In n.ids b).1 n.listed)

is_ok : Result Error SegmentId → Bool
is_ok (ok s) = true
is_ok _ = false

is_ok_iff : (r : Result Error SegmentId) → (is_ok r ≡ true) ↔ ((s : SegmentId) × (r ≡ ok s))
unfolding is_ok
is_ok_iff (ok s) = (λ _. (s, refl), λ _. refl)
is_ok_iff (err e) = (λ h. absurd (cc), λ (s, h). cc)
is_ok_iff panic = (λ h. absurd (cc), λ (s, h). cc)

neighbours_table :
    every_checkpoint (λ a. every_checkpoint (λ b.
      agree (is_ok (try_into_segment_id a b)) (listed new forward a b || listed new backward a b)
      && agree (listed new forward a b) (listed new backward b a)))
    ≡ true
unfolding every_checkpoint is_ok try_into_segment_id listed get new
neighbours_table = refl

neighbours :
    (a b : CheckpointId)
    → (is_ok (try_into_segment_id a b) ≡ (listed new forward a b || listed new backward a b))
      × (listed new forward a b ≡ listed new backward b a)
neighbours a b =
    let row = every_checkpoint_sound _ b (every_checkpoint_sound _ a neighbours_table) in
    (agree→eq _ _ (ground arith), agree→eq _ _ (ground arith))

-- Two checkpoints have a segment between them exactly when the table lists the second behind the
-- first in one of the two directions.
pub try_into_segment_id_iff :
    (a b : CheckpointId)
    → ((s : SegmentId) × (try_into_segment_id a b ≡ ok s))
      ↔ (IsNext new forward a b ⊎ IsNext new backward a b)
try_into_segment_id_iff a b = (
  λ h. elim (Bool-cases (listed new forward a b)) [
    | inl f ↦ inl (listed-IsNext new forward a b f)
    | inr f ↦ inr (
        listed-IsNext new backward a b
          (ground (arith, (neighbours a b).0, (is_ok_iff (try_into_segment_id a b)).1 h)))
  ],
  λ n. (is_ok_iff (try_into_segment_id a b)).0 (elim n [
    | inl f ↦ ground (arith, (neighbours a b).0, IsNext-listed new forward a b f)
    | inr f ↦ ground (arith, (neighbours a b).0, IsNext-listed new backward a b f)
  ]),
)

-- The two directions are opposite: `b` is behind `a` forward exactly when `a` is behind `b` backward.
pub IsNext-opposite : (a b : CheckpointId) → IsNext new forward a b ↔ IsNext new backward b a
IsNext-opposite a b = (
  λ n. listed-IsNext new backward b a (sym (neighbours a b).1 ∙ IsNext-listed new forward a b n),
  λ n. listed-IsNext new forward a b ((neighbours a b).1 ∙ IsNext-listed new backward b a n),
)

-- The segment between two checkpoints does not depend on the direction of travel.
pub try_into_segment_id_comm :
    (a b : CheckpointId) → try_into_segment_id a b ≡ try_into_segment_id b a
unfolding try_into_segment_id
try_into_segment_id_comm a b = ground arith

-- the two ends of a segment
ends : SegmentId → CheckpointId × CheckpointId
ends segment1 = (checkpoint1, checkpoint2)
ends segment2 = (checkpoint2, checkpoint3)
ends segment3 = (checkpoint3, checkpoint4)
ends segment4 = (checkpoint4, checkpoint5)
ends segment5 = (checkpoint5, checkpoint6)
ends segment6 = (checkpoint6, checkpoint1)
ends segment7 = (checkpoint6, CheckpointId.station1)
ends segment8 = (CheckpointId.station1, checkpoint2)
ends segment9 = (checkpoint3, CheckpointId.station2)
ends segment10 = (checkpoint5, CheckpointId.station2)

abbrev SamePair : CheckpointId × CheckpointId → CheckpointId → CheckpointId → Type 0
SamePair p a b = ((p.0 ≡ a) × (p.1 ≡ b)) ⊎ ((p.0 ≡ b) × (p.1 ≡ a))

try_into_segment_id-ends :
    (a b : CheckpointId) (s : SegmentId) → try_into_segment_id a b ≡ ok s → SamePair (ends s) a b
unfolding try_into_segment_id ends
try_into_segment_id-ends a b s h = ground arith

-- No two stretches of rail share a segment: pairs of checkpoints with one segment are the same pair,
-- in the same or in the opposite order.
try_into_segment_id_injective :
    (a b c d : CheckpointId) (s : SegmentId)
    → try_into_segment_id a b ≡ ok s
    → try_into_segment_id c d ≡ ok s
    → ((a ≡ c) × (b ≡ d)) ⊎ ((a ≡ d) × (b ≡ c))
try_into_segment_id_injective a b c d s h k =
    ground (arith, try_into_segment_id-ends a b s h, try_into_segment_id-ends c d s k)
