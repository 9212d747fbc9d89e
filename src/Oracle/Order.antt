-- ===== src/Oracle/Order.antt =====
-- `sort_active_segments` of loco_controller/src/oracle.rs.
use mathlib.Core.Option
use locoloco.Common.{
  ℕ, zero, suc, Option, none, some, List, [], ◌∷◌, ◌++◌, ◌==◌, ◌&&◌, get, sort_by_key,
  if◌then◌else◌,
}
use locoloco.Protocol.Types.{LocoId, loco_id_eq}
use locoloco.RailNetwork.Types.{SegmentId, segment_id_eq, rank, priority2}
use locoloco.Oracle.Types.{ActiveSegment}

-- the inner loop: the first place in the list with the segment `sid`, if `sid` is also `last`
unfoldable pub insertion_idx : SegmentId → SegmentId → List ActiveSegment → Option ℕ
insertion_idx sid last [] = none
insertion_idx sid last (s ∷ rest) =
    let later = Option.map suc (insertion_idx sid last rest) in
    elim s.id [
      | some sorted_sid ↦ if sid == sorted_sid && sid == last then some 0 else later
      | none ↦ later
    ]

-- `Vec::insert`, at an index of the vector
unfoldable pub insert_at {ℓ} : {A : Type ℓ} → ℕ → A → List A → List A
insert_at zero x ys = x ∷ ys
insert_at (suc i) x [] = x ∷ []
insert_at (suc i) x (y ∷ ys) = y ∷ insert_at i x ys

-- one round of the first loop
unfoldable pub place :
    List (LocoId × SegmentId) → List ActiveSegment → ActiveSegment → List ActiveSegment
unfolding insertion_idx insert_at get
place last_segment_id sorted s = elim s.id [
  | none ↦ sorted ++ s ∷ []
  | some sid ↦ elim (get last_segment_id s.loco_id) [
    | none ↦ sorted ++ s ∷ []
    | some last ↦ elim (insertion_idx sid last sorted) [
      | none ↦ sorted ++ s ∷ []
      | some i ↦ insert_at i s sorted
    ]
  ]
]

-- the first loop
unfoldable pub place_all :
    List (LocoId × SegmentId) → (sorted segments : List ActiveSegment) → List ActiveSegment
unfolding place
place_all last_segment_id sorted [] = sorted
place_all last_segment_id sorted (s ∷ rest) =
    place_all last_segment_id (place last_segment_id sorted s) rest

-- the sort key
abbrev pub priority_key : ActiveSegment → ℕ
priority_key s = elim s.segment [ some segment ↦ rank segment.priority | none ↦ rank priority2 ]

unfoldable pub sort_active_segments :
    List (LocoId × SegmentId) → List ActiveSegment → List ActiveSegment
unfolding place_all sort_by_key
sort_active_segments last_segment_id active_segments =
    sort_by_key priority_key (place_all last_segment_id [] active_segments)
