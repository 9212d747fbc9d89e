-- ===== src/Oracle/Ordering.antt =====
-- What `sort_active_segments` does to the order of the active segments
-- (loco_controller/src/oracle.rs).
use mathlib.Core.List.{Perm, perm_middle}
use mathlib.Core.List.Perm
use locoloco.Common.{
  ℕ, zero, suc, ◌≡◌, ◌≢◌, ◌⊎◌, sym, subst, some, List, [], ◌∷◌, ◌++◌, append-nil, get,
  sort_by_key-perm, In, In-append, In-sort_by_key, Option-cases, inl, inr, arith,
}
use locoloco.Protocol.Types.{LocoId, loco_id_eq}
use locoloco.RailNetwork.Types.{SegmentId, segment_id_eq}
use locoloco.Oracle.Types.{ActiveSegment}
use locoloco.Oracle.Order.{
  insertion_idx, insert_at, place, place_all, priority_key, sort_active_segments,
}

insert_at-perm {ℓ} : {A : Type ℓ} (i : ℕ) (x : A) (ys : List A) → Perm (insert_at i x ys) (x ∷ ys)
unfolding insert_at
insert_at-perm zero x ys = Perm.rfl
insert_at-perm (suc i) x [] = Perm.rfl
insert_at-perm (suc i) x (y ∷ ys) =
    Perm.trans (Perm.cons y (insert_at-perm i x ys)) (Perm.swap x y ys)

In-insert_at :
    {A : Type 0} (i : ℕ) (x t : A) (ys : List A) → In t (insert_at i x ys) → In t (x ∷ ys)
unfolding insert_at
In-insert_at zero x t ys m = m
In-insert_at (suc i) x t [] m = m
In-insert_at (suc i) x t (y ∷ ys) (inl e) = inr (inl e)
In-insert_at (suc i) x t (y ∷ ys) (inr m) = elim (In-insert_at i x t ys m) [
  | inl e ↦ inl e
  | inr n ↦ inr (inr n)
]

push-perm {ℓ} : {A : Type ℓ} (x : A) (ys : List A) → Perm (ys ++ x ∷ []) (x ∷ ys)
push-perm x ys = rw append-nil at (perm_middle {a = x} ys [])

module _ (last : List (LocoId × SegmentId)) where
  -- `place` appends the active segment, or inserts it somewhere.
  place_cases :
      (sorted : List ActiveSegment) (s : ActiveSegment)
      → (place last sorted s ≡ sorted ++ s ∷ [])
        ⊎ ((i : ℕ) × (place last sorted s ≡ insert_at i s sorted))
  unfolding place
  place_cases sorted s = elim (Option-cases s.id) [
    | inl e ↦ inl (ground arith)
    | inr (id, e) ↦ elim (Option-cases (get last s.loco_id)) [
      | inl f ↦ inl (ground arith)
      | inr (before, f) ↦ elim (Option-cases (insertion_idx id before sorted)) [
        | inl g ↦ inl (ground arith)
        | inr (i, g) ↦ inr (i, ground arith)
      ]
    ]
  ]

  place-perm :
      (sorted : List ActiveSegment) (s : ActiveSegment) → Perm (place last sorted s) (s ∷ sorted)
  place-perm sorted s = elim (place_cases sorted s) [
    | inl e ↦ subst (λ l. Perm l (s ∷ sorted)) (sym e) (push-perm s sorted)
    | inr (i, e) ↦ subst (λ l. Perm l (s ∷ sorted)) (sym e) (insert_at-perm i s sorted)
  ]

  place_all-perm :
      (sorted rest : List ActiveSegment) → Perm (place_all last sorted rest) (rest ++ sorted)
  unfolding place_all
  place_all-perm sorted [] = Perm.rfl
  place_all-perm sorted (s ∷ rest) =
      Perm.trans (place_all-perm (place last sorted s) rest)
        (Perm.trans (Perm.append_left rest (place-perm sorted s)) (perm_middle rest sorted))

  In-place :
      (sorted : List ActiveSegment) (s t : ActiveSegment)
      → In t (place last sorted s)
      → In t (s ∷ sorted)
  In-place sorted s t m = elim (place_cases sorted s) [
    | inl e ↦ elim (In-append t sorted (s ∷ []) (subst (In t) e m)) [
      | inl n ↦ inr n
      | inr (inl f) ↦ inl f
      | inr (inr n) ↦ absurd n
    ]
    | inr (i, e) ↦ In-insert_at i s t sorted (subst (In t) e m)
  ]

  In-place_all :
      (sorted rest : List ActiveSegment) (t : ActiveSegment)
      → In t (place_all last sorted rest)
      → In t rest ⊎ In t sorted
  unfolding place_all
  In-place_all sorted [] t m = inr m
  In-place_all sorted (s ∷ rest) t m = elim (In-place_all (place last sorted s) rest t m) [
    | inl n ↦ inl (inr n)
    | inr n ↦ elim (In-place sorted s t n) [ inl e ↦ inl (inl e) | inr k ↦ inr k ]
  ]

  pub In-sort_active_segments :
      (segments : List ActiveSegment) (t : ActiveSegment)
      → In t (sort_active_segments last segments)
      → In t segments
  unfolding sort_active_segments
  In-sort_active_segments segments t m =
      elim (In-place_all [] segments t
        (In-sort_by_key priority_key t (place_all last [] segments) m)) [
          | inl n ↦ n
          | inr n ↦ absurd n
        ]

  -- The sort loses no active segment and adds none.
  pub sort_active_segments-perm :
      (segments : List ActiveSegment) → Perm (sort_active_segments last segments) segments
  unfolding sort_active_segments
  sort_active_segments-perm segments =
      Perm.trans (sort_by_key-perm priority_key (place_all last [] segments))
        (rw append-nil at (place_all-perm [] segments))

  -- Of two locos that want one segment, the one that was sent onto it before comes first, in
  -- whichever order the two are given, if the other was not.
  pub ahead_first :
      (ahead behind : ActiveSegment) (id : SegmentId)
      → ahead.id ≡ some id
      → behind.id ≡ some id
      → ahead.segment ≡ behind.segment
      → get last ahead.loco_id ≡ some id
      → get last behind.loco_id ≢ some id
      → (sort_active_segments last (ahead ∷ behind ∷ []) ≡ ahead ∷ behind ∷ [])
        × (sort_active_segments last (behind ∷ ahead ∷ []) ≡ ahead ∷ behind ∷ [])
  unfolding sort_active_segments
  ahead_first ahead behind id a b same la lb = elim (Option-cases (get last behind.loco_id)) [
    | inl f ↦ ground (arith, segment_id_eq.beq_iff id id)
    | inr (other, f) ↦ ground (arith, segment_id_eq.beq_iff id id, segment_id_eq.beq_iff id other)
  ]
