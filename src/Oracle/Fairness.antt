-- ===== src/Oracle/Fairness.antt =====
-- The two loops and the sort of `sort_active_segments` (loco_controller/src/oracle.rs), for locos that
-- want one segment.
use mathlib.Core.Option
use locoloco.Common.{
  ℕ, suc, ◌<◌, ◌≡◌, ◌≢◌, ◌⊎◌, refl, sym, ap, ◌∙◌, subst, false, Option, none, some, List, [], ◌∷◌,
  ◌++◌, ◌==◌, get, All, Bool-cases, Option-cases, inl, inr, arith, Pairwise, Pairwise-push,
  sort_by_key-Pairwise,
}
use locoloco.Protocol.Types.{LocoId, loco_id_eq}
use locoloco.RailNetwork.Types.{SegmentId, segment_id_eq}
use locoloco.RailNetwork.Tables.{new}
use locoloco.Oracle.Types.{ActiveSegment}
use locoloco.Oracle.Order.{
  insertion_idx, insert_at, place, place_all, priority_key, sort_active_segments,
}
use locoloco.Oracle.Priorities.{priority_key-rank}

-- Both locos want one segment, and the second was sent onto it before, but the first was not.
pub record IsOvertaken (last : List (LocoId × SegmentId)) (s t : ActiveSegment) : Type 0 where
  pub id : SegmentId
  pub first : s.id ≡ some id
  pub second : t.id ≡ some id
  pub not_before : get last s.loco_id ≢ some id
  pub before : get last t.loco_id ≡ some id

-- what it wants has its entry of the table
abbrev pub IsEntered : ActiveSegment → Type 0
IsEntered s = (id : SegmentId) → s.id ≡ some id → s.segment ≡ get new.segments id

module _ (last : List (LocoId × SegmentId)) where
  -- the relation that the two loops keep
  abbrev pub Fair : ActiveSegment → ActiveSegment → Type 0
  Fair s t = IsEntered s → IsEntered t → ¬ IsOvertaken last s t

  -- one that was not sent onto its segment before may stand behind any
  push-Fair :
      (sorted : List ActiveSegment) (s : ActiveSegment)
      → ((id : SegmentId) → s.id ≡ some id → get last s.loco_id ≢ some id)
      → Pairwise Fair sorted
      → Pairwise Fair (sorted ++ s ∷ [])
  push-Fair sorted s new_there p = Pairwise-push Fair sorted s p (behind sorted)
    where
      behind : (l : List ActiveSegment) → All (λ t. Fair t s) l
      behind [] = tt
      behind (t ∷ l) = (λ _ _ o. new_there o.id o.second o.before, behind l)

  -- at the index that was found, or behind all
  abbrev pub at_index : Option ℕ → ActiveSegment → List ActiveSegment → List ActiveSegment
  at_index none s sorted = sorted ++ s ∷ []
  at_index (some i) s sorted = insert_at i s sorted

  at_index-suc :
      (o : Option ℕ) (s x : ActiveSegment) (xs : List ActiveSegment)
      → at_index (Option.map suc o) s (x ∷ xs) ≡ x ∷ at_index o s xs
  unfolding insert_at
  at_index-suc none s x xs = refl
  at_index-suc (some i) s x xs = refl

  -- one that was sent onto its segment before
  abbrev put : SegmentId → ActiveSegment → List ActiveSegment → List ActiveSegment
  put id s sorted = at_index (insertion_idx id id sorted) s sorted

  module _ (id : SegmentId) (s x : ActiveSegment) (xs : List ActiveSegment) where
    insertion_idx-hit : x.id ≡ some id → insertion_idx id id (x ∷ xs) ≡ some 0
    unfolding insertion_idx
    insertion_idx-hit e = ground (arith, segment_id_eq.beq_iff id id)

    insertion_idx-miss :
        x.id ≢ some id → insertion_idx id id (x ∷ xs) ≡ Option.map suc (insertion_idx id id xs)
    unfolding insertion_idx
    insertion_idx-miss h = elim (Option-cases x.id) [
      | inl e ↦ simp e refl
      | inr (other, e) ↦ elim (Bool-cases (id == other)) [
        | inl f ↦ absurd (h (e ∙ ap some (sym ((segment_id_eq.beq_iff id other).0 f))))
        | inr f ↦ simp (e, f) refl
      ]
    ]

    put-hit : x.id ≡ some id → put id s (x ∷ xs) ≡ s ∷ x ∷ xs
    put-hit e = ap (λ o. at_index o s (x ∷ xs)) (insertion_idx-hit e) ∙ (unfold insert_at in refl)

    put-miss : x.id ≢ some id → put id s (x ∷ xs) ≡ x ∷ put id s xs
    put-miss h =
        ap (λ o. at_index o s (x ∷ xs)) (insertion_idx-miss h)
        ∙ at_index-suc (insertion_idx id id xs) s x xs

  module _ (id : SegmentId) (s : ActiveSegment) (wanted : s.id ≡ some id)
      (before : get last s.loco_id ≡ some id) where
    wants_cases : (x : ActiveSegment) → (x.id ≡ some id) ⊎ (x.id ≢ some id)
    wants_cases x = elim (Option-cases x.id) [
      | inl e ↦ inr (λ f. cc (e, f))
      | inr (other, e) ↦ elim (Bool-cases (id == other)) [
        | inl f ↦ inl (e ∙ ap some (sym ((segment_id_eq.beq_iff id other).0 f)))
        | inr f ↦ inr (λ g. ground (arith, segment_id_eq.beq_iff id other))
      ]
    ]

    -- it may stand before any
    ahead-Fair : (l : List ActiveSegment) → All (Fair s) l
    ahead-Fair [] = tt
    ahead-Fair (t ∷ l) = (λ _ _ o. o.not_before (before ∙ sym wanted ∙ o.first), ahead-Fair l)

    All-put :
        (P : ActiveSegment → Type 0) (l : List ActiveSegment) → P s → All P l → All P (put id s l)
    All-put P [] p h = unfold insertion_idx in (p, tt)
    All-put P (x ∷ l) p h = elim (wants_cases x) [
      | inl e ↦ subst (All P) (sym (put-hit id s x l e)) (p, h)
      | inr e ↦ subst (All P) (sym (put-miss id s x l e)) (h.0, All-put P l p h.1)
    ]

    put-Fair : (l : List ActiveSegment) → Pairwise Fair l → Pairwise Fair (put id s l)
    put-Fair [] p = unfold insertion_idx in (tt, tt)
    put-Fair (x ∷ l) p = elim (wants_cases x) [
      | inl e ↦ subst (Pairwise Fair) (sym (put-hit id s x l e)) (ahead-Fair (x ∷ l), p)
      | inr e ↦
          let behind : Fair x s = λ _ _ o. e (o.first ∙ sym o.second ∙ wanted) in
          subst (Pairwise Fair) (sym (put-miss id s x l e))
            (All-put (Fair x) l behind p.0, put-Fair l p.1)
    ]

  -- a segment that is not the last one of its loco is placed before none
  pub insertion_idx-other :
      (id other : SegmentId) (l : List ActiveSegment)
      → id == other ≡ false
      → insertion_idx id other l ≡ none
  unfolding insertion_idx
  insertion_idx-other id other [] h = refl
  insertion_idx-other id other (x ∷ l) h = ground (arith, insertion_idx-other id other l h)

  module _ (sorted : List ActiveSegment) (s : ActiveSegment) where
    pub place-push : s.id ≡ none → place last sorted s ≡ sorted ++ s ∷ []
    unfolding place
    place-push e = ground arith

    pub place-unknown :
        (id : SegmentId)
        → s.id ≡ some id
        → get last s.loco_id ≡ none
        → place last sorted s ≡ sorted ++ s ∷ []
    unfolding place
    place-unknown id e f = ground arith

    pub place-at :
        (id other : SegmentId)
        → s.id ≡ some id
        → get last s.loco_id ≡ some other
        → place last sorted s ≡ at_index (insertion_idx id other sorted) s sorted
    unfolding place
    place-at id other e f = elim (Option-cases (insertion_idx id other sorted)) [
      | inl g ↦ ground arith
      | inr (i, g) ↦ ground arith
    ]

    place-Fair : Pairwise Fair sorted → Pairwise Fair (place last sorted s)
    place-Fair p = elim (Option-cases s.id) [
      | inl e ↦
          subst (Pairwise Fair) (sym (place-push e)) (push-Fair sorted s (λ id f g. cc (e, f)) p)
      | inr (id, e) ↦ elim (Option-cases (get last s.loco_id)) [
        | inl f ↦
            subst (Pairwise Fair) (sym (place-unknown id e f))
              (push-Fair sorted s (λ id g h. cc (f, h)) p)
        | inr (other, f) ↦ elim (Bool-cases (id == other)) [
          | inl h ↦
              let same = (segment_id_eq.beq_iff id other).0 h in
              let before : get last s.loco_id ≡ some id = f ∙ ap some (sym same) in
              subst (Pairwise Fair) (sym (place-at id id e before))
                (put-Fair id s e before sorted p)
          | inr h ↦
              let pushed : place last sorted s ≡ sorted ++ s ∷ [] =
                place-at id other e f
                ∙ ap (λ o. at_index o s sorted) (insertion_idx-other id other sorted h) in
              subst (Pairwise Fair) (sym pushed)
                (push-Fair sorted s (λ id' g k. ground (arith, segment_id_eq.beq_iff id other)) p)
        ]
      ]
    ]

  place_all-Fair :
      (sorted rest : List ActiveSegment)
      → Pairwise Fair sorted
      → Pairwise Fair (place_all last sorted rest)
  unfolding place_all
  place_all-Fair sorted [] p = p
  place_all-Fair sorted (s ∷ rest) p =
      place_all-Fair (place last sorted s) rest (place-Fair sorted s p)

  -- two that want one segment have one key
  apart-Fair : (s t : ActiveSegment) → priority_key t < priority_key s → Fair t s
  apart-Fair s t h et es o =
      let entry : t.segment ≡ s.segment = et o.id o.first ∙ sym (es o.id o.second) in
      let t_key = priority_key-rank t in
      let s_key = priority_key-rank s in
      let same : priority_key t ≡ priority_key s = ground arith in omega (arith, h, same)

  pub sort_active_segments-Fair :
      (segments : List ActiveSegment) → Pairwise Fair (sort_active_segments last segments)
  unfolding sort_active_segments
  sort_active_segments-Fair segments =
      sort_by_key-Pairwise Fair priority_key apart-Fair (place_all last [] segments)
        (place_all-Fair [] segments tt)

  pub Fair-entered :
      (l : List ActiveSegment)
      → All IsEntered l
      → Pairwise Fair l
      → Pairwise (λ s t. ¬ IsOvertaken last s t) l
  Fair-entered [] h p = tt
  Fair-entered (s ∷ l) h p = (behind l h.1 p.0, Fair-entered l h.1 p.1)
    where
      behind :
          (l : List ActiveSegment)
          → All IsEntered l
          → All (Fair s) l
          → All (λ t. ¬ IsOvertaken last s t) l
      behind [] _ _ = tt
      behind (t ∷ l) e f = (f.0 h.0 e.0, behind l e.1 f.1)
