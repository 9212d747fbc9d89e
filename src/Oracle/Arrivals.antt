-- ===== src/Oracle/Arrivals.antt =====
-- The locos that `sort_active_segments` (loco_controller/src/oracle.rs) leaves in the order in which
-- they came.
use locoloco.Common.{
  ℕ, zero, suc, ◌≡◌, refl, sym, ap, ◌∙◌, Bool, true, false, not, ◌&&◌, Option, none, some, List, [],
  ◌∷◌, ◌++◌, ◌==◌, get, filter, filter-append, filter-sort_by_key, Bool-cases, Option-cases,
  append_assoc, append-nil, inl, inr, arith,
}
use locoloco.Protocol.Types.{LocoId, loco_id_eq}
use locoloco.RailNetwork.Types.{
  SegmentId, segment_id_eq, SegmentPriority, priority0, priority1, priority2, rank,
}
use locoloco.Oracle.Types.{ActiveSegment}
use locoloco.Oracle.Order.{insert_at, place, place_all, priority_key, sort_active_segments}
use locoloco.Oracle.Priorities.{priority_of, priority_key-rank}
use locoloco.Oracle.Fairness.{at_index, place-push, place-unknown, place-at, insertion_idx-other}

-- The loco was not sent onto the segment it wants before.
abbrev pub is_new : List (LocoId × SegmentId) → ActiveSegment → Bool
is_new last s = elim s.id [
  | none ↦ true
  | some id ↦ elim (get last s.loco_id) [ none ↦ true | some other ↦ not (id == other) ]
]

abbrev pub is_priority : SegmentPriority → SegmentPriority → Bool
is_priority priority0 priority0 = true
is_priority priority1 priority1 = true
is_priority priority2 priority2 = true
is_priority _ _ = false

-- It is such a loco, and its segment has the priority.
abbrev pub arrives : List (LocoId × SegmentId) → SegmentPriority → ActiveSegment → Bool
arrives last p s = is_new last s && is_priority p (priority_of s)

is_priority-rank : (p q : SegmentPriority) → is_priority p q ≡ true → rank q ≡ rank p
is_priority-rank priority0 priority0 h = refl
is_priority-rank priority0 priority1 h = absurd (ground arith)
is_priority-rank priority0 priority2 h = absurd (ground arith)
is_priority-rank priority1 priority0 h = absurd (ground arith)
is_priority-rank priority1 priority1 h = refl
is_priority-rank priority1 priority2 h = absurd (ground arith)
is_priority-rank priority2 priority0 h = absurd (ground arith)
is_priority-rank priority2 priority1 h = absurd (ground arith)
is_priority-rank priority2 priority2 h = refl

both_true : (a b : Bool) → (a && b) ≡ true → b ≡ true
both_true true b h = h
both_true false b h = absurd (ground arith)

filter-insert_at :
    (test : ActiveSegment → Bool) (i : ℕ) (s : ActiveSegment) (l : List ActiveSegment)
    → test s ≡ false
    → filter test (insert_at i s l) ≡ filter test l
unfolding filter insert_at
filter-insert_at test zero s l h = ground arith
filter-insert_at test (suc i) s [] h = ground arith
filter-insert_at test (suc i) s (x ∷ l) h = ground (arith, filter-insert_at test i s l h)

module _ (last : List (LocoId × SegmentId)) (p : SegmentPriority) where
  arrives-key :
      (s t : ActiveSegment)
      → arrives last p s ≡ true
      → arrives last p t ≡ true
      → priority_key s ≡ priority_key t
  arrives-key s t hs ht =
      priority_key-rank s
      ∙ is_priority-rank p (priority_of s) (both_true _ _ hs)
      ∙ sym (is_priority-rank p (priority_of t) (both_true _ _ ht))
      ∙ sym (priority_key-rank t)

  module _ (s : ActiveSegment) (old : arrives last p s ≡ false) where
    filter-old : filter (arrives last p) (s ∷ []) ≡ []
    unfolding filter
    filter-old = rw old refl

    filter-at_index :
        (o : Option ℕ) (l : List ActiveSegment)
        → filter (arrives last p) (at_index last o s l)
          ≡ filter (arrives last p) l ++ filter (arrives last p) (s ∷ [])
    filter-at_index none l = filter-append (arrives last p) l (s ∷ [])
    filter-at_index (some i) l =
        filter-insert_at (arrives last p) i s l old
        ∙ sym (append-nil (filter (arrives last p) l))
        ∙ ap (λ r. filter (arrives last p) l ++ r) (sym filter-old)

  not_new :
      (s : ActiveSegment) (id other : SegmentId)
      → s.id ≡ some id
      → get last s.loco_id ≡ some other
      → id == other ≡ true
      → arrives last p s ≡ false
  not_new s id other e f h = ground arith

  filter-place :
      (sorted : List ActiveSegment) (s : ActiveSegment)
      → filter (arrives last p) (place last sorted s)
        ≡ filter (arrives last p) sorted ++ filter (arrives last p) (s ∷ [])
  filter-place sorted s = elim (Option-cases s.id) [
    | inl e ↦ pushed (place-push last sorted s e)
    | inr (id, e) ↦ elim (Option-cases (get last s.loco_id)) [
      | inl f ↦ pushed (place-unknown last sorted s id e f)
      | inr (other, f) ↦ elim (Bool-cases (id == other)) [
        | inl h ↦
            ap (filter (arrives last p)) (place-at last sorted s id other e f)
            ∙ filter-at_index s (not_new s id other e f h) _ sorted
        | inr h ↦ pushed (
            place-at last sorted s id other e f
            ∙ ap (λ o. at_index last o s sorted) (insertion_idx-other last id other sorted h))
      ]
    ]
  ]
    where
      pushed :
          place last sorted s ≡ sorted ++ s ∷ []
          → filter (arrives last p) (place last sorted s)
            ≡ filter (arrives last p) sorted ++ filter (arrives last p) (s ∷ [])
      pushed e = ap (filter (arrives last p)) e ∙ filter-append (arrives last p) sorted (s ∷ [])

  filter-place_all :
      (sorted rest : List ActiveSegment)
      → filter (arrives last p) (place_all last sorted rest)
        ≡ filter (arrives last p) sorted ++ filter (arrives last p) rest
  unfolding place_all
  filter-place_all sorted [] =
      sym (append-nil (filter (arrives last p) sorted)) ∙ (unfold filter in refl)
  filter-place_all sorted (s ∷ rest) =
      let F = filter (arrives last p) in
      filter-place_all (place last sorted s) rest
      ∙ ap (λ l. l ++ F rest) (filter-place sorted s)
      ∙ append_assoc (F sorted) (F (s ∷ [])) (F rest)
      ∙ ap (λ l. F sorted ++ l) (sym (filter-append (arrives last p) (s ∷ []) rest))

  -- The locos that were not sent onto their segment before keep their order within a priority.
  pub filter-sort_active_segments :
      (segments : List ActiveSegment)
      → filter (arrives last p) (sort_active_segments last segments)
        ≡ filter (arrives last p) segments
  unfolding sort_active_segments
  filter-sort_active_segments segments =
      filter-sort_by_key (arrives last p) priority_key arrives-key (place_all last [] segments)
      ∙ filter-place_all [] segments
      ∙ (unfold filter in refl)
