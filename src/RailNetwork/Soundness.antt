-- ===== src/RailNetwork/Soundness.antt =====
-- Routes, and what the two searches of loco_controller/src/rail_network.rs return.
use locoloco.Common.{
  ℕ, zero, suc, ◌≡◌, refl, ap, ◌⊎◌, inl, inr, Option, none, some, List, [], ◌∷◌, map, Result, ok,
  err, panic, unwrap-eq-ok, ok-injective, subst, sym, ◌∙◌, map-In, ◌>>=◌, >>=-eq-ok, ◌==◌, get, In,
  In-map, In-sort_by_key, Bool-cases, arith,
}
use locoloco.Protocol.Types.{Direction}
use locoloco.RailNetwork.Types.{
  CheckpointId, TrackId, Checkpoint, RailNetwork, track_id_eq, checkpoint_id_eq, direction_eq,
}
use locoloco.RailNetwork.Search.{
  checkpoint, checkpoint_ids, on_track, is_next, with_priority, sort_by_priority, first_leading,
  or_search, search_body, search_from, next_checkpoint_id_for_track_id_target,
  next_checkpoint_id_for_checkpoint_id_target,
}

-- `b` is listed behind `a` in the direction.
pub record IsNext (net : RailNetwork) (d : Direction) (a b : CheckpointId) : Type 0 where
  pub cp : Checkpoint
  pub ids : List CheckpointId
  pub at : get net.checkpoints a ≡ some cp
  pub towards : get cp.checkpoint_ids d ≡ some ids
  pub listed : In b ids

-- A route from `a` in one direction, with first hop `b`, to a checkpoint of `goal`.
pub data Route (net : RailNetwork) (d : Direction) (goal : CheckpointId → Type 0)
    : CheckpointId → CheckpointId → Type 0 where
  arrive : {a b : CheckpointId} → IsNext net d a b → goal b → Route net d goal a b
  via : {a b c : CheckpointId} → IsNext net d a b → Route net d goal b c → Route net d goal a b

-- The target track, as the table of checkpoints gives it.
abbrev pub IsOn : RailNetwork → TrackId → CheckpointId → Type 0
IsOn net t c = (cp : Checkpoint) × (get net.checkpoints c ≡ some cp) × (cp.track_id ≡ t)

module _ {E : Type 0} where
  map-with_priority :
      (net : RailNetwork) (cs : List CheckpointId) (ks : List (ℕ × CheckpointId))
      → with_priority {E = E} net cs ≡ ok ks
      → map (λ p. p.1) ks ≡ cs
  unfolding with_priority
  map-with_priority net [] ks h =
      subst (λ l. map (λ (p : ℕ × CheckpointId). p.1) l ≡ []) (ok-injective h) refl
  map-with_priority net (c ∷ cs) ks h =
      let (cp, _, h') = >>=-eq-ok (checkpoint net c) _ h in
      let (rest, e, h'') = >>=-eq-ok (with_priority net cs) _ h' in
      subst (λ l. map (λ (p : ℕ × CheckpointId). p.1) l ≡ c ∷ cs) (ok-injective h'')
        (ap (◌∷◌ c) (map-with_priority net cs rest e))

  In-sort_by_priority :
      (net : RailNetwork) (n : CheckpointId) (cs : List CheckpointId) {sorted : List CheckpointId}
      → sort_by_priority {E = E} net cs ≡ ok sorted
      → In n sorted
      → In n cs
  unfolding sort_by_priority
  In-sort_by_priority net n [] h m = subst (In n) (sym (ok-injective h)) m
  In-sort_by_priority net n (c ∷ []) h m = subst (In n) (sym (ok-injective h)) m
  In-sort_by_priority net n (c ∷ d ∷ cs) h m =
      let (ks, e, h') = >>=-eq-ok (with_priority net (c ∷ d ∷ cs)) _ h in
      let (k, m', e') =
        In-map (λ (p : ℕ × CheckpointId). p.1) n _ (subst (In n) (sym (ok-injective h')) m) in
      subst (In n) (map-with_priority net (c ∷ d ∷ cs) ks e) (
        subst (λ x. In x (map (λ (p : ℕ × CheckpointId). p.1) ks)) e'
          (map-In (λ (p : ℕ × CheckpointId). p.1) k ks (In-sort_by_key (λ p. p.0) k ks m')))

  first_leading_sound :
      (search : CheckpointId → Result E (Option CheckpointId)) (n : CheckpointId)
      (cs : List CheckpointId)
      → first_leading search cs ≡ ok (some n)
      → In n cs × (m : CheckpointId) × (search n ≡ ok (some m))
  unfolding first_leading
  first_leading_sound search n [] h = cc
  first_leading_sound search n (c ∷ cs) h =
      split (search c) refl h (first_leading_sound search n cs)
    where
      split :
          (r : Result E (Option CheckpointId))
          → search c ≡ r
          → (r >>= λ found. elim found [ some _ ↦ ok (some c) | none ↦ first_leading search cs ])
            ≡ ok (some n)
          → (first_leading search cs ≡ ok (some n)
              → In n cs × (m : CheckpointId) × (search n ≡ ok (some m)))
          → In n (c ∷ cs) × (m : CheckpointId) × (search n ≡ ok (some m))
      split (ok (some m)) e g ih = let same : c ≡ n = cc in (inl same, m, ap search (sym same) ∙ e)
      split (ok none) e g ih = let (i, m, x) = ih g in (inr i, m, x)
      split (err x) e g ih = cc
      split panic e g ih = cc

  -- The two ways in which the body finds `n` among `ids`.
  abbrev Finds :
      RailNetwork
      → (direct second : List CheckpointId → Result E (Option CheckpointId)) → List CheckpointId
      → CheckpointId
      → Type 0
  Finds net direct second ids n =
      (direct ids ≡ ok (some n))
      ⊎ ((sorted : List CheckpointId) × (sort_by_priority {E = E} net ids ≡ ok sorted)
          × (second sorted ≡ ok (some n)))

  module _ (net : RailNetwork)
      (direct second : List CheckpointId → Result E (Option CheckpointId)) where
    or_search_sound :
        (ids : List CheckpointId) (n : CheckpointId) (found : Option CheckpointId)
        → direct ids ≡ ok found
        → or_search found (sort_by_priority net ids >>= second) ≡ ok (some n)
        → Finds net direct second ids n
    unfolding or_search
    or_search_sound ids n (some m) f h = inl (f ∙ h)
    or_search_sound ids n none f h = inr (>>=-eq-ok (sort_by_priority net ids) second h)

    search_body_sound :
        (d : Direction) (a n : CheckpointId)
        → search_body net direct second d a ≡ ok (some n)
        → (cp : Checkpoint) × (ids : List CheckpointId) × (get net.checkpoints a ≡ some cp)
          × (get cp.checkpoint_ids d ≡ some ids)
          × Finds net direct second ids n
    unfolding search_body
    search_body_sound d a n h =
        let (cp, e, h₁) = >>=-eq-ok (checkpoint net a) _ h in
        let (ids, e', h₂) = >>=-eq-ok (checkpoint_ids cp d) _ h₁ in
        let (found, f, h₃) = >>=-eq-ok (direct ids) _ h₂ in
        (cp, ids, unwrap-eq-ok _ e, unwrap-eq-ok _ e', or_search_sound ids n found f h₃)

  module _ (net : RailNetwork) (direct : List CheckpointId → Result E (Option CheckpointId))
      (d : Direction) (goal : CheckpointId → Type 0)
      (direct_sound : (ids : List CheckpointId) (n : CheckpointId)
        → direct ids ≡ ok (some n)
        → In n ids × goal n) where
    search_from_sound :
        (left : ℕ) (a n : CheckpointId)
        → search_from net direct d left a ≡ ok (some n)
        → Route net d goal a n
    unfolding search_from
    search_from_sound zero a n h =
        let (cp, ids, e, e', found) = search_body_sound net direct _ d a n h in
        elim found [
          | inl f ↦
              let (m, g) = direct_sound ids n f in
              arrive (record { cp = cp; ids = ids; at = e; towards = e'; listed = m }) g
          | inr (_, _, f) ↦ cc
        ]
    search_from_sound (suc left) a n h =
        let (cp, ids, e, e', found) = search_body_sound net direct _ d a n h in
        elim found [
          | inl f ↦
              let (m, g) = direct_sound ids n f in
              arrive (record { cp = cp; ids = ids; at = e; towards = e'; listed = m }) g
          | inr (sorted, s, f) ↦
              let (m, next, r) = first_leading_sound _ n sorted f in
              via
                (record {
                  cp = cp;
                  ids = ids;
                  at = e;
                  towards = e';
                  listed = In-sort_by_priority net n ids s m;
                })
                (search_from_sound left n next r)
        ]

  on_track_sound :
      (net : RailNetwork) (t : TrackId) (ids : List CheckpointId) (n : CheckpointId)
      → on_track {E = E} net t ids ≡ ok (some n)
      → In n ids × IsOn net t n
  unfolding on_track
  on_track_sound net t [] n h = cc
  on_track_sound net t (c ∷ cs) n h =
      let (cp, e, h') = >>=-eq-ok (checkpoint net c) _ h in
      elim (Bool-cases (cp.track_id == t)) [
        | inl same ↦
            let first : c ≡ n = ground arith in
            let at_first = subst (λ x. get net.checkpoints x ≡ some cp) first (unwrap-eq-ok _ e) in
            (inl first, (cp, at_first, (track_id_eq.beq_iff _ t).0 same))
        | inr other ↦ let (i, g) = on_track_sound net t cs n (ground arith) in (inr i, g)
      ]

  is_next_sound :
      (t : CheckpointId) (ids : List CheckpointId) (n : CheckpointId)
      → is_next {E = E} t ids ≡ ok (some n)
      → In n ids × (n ≡ t)
  unfolding is_next
  is_next_sound t [] n h = cc
  is_next_sound t (c ∷ cs) n h = elim (Bool-cases (c == t)) [
    | inl same ↦
        let first : c ≡ n = ground arith in
        (inl first, sym first ∙ (checkpoint_id_eq.beq_iff c t).0 same)
    | inr other ↦ let (i, g) = is_next_sound t cs n (ground arith) in (inr i, g)
  ]

  -- On any network, what the search for a track returns is the first hop of a route, all in the
  -- asked direction, to a checkpoint of the track.
  pub track_target-Route :
      (net : RailNetwork) (iteration : ℕ) (a n : CheckpointId) (d : Direction) (t : TrackId)
      → next_checkpoint_id_for_track_id_target {E = E} net iteration a d t ≡ ok (some n)
      → Route net d (IsOn net t) a n
  unfolding next_checkpoint_id_for_track_id_target
  track_target-Route net iteration a n d t h =
      search_from_sound net (on_track net t) d (IsOn net t) (on_track_sound net t) _ a n h

  -- On any network, what the search for a checkpoint returns is the first hop of a route, all in the
  -- asked direction, to that checkpoint.
  pub checkpoint_target-Route :
      (net : RailNetwork) (iteration : ℕ) (a n : CheckpointId) (d : Direction) (t : CheckpointId)
      → next_checkpoint_id_for_checkpoint_id_target {E = E} net iteration a d t ≡ ok (some n)
      → Route net d (λ c. c ≡ t) a n
  unfolding next_checkpoint_id_for_checkpoint_id_target
  checkpoint_target-Route net iteration a n d t h =
      search_from_sound net (is_next t) d (λ c. c ≡ t) (is_next_sound t) _ a n h
