-- ===== src/Common/Pairs.antt =====
-- Lists of which each element stands in a relation to all that follow it.
use Prim.Native.Nat.{ℕ, ◌<◌}
use mathlib.Core.Logic.{inl, inr}
use mathlib.Core.List.{List, [], ◌∷◌, ◌++◌}
use native.Mathlib.Omega.{arith}
use locoloco.Common.Tests.{leb, Bool-cases}
use locoloco.Common.Lists.{All, All-append}
use locoloco.Common.Sort.{insert_by_key, sort_by_key}

module _ {A : Type 0} (R : A → A → Type 0) where
  -- Each element stands in the relation to all behind it.
  abbrev pub Pairwise : List A → Type 0
  Pairwise [] = Unit
  Pairwise (x ∷ xs) = All (R x) xs × Pairwise xs

  pub Pairwise-push :
      (xs : List A) (y : A) → Pairwise xs → All (λ x. R x y) xs → Pairwise (xs ++ y ∷ [])
  Pairwise-push [] y h b = (tt, tt)
  Pairwise-push (x ∷ xs) y h b =
      (All-append (R x) xs (y ∷ []) h.0 (b.0, tt), Pairwise-push xs y h.1 b.1)

  module _ (key : A → ℕ) where
    All-insert_by_key :
        (P : A → Type 0) (x : A) (ys : List A) → P x → All P ys → All P (insert_by_key key x ys)
    unfolding insert_by_key
    All-insert_by_key P x [] p h = (p, tt)
    All-insert_by_key P x (y ∷ ys) p h = elim (Bool-cases (leb (key x) (key y))) [
      | inl e ↦ rw (e, insert_by_key) (p, h)
      | inr e ↦ rw (e, insert_by_key) (h.0, All-insert_by_key P x ys p h.1)
    ]

    All-sort_by_key : (P : A → Type 0) (xs : List A) → All P xs → All P (sort_by_key key xs)
    unfolding sort_by_key
    All-sort_by_key P [] h = tt
    All-sort_by_key P (x ∷ xs) h =
        All-insert_by_key P x (sort_by_key key xs) h.0 (All-sort_by_key P xs h.1)

    -- A smaller key may come first.
    module _ (apart : (x y : A) → key y < key x → R y x) where
      insert_by_key-Pairwise :
          (x : A) (ys : List A) → All (R x) ys → Pairwise ys → Pairwise (insert_by_key key x ys)
      unfolding insert_by_key
      insert_by_key-Pairwise x [] h p = (tt, tt)
      insert_by_key-Pairwise x (y ∷ ys) h p = elim (Bool-cases (leb (key x) (key y))) [
        | inl e ↦ rw (e, insert_by_key) (h, p)
        | inr e ↦
            rw (e, insert_by_key)
              (
                All-insert_by_key (R y) x ys (apart x y (ground arith)) p.0,
                insert_by_key-Pairwise x ys h.1 p.1,
              )
      ]

      -- The sort keeps such a relation if it holds wherever the keys put a pair in order.
      pub sort_by_key-Pairwise : (xs : List A) → Pairwise xs → Pairwise (sort_by_key key xs)
      unfolding sort_by_key
      sort_by_key-Pairwise [] p = tt
      sort_by_key-Pairwise (x ∷ xs) p =
          insert_by_key-Pairwise x (sort_by_key key xs) (All-sort_by_key (R x) xs p.0)
            (sort_by_key-Pairwise xs p.1)
