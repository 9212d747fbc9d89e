-- ===== src/Common/Filter.antt =====
-- The elements of a list that pass a test, in their order.
use Prim.Native.Nat.{ℕ}
use mathlib.Core.Path.{◌≡◌, refl, ◌∙◌}
use mathlib.Core.Logic.{inl, inr}
use mathlib.Core.Bool.{Bool, true}
use mathlib.Core.List.{List, [], ◌∷◌, ◌++◌}
use native.Mathlib.Omega.{arith}
use locoloco.Common.Tests.{leb, if◌then◌else◌, Bool-cases}
use locoloco.Common.Sort.{insert_by_key, sort_by_key}

module _ {A : Type 0} (test : A → Bool) where
  unfoldable pub filter : List A → List A
  filter [] = []
  filter (x ∷ xs) = if test x then x ∷ filter xs else filter xs

  pub filter-append : (xs ys : List A) → filter (xs ++ ys) ≡ filter xs ++ filter ys
  unfolding filter
  filter-append [] ys = refl
  filter-append (x ∷ xs) ys = ground (arith, filter-append xs ys)

  -- Those that pass have one key.
  module _ (key : A → ℕ) (alike : (x y : A) → test x ≡ true → test y ≡ true → key x ≡ key y) where
    filter-insert_by_key : (x : A) (ys : List A) → filter (insert_by_key key x ys) ≡ filter (x ∷ ys)
    unfolding insert_by_key filter
    filter-insert_by_key x [] = refl
    filter-insert_by_key x (y ∷ ys) = elim (Bool-cases (leb (key x) (key y))) [
      | inl e ↦ rw (e, insert_by_key) refl
      | inr e ↦
          let ih = filter-insert_by_key x ys in
          elim (Bool-cases (test x)) [
            | inl tx ↦ elim (Bool-cases (test y)) [
              | inl ty ↦ absurd (ground (arith, alike x y tx ty))
              | inr ty ↦ ground (arith, ih)
            ]
            | inr tx ↦ ground (arith, ih)
          ]
    ]

    -- They keep their order in the sort.
    pub filter-sort_by_key : (xs : List A) → filter (sort_by_key key xs) ≡ filter xs
    unfolding sort_by_key filter
    filter-sort_by_key [] = refl
    filter-sort_by_key (x ∷ xs) =
        filter-insert_by_key x (sort_by_key key xs) ∙ ground (arith, filter-sort_by_key xs)
