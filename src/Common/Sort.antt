-- ===== src/Common/Sort.antt =====
-- `sort_by_key` of a slice: a stable sort by a numeric key.
use Prim.Native.Nat.{ℕ, ◌≤◌}
use mathlib.Core.Logic.{inl, inr}
use mathlib.Core.List.{List, [], ◌∷◌, Perm}
use mathlib.Core.List.Perm
use native.Mathlib.Omega.{arith}
use locoloco.Common.Tests.{leb, if◌then◌else◌, Bool-cases}
use locoloco.Common.Lists.{All, In}

module _ {ℓ} {A : Type ℓ} (key : A → ℕ) where
  unfoldable pub insert_by_key : A → List A → List A
  insert_by_key x [] = x ∷ []
  insert_by_key x (y ∷ ys) = if leb (key x) (key y) then x ∷ y ∷ ys else y ∷ insert_by_key x ys

  unfoldable pub sort_by_key : List A → List A
  unfolding insert_by_key
  sort_by_key [] = []
  sort_by_key (x ∷ xs) = insert_by_key x (sort_by_key xs)

  -- Each element's key is at most that of all that follow.
  abbrev pub IsSortedBy : List A → Type 0
  IsSortedBy [] = Unit
  IsSortedBy (x ∷ xs) = All (λ y. key x ≤ key y) xs × IsSortedBy xs

  insert_by_key-perm : (x : A) (xs : List A) → Perm (insert_by_key x xs) (x ∷ xs)
  unfolding insert_by_key
  insert_by_key-perm x [] = Perm.rfl
  insert_by_key-perm x (y ∷ ys) = elim (Bool-cases (leb (key x) (key y))) [
    | inl e ↦ rw (e, insert_by_key) Perm.rfl
    | inr e ↦
        rw (e, insert_by_key)
          (Perm.trans (Perm.cons y (insert_by_key-perm x ys)) (Perm.swap x y ys))
  ]

  pub sort_by_key-perm : (xs : List A) → Perm (sort_by_key xs) xs
  unfolding sort_by_key
  sort_by_key-perm [] = Perm.rfl
  sort_by_key-perm (x ∷ xs) =
      Perm.trans (insert_by_key-perm x (sort_by_key xs)) (Perm.cons x (sort_by_key-perm xs))

  below_trans : (m n : ℕ) (xs : List A) → m ≤ n → All (λ y. n ≤ key y) xs → All (λ y. m ≤ key y) xs
  below_trans m n [] h b = tt
  below_trans m n (x ∷ xs) h b = (omega arith, below_trans m n xs h b.1)

  insert_by_key-below :
      (n : ℕ) (x : A) (xs : List A)
      → n ≤ key x
      → All (λ y. n ≤ key y) xs
      → All (λ y. n ≤ key y) (insert_by_key x xs)
  unfolding insert_by_key
  insert_by_key-below n x [] h b = (h, tt)
  insert_by_key-below n x (y ∷ ys) h b = elim (Bool-cases (leb (key x) (key y))) [
    | inl e ↦ rw (e, insert_by_key) (h, b)
    | inr e ↦ rw (e, insert_by_key) (b.0, insert_by_key-below n x ys h b.1)
  ]

  insert_by_key-IsSortedBy : (x : A) (xs : List A) → IsSortedBy xs → IsSortedBy (insert_by_key x xs)
  unfolding insert_by_key
  insert_by_key-IsSortedBy x [] s = (tt, tt)
  insert_by_key-IsSortedBy x (y ∷ ys) s = elim (Bool-cases (leb (key x) (key y))) [
    | inl e ↦
        rw (e, insert_by_key) ((ground arith, below_trans (key x) (key y) ys (ground arith) s.0), s)
    | inr e ↦
        rw (e, insert_by_key)
          (insert_by_key-below (key y) x ys (ground arith) s.0, insert_by_key-IsSortedBy x ys s.1)
  ]

  pub sort_by_key-IsSortedBy : (xs : List A) → IsSortedBy (sort_by_key xs)
  unfolding sort_by_key
  sort_by_key-IsSortedBy [] = tt
  sort_by_key-IsSortedBy (x ∷ xs) =
      insert_by_key-IsSortedBy x (sort_by_key xs) (sort_by_key-IsSortedBy xs)

module _ {A : Type 0} (key : A → ℕ) where
  In-insert_by_key : (a x : A) (xs : List A) → In a (insert_by_key key x xs) → In a (x ∷ xs)
  unfolding insert_by_key
  In-insert_by_key a x [] m = m
  In-insert_by_key a x (y ∷ ys) m = ground (arith, In-insert_by_key a x ys)

  pub In-sort_by_key : (a : A) (xs : List A) → In a (sort_by_key key xs) → In a xs
  unfolding sort_by_key
  In-sort_by_key a [] m = m
  In-sort_by_key a (x ∷ xs) m = elim (In-insert_by_key a x (sort_by_key key xs) m) [
    | inl e ↦ inl e
    | inr n ↦ inr (In-sort_by_key a xs n)
  ]
