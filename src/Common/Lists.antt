-- ===== src/Common/Lists.antt =====
-- Lists measured by native numbers, and predicates on all elements.
use Prim.Native.Nat.{ℕ, zero, suc, ◌+◌, ◌≤◌}
use mathlib.Core.Path.{◌≡◌, refl, sym, ap, subst, ◌∙◌}
use mathlib.Core.List.{List, [], ◌∷◌, ◌++◌, map}
use mathlib.Core.Logic.{◌⊎◌, ◌↔◌, inl, inr}
use mathlib.Core.Bool.{Bool, true, false, ◌||◌}
use native.Mathlib.Omega.{arith}
use locoloco.Common.Tests.{Bool-cases}
use locoloco.Common.Equality.{Eq, contains}

module _ {ℓ} {A : Type ℓ} where
  abbrev pub length : List A → ℕ
  length [] = 0
  length (_ ∷ xs) = suc (length xs)

  pub length-append : (xs ys : List A) → length (xs ++ ys) ≡ length xs + length ys
  length-append [] ys = omega arith
  length-append (_ ∷ xs) ys = omega (arith, length-append xs ys)

-- It computes to a product, which the tactics read and build.
abbrev pub All {ℓ κ} : {A : Type ℓ} → (A → Type κ) → List A → Type κ
All P [] = Unit
All P (x ∷ xs) = P x × All P xs

pub All-append {ℓ κ} :
    {A : Type ℓ} (P : A → Type κ) (xs ys : List A) → All P xs → All P ys → All P (xs ++ ys)
All-append P [] ys hx hy = hy
All-append P (_ ∷ xs) ys hx hy = (hx.0, All-append P xs ys hx.1 hy)

-- `a` stands in the list, and the proof says where.
abbrev pub In : {A : Type 0} → A → List A → Type 0
In a [] = ⊥
In a (x ∷ xs) = (x ≡ a) ⊎ In a xs

pub In-map :
    {A B : Type 0} (f : A → B) (b : B) (xs : List A)
    → In b (map f xs)
    → (a : A) × In a xs × (f a ≡ b)
In-map f b [] m = elim m [ ]
In-map f b (x ∷ xs) (inl e) = (x, inl refl, e)
In-map f b (x ∷ xs) (inr m) = let (a, n, e) = In-map f b xs m in (a, inr n, e)

pub All-In : {A : Type 0} (P : A → Type 0) (a : A) (xs : List A) → All P xs → In a xs → P a
All-In P a [] h m = elim m [ ]
All-In P a (x ∷ xs) h (inl e) = subst P e h.0
All-In P a (x ∷ xs) h (inr m) = All-In P a xs h.1 m

pub map-In : {A B : Type 0} (f : A → B) (a : A) (xs : List A) → In a xs → In (f a) (map f xs)
map-In f a [] m = elim m [ ]
map-In f a (x ∷ xs) (inl e) = inl (ap f e)
map-In f a (x ∷ xs) (inr m) = inr (map-In f a xs m)

module _ {A : Type 0} ⦃e : Eq A⦄ where
  pub contains_iff_In : (xs : List A) (a : A) → (contains xs a ≡ true) ↔ In a xs
  contains_iff_In [] a = (λ h. absurd (cc), λ m. absurd m)
  contains_iff_In (x ∷ xs) a =
      let ih = contains_iff_In xs a in ground (arith, ih.0, ih.1, e.beq_iff x a)

-- `iter().any(p)`
abbrev pub any : {A : Type 0} → (A → Bool) → List A → Bool
any p [] = false
any p (x ∷ xs) = p x || any p xs

any_sound :
    {A : Type 0} (p : A → Bool) (x : A) (xs : List A)
    → (any p xs ≡ true → (a : A) × In a xs × (p a ≡ true))
    → any p (x ∷ xs) ≡ true
    → (a : A) × In a (x ∷ xs) × (p a ≡ true)
any_sound p x xs ih h = elim (Bool-cases (p x)) [
  | inl e ↦ (x, inl refl, e)
  | inr e ↦ let (a, m, g) = ih (ground arith) in (a, inr m, g)
]

any_complete :
    {A : Type 0} (p : A → Bool) (x : A) (xs : List A)
    → (((a : A) × In a xs × (p a ≡ true)) → any p xs ≡ true)
    → ((a : A) × In a (x ∷ xs) × (p a ≡ true))
    → any p (x ∷ xs) ≡ true
any_complete p x xs ih (a, inl e, g) = let px : p x ≡ true = ap p e ∙ g in ground arith
any_complete p x xs ih (a, inr m, g) = let rest : any p xs ≡ true = ih (a, m, g) in ground arith

pub any_iff :
    {A : Type 0} (p : A → Bool) (xs : List A)
    → (any p xs ≡ true) ↔ ((a : A) × In a xs × (p a ≡ true))
any_iff p [] = (λ h. absurd (cc), λ (a, m, h). absurd m)
any_iff p (x ∷ xs) = (any_sound p x xs (any_iff p xs).0, any_complete p x xs (any_iff p xs).1)

pub In-append : {A : Type 0} (a : A) (xs ys : List A) → In a (xs ++ ys) → In a xs ⊎ In a ys
In-append a [] ys m = inr m
In-append a (x ∷ xs) ys (inl e) = inl (inl e)
In-append a (x ∷ xs) ys (inr m) = elim (In-append a xs ys m) [ inl n ↦ inl (inr n) | inr n ↦ inr n ]

pub In-append_left : {A : Type 0} (a : A) (xs ys : List A) → In a xs → In a (xs ++ ys)
In-append_left a [] ys m = elim m [ ]
In-append_left a (x ∷ xs) ys (inl e) = inl e
In-append_left a (x ∷ xs) ys (inr m) = inr (In-append_left a xs ys m)

pub In-append_right : {A : Type 0} (a : A) (xs ys : List A) → In a ys → In a (xs ++ ys)
In-append_right a [] ys m = m
In-append_right a (x ∷ xs) ys m = inr (In-append_right a xs ys m)

pub All-of : {A : Type 0} (P : A → Type 0) (xs : List A) → ((x : A) → In x xs → P x) → All P xs
All-of P [] f = tt
All-of P (x ∷ xs) f = (f x (inl refl), All-of P xs (λ y m. f y (inr m)))

-- `&list[..n]` and `&list[n..]`, with what there is if the list is shorter
abbrev pub take {ℓ} : {A : Type ℓ} → ℕ → List A → List A
take zero xs = []
take (suc n) [] = []
take (suc n) (x ∷ xs) = x ∷ take n xs

abbrev pub drop {ℓ} : {A : Type ℓ} → ℕ → List A → List A
drop zero xs = xs
drop (suc n) [] = []
drop (suc n) (x ∷ xs) = drop n xs

module _ {ℓ} {A : Type ℓ} where
  pub take-append : (xs ys : List A) → take (length xs) (xs ++ ys) ≡ xs
  take-append [] ys = refl
  take-append (x ∷ xs) ys = ap (◌∷◌ x) (take-append xs ys)

  pub drop-append : (xs ys : List A) → drop (length xs) (xs ++ ys) ≡ ys
  drop-append [] ys = refl
  drop-append (x ∷ xs) ys = drop-append xs ys

  -- lists that agree behind the same front
  pub append-cancel : (xs : List A) {ys zs : List A} → xs ++ ys ≡ xs ++ zs → ys ≡ zs
  append-cancel xs {ys} {zs} e =
      sym (drop-append xs ys) ∙ ap (drop (length xs)) e ∙ drop-append xs zs

  -- a list long enough, cut in two
  pub take-drop :
      (n : ℕ) (xs : List A)
      → n ≤ length xs
      → (take n xs ++ drop n xs ≡ xs) × (length (take n xs) ≡ n)
  take-drop zero xs h = (refl, refl)
  take-drop (suc n) [] h = absurd (omega arith)
  take-drop (suc n) (x ∷ xs) h =
      let (whole, size) = take-drop n xs (omega arith) in (ap (◌∷◌ x) whole, ap suc size)

  -- a list written over the start of another
  pub length-overwrite :
      (xs ys : List A) → length xs ≤ length ys → length (xs ++ drop (length xs) ys) ≡ length ys
  length-overwrite [] ys h = refl
  length-overwrite (x ∷ xs) [] h = absurd (omega arith)
  length-overwrite (x ∷ xs) (y ∷ ys) h = ap suc (length-overwrite xs ys (omega arith))

  pub drop-plus : (n : ℕ) (xs ys : List A) → drop (length xs + n) (xs ++ ys) ≡ drop n ys
  drop-plus n [] ys = let e : 0 + n ≡ n = omega arith in ap (λ m. drop m ys) e
  drop-plus n (x ∷ xs) ys =
      let e : suc (length xs) + n ≡ suc (length xs + n) = omega arith in
      ap (λ m. drop m (x ∷ xs ++ ys)) e ∙ drop-plus n xs ys
