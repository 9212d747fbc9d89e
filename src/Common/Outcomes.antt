-- ===== src/Common/Outcomes.antt =====
-- Outcomes of Rust calls. `panic` is an `unwrap` of `None`, or another abort of the thread.
use mathlib.Core.Path.{◌≡◌, refl}
use mathlib.Core.Option.{Option, none, some}

pub data Result {ℓ κ} (E : Type κ) (A : Type ℓ) : Type (ℓ ⊔ κ) where
  ok : A → Result E A
  err : E → Result E A
  panic : Result E A

-- The `?` operator: the rest of the function runs on the value.
infixl 5 ◌>>=◌
abbrev pub ◌>>=◌ {ℓ κ μ} :
    {E : Type μ} {A : Type ℓ} {B : Type κ} → Result E A → (A → Result E B) → Result E B
panic >>= rest = panic
err e >>= rest = err e
ok value >>= rest = rest value

infixl 5 ◌>>◌
abbrev pub ◌>>◌ {ℓ κ μ} :
    {E : Type μ} {A : Type ℓ} {B : Type κ} → Result E A → Result E B → Result E B
first >> rest = first >>= λ _. rest

-- `Result::map_err`
abbrev pub map_err {ℓ κ μ} :
    {E : Type κ} {F : Type μ} {A : Type ℓ} → (E → F) → Result E A → Result F A
map_err f (ok a) = ok a
map_err f (err e) = err (f e)
map_err f panic = panic

-- `Option::unwrap`
abbrev pub unwrap {ℓ κ} : {E : Type κ} {A : Type ℓ} → Option A → Result E A
unwrap none = panic
unwrap (some a) = ok a

-- `Option::ok_or`
abbrev pub ok_or {ℓ κ} : {E : Type κ} {A : Type ℓ} → E → Option A → Result E A
ok_or e none = err e
ok_or e (some a) = ok a

-- Where a chain succeeds, its first step did, and the rest ran on that value.
pub >>=-eq-ok {ℓ κ μ} :
    {E : Type μ} {A : Type ℓ} {B : Type κ} (first : Result E A) (rest : A → Result E B) {y : B}
    → (first >>= rest) ≡ ok y
    → (x : A) × (first ≡ ok x) × (rest x ≡ ok y)
>>=-eq-ok panic rest done = cc
>>=-eq-ok (err e) rest done = cc
>>=-eq-ok (ok x) rest done = (x, refl, done)

pub ok-injective {ℓ κ} :
    {E : Type κ} {A : Type ℓ} {a b : A} → ◌≡◌ {A = Result E A} (ok a) (ok b) → a ≡ b
ok-injective h = cc

pub unwrap-eq-ok {ℓ κ} :
    {E : Type κ} {A : Type ℓ} (o : Option A) {a : A} → unwrap {E = E} o ≡ ok a → o ≡ some a
unwrap-eq-ok none h = cc
unwrap-eq-ok (some x) h = cc
