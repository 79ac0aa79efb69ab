-- ===== src/Prelude/Outcome.antt =====
-- Fallible code. `stuck` is no value of the source: a loop of the model ran out of fuel.
use mathlib.Core.Path.{◌≡◌, refl}
use mathlib.Core.Logic.{◌≢◌, ◌⊎◌, inl, inr}

pub data Result {ℓ κ} (E : Type κ) (A : Type ℓ) : Type (ℓ ⊔ κ) where
  ok : A → Result E A
  err : E → Result E A
  stuck : Result E A

module _ {ℓ κ μ} {E : Type μ} {A : Type ℓ} {B : Type κ} where
  infixl 5 ◌>>=◌
  abbrev pub ◌>>=◌ : Result E A → (A → Result E B) → Result E B
  stuck >>= next = stuck
  err why >>= next = err why
  ok value >>= next = next value

  -- A chain that ends well went well in both of its parts.
  pub >>=-eq-ok :
      (first : Result E A) (next : A → Result E B) {last : B}
      → first >>= next ≡ ok last
      → (value : A) × (first ≡ ok value) × (next value ≡ ok last)
  >>=-eq-ok stuck next e = cc
  >>=-eq-ok (err why) next e = cc
  >>=-eq-ok (ok value) next e = (value, refl, e)

  -- An error of a chain comes from one of its parts.
  pub >>=-ne-err :
      (first : Result E A) (next : A → Result E B) (why : E)
      → first ≢ err why
      → ((value : A) → next value ≢ err why)
      → first >>= next ≢ err why
  >>=-ne-err stuck next why p q = λ e. cc
  >>=-ne-err (err other) next why p q = λ e. p (cc)
  >>=-ne-err (ok value) next why p q = q value

infixl 5 ◌>>◌
abbrev pub ◌>>◌ {ℓ μ} : {E : Type μ} {B : Type ℓ} → Result E (Unit {0}) → Result E B → Result E B
first >> second = first >>= λ _. second

-- `map_err`, or the conversion that `?` makes.
abbrev pub map_err {ℓ κ μ} :
    {E : Type μ} {F : Type κ} {A : Type ℓ} → (E → F) → Result E A → Result F A
map_err f stuck = stuck
map_err f (err why) = err (f why)
map_err f (ok value) = ok value

pub Result-cases {ℓ κ} :
    {E : Type κ} {A : Type ℓ} (r : Result E A)
    → (r ≡ stuck) ⊎ (((why : E) × (r ≡ err why)) ⊎ ((value : A) × (r ≡ ok value)))
Result-cases (ok value) = inr (inr (value, refl))
Result-cases (err why) = inr (inl (why, refl))
Result-cases stuck = inl refl
