-- ===== src/Prelude/Dict.antt =====
-- A Rust `HashMap` with numbers as its keys: the list of its entries, the newest in front. The order
-- in which the map is walked, which Rust leaves open, is that of the list.
use Prim.Native.Nat.{ℕ}
use mathlib.Core.Path.{◌≡◌, refl, sym, ap, ◌∙◌}
use mathlib.Core.Logic.{◌≢◌, ◌⊎◌, inl, inr}
use mathlib.Core.Option.{Option, none, some}
use mathlib.Core.List.{List, [], ◌∷◌}
use native.Mathlib.Omega.{arith}
use emskin.Prelude.Tests.{◌==◌, if◌then◌else◌, Bool-cases, Option-cases}

abbrev pub Dict {ℓ} : Type ℓ → Type ℓ
Dict V = List (ℕ × V)

abbrev pub map_option {ℓ κ} : {A : Type ℓ} {B : Type κ} → (A → B) → Option A → Option B
map_option f none = none
map_option f (some a) = some (f a)

module _ {ℓ} {V : Type ℓ} where
  unfoldable pub lookup : ℕ → Dict V → Option V
  lookup k [] = none
  lookup k (e ∷ d) = if e.0 == k then some e.1 else lookup k d

  -- `remove`
  unfoldable pub erase : ℕ → Dict V → Dict V
  erase k [] = []
  erase k (e ∷ d) = if e.0 == k then erase k d else e ∷ erase k d

  unfoldable pub insert : ℕ → V → Dict V → Dict V
  insert k v d = (k, v) ∷ erase k d

  -- A change through `get_mut`.
  unfoldable pub modify : ℕ → (V → V) → Dict V → Dict V
  modify k f [] = []
  modify k f (e ∷ d) = if e.0 == k then (e.0, f e.1) ∷ modify k f d else e ∷ modify k f d

  -- A change of every value, through `values_mut`.
  unfoldable pub modify_all : (V → V) → Dict V → Dict V
  modify_all f [] = []
  modify_all f (e ∷ d) = (e.0, f e.1) ∷ modify_all f d

  pub lookup-erase_self : (k : ℕ) (d : Dict V) → lookup k (erase k d) ≡ none
  unfolding lookup erase
  lookup-erase_self k [] = refl
  lookup-erase_self k (e ∷ d) = ground (arith, lookup-erase_self k d)

  pub lookup-erase_ne : (j k : ℕ) (d : Dict V) → j ≢ k → lookup j (erase k d) ≡ lookup j d
  unfolding lookup erase
  lookup-erase_ne j k [] h = refl
  lookup-erase_ne j k (e ∷ d) h = ground (arith, lookup-erase_ne j k d h)

  pub lookup-insert_self : (k : ℕ) (v : V) (d : Dict V) → lookup k (insert k v d) ≡ some v
  unfolding lookup insert
  lookup-insert_self k v d = ground arith

  pub lookup-insert_ne :
      (j k : ℕ) (v : V) (d : Dict V) → j ≢ k → lookup j (insert k v d) ≡ lookup j d
  unfolding lookup insert
  lookup-insert_ne j k v d h = ground (arith, lookup-erase_ne j k d h)

  pub lookup-modify_self :
      (k : ℕ) (f : V → V) (d : Dict V) → lookup k (modify k f d) ≡ map_option f (lookup k d)
  unfolding lookup modify
  lookup-modify_self k f [] = refl
  lookup-modify_self k f (e ∷ d) = ground (arith, lookup-modify_self k f d)

  pub lookup-modify_ne :
      (j k : ℕ) (f : V → V) (d : Dict V) → j ≢ k → lookup j (modify k f d) ≡ lookup j d
  unfolding lookup modify
  lookup-modify_ne j k f [] h = refl
  lookup-modify_ne j k f (e ∷ d) h = ground (arith, lookup-modify_ne j k f d h)

  pub lookup-modify_all :
      (k : ℕ) (f : V → V) (d : Dict V) → lookup k (modify_all f d) ≡ map_option f (lookup k d)
  unfolding lookup modify_all
  lookup-modify_all k f [] = refl
  lookup-modify_all k f (e ∷ d) = ground (arith, lookup-modify_all k f d)

-- Two keys are equal or not.
pub key-cases : (j k : ℕ) → (j ≡ k) ⊎ (j ≢ k)
key-cases j k = elim (Bool-cases (j == k)) [
  | inl e ↦ inl (ground (arith, e))
  | inr e ↦ inr (λ h. ground (arith, e, h))
]

pub some-injective {ℓ} : {A : Type ℓ} (a b : A) → some a ≡ some b → a ≡ b
some-injective a b e = cc

-- What stands under a key after a change stood there before, changed or not.
pub modify-some {ℓ} :
    {V : Type ℓ} (j k : ℕ) (f : V → V) (d : Dict V) (v : V)
    → lookup j (modify k f d) ≡ some v
    → (u : V) × (lookup j d ≡ some u) × (((j ≡ k) × (f u ≡ v)) ⊎ ((j ≢ k) × (u ≡ v)))
modify-some j k f d v e = elim (key-cases j k) [
  | inr other ↦ (v, sym (lookup-modify_ne j k f d other) ∙ e, inr (other, refl))
  | inl same ↦ elim (Option-cases (lookup k d)) [
    | inl gone ↦
        let there =
          sym (lookup-modify_self k f d) ∙ (ap (λ x. lookup x (modify k f d)) (sym same) ∙ e) in
        absurd (cc)
    | inr (u, found) ↦
        let there =
          sym (lookup-modify_self k f d) ∙ (ap (λ x. lookup x (modify k f d)) (sym same) ∙ e) in
        (
          u,
          ap (λ x. lookup x d) same ∙ found,
          inl (same, some-injective (f u) v (ap (map_option f) (sym found) ∙ there)),
        )
  ]
]
