-- ===== src/Base/Options.antt =====
-- Options in sequence, and predicates on their values.
use mathlib.Core.Path.{◌≡◌, refl, subst}
use mathlib.Core.Option.{Option, none, some, none-ne-some}

infixl 5 ◌>>=◌
abbrev pub ◌>>=◌ {ℓ κ} : {A : Type ℓ} {B : Type κ} → Option A → (A → Option B) → Option B
none >>= f = none
some a >>= f = f a

abbrev pub map_option {ℓ κ} : {A : Type ℓ} {B : Type κ} → (A → B) → Option A → Option B
map_option f none = none
map_option f (some a) = some (f a)

-- The value, if there is one, has the property.
abbrev pub AllSome {ℓ κ} : {A : Type ℓ} → (A → Type κ) → Option A → Type κ
AllSome P none = Unit
AllSome P (some a) = P a

-- There is a value, and it has the property.
pub data Returns {ℓ κ} {A : Type ℓ} (P : A → Type κ) : Option A → Type (ℓ ⊔ κ) where
  returns : (a : A) → P a → Returns P (some a)

module _ {ℓ κ} {A : Type ℓ} (P : A → Type κ) where
  pub AllSome-value : (o : Option A) (a : A) → AllSome P o → o ≡ some a → P a
  AllSome-value o a h e = subst (AllSome P) e h

module _ {ℓ κ μ} {A : Type ℓ} {B : Type μ} (P : B → Type κ) where
  pub AllSome-bind :
      (o : Option A) (f : A → Option B) → ((a : A) → AllSome P (f a)) → AllSome P (o >>= f)
  AllSome-bind none f h = tt
  AllSome-bind (some a) f h = h a

module _ {ℓ κ} {A : Type ℓ} {P : A → Type κ} where
  pub Returns-value : {o : Option A} → Returns P o → (a : A) × (o ≡ some a) × P a
  Returns-value (returns a p) = (a, refl, p)

  pub Returns-none : Returns P none → ⊥
  Returns-none h = let (a, e, p) = Returns-value h in none-ne-some a e

module _ {ℓ κ μ ν} {A : Type ℓ} {B : Type μ} {P : A → Type κ} {Q : B → Type ν} where
  pub Returns-bind :
      {o : Option A} (f : A → Option B)
      → Returns P o
      → ((a : A) → P a → Returns Q (f a))
      → Returns Q (o >>= f)
  Returns-bind f (returns a p) h = h a p

module _ {ℓ κ ν} {A : Type ℓ} {P : A → Type κ} {Q : A → Type ν} where
  pub Returns-imp : {o : Option A} → Returns P o → ((a : A) → P a → Q a) → Returns Q o
  Returns-imp (returns a p) h = returns a (h a p)

module _ {ℓ κ μ} {A : Type ℓ} {B : Type μ} {P : A → Type κ} where
  pub Returns-map_option :
      {o : Option A} (f : A → B) → Returns P o → Returns (λ b. Unit {0}) (map_option f o)
  Returns-map_option f (returns a p) = returns (f a) tt

-- As `AllSome-bind`, from a property of the first value.
pub AllSome-then :
    {A B : Type 0} (P : A → Type 0) (Q : B → Type 0) (o : Option A) (f : A → Option B)
    → ((a : A) → P a → AllSome Q (f a))
    → AllSome P o
    → AllSome Q (o >>= f)
AllSome-then P Q none f h p = tt
AllSome-then P Q (some a) f h p = h a p
