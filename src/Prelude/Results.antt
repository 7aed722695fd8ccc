-- ===== src/Prelude/Results.antt =====
-- A Python function that returns a value or raises an exception of the kind `E`.
use mathlib.Core.Path.{◌≡◌, refl, ap, subst}
use mathlib.Core.Bool.{Bool, true, false}
use mathlib.Core.Logic.{◌⊎◌, inl, inr}
use mathlib.Core.List.{List, [], ◌∷◌}

pub data Result {ℓ κ} (E : Type ℓ) (A : Type κ) : Type (ℓ ⊔ κ) where
  ok : A → Result E A
  err : E → Result E A

module _ {ℓ} {E : Type ℓ} where
  infixl 5 ◌>>=◌ ◌>>◌
  abbrev pub ◌>>=◌ {κ μ} : {A : Type κ} {B : Type μ} → Result E A → (A → Result E B) → Result E B
  ok a >>= f = f a
  err e >>= f = err e

  -- `if not test: raise e`
  abbrev pub guard : Bool → E → Result E (Unit {0})
  guard true e = ok tt
  guard false e = err e

  abbrev pub ◌>>◌ {κ} : {B : Type κ} → Result E (Unit {0}) → Result E B → Result E B
  m >> k = m >>= λ _. k

  -- The first exception of a comprehension ends it.
  abbrev pub traverse {κ μ} :
      {A : Type κ} {B : Type μ} → (A → Result E B) → List A → Result E (List B)
  traverse f [] = ok []
  traverse f (x ∷ xs) = f x >>= λ y. traverse f xs >>= λ ys. ok (y ∷ ys)

ok-injective {ℓ κ} :
    {E : Type ℓ} {A : Type κ} {a b : A} → ◌≡◌ {A = Result E A} (ok a) (ok b) → a ≡ b
ok-injective h = cc

err-injective {ℓ κ} :
    {E : Type ℓ} {A : Type κ} {a b : E} → ◌≡◌ {A = Result E A} (err a) (err b) → a ≡ b
err-injective h = cc

-- `P` holds of what `r` returns, if it returns.
pub record Ensures {ℓ κ μ} {E : Type ℓ} {A : Type κ} (P : A → Type μ) (r : Result E A)
    : Type (ℓ ⊔ κ ⊔ μ) where
  pub at : (a : A) → r ≡ ok a → P a

module _ {ℓ κ μ ν} {E : Type ℓ} {A : Type κ} {B : Type μ} {P : B → Type ν} where
  -- What the first part returns is known to the rest.
  pub Ensures-bind :
      (m : Result E A) (f : A → Result E B)
      → ((a : A) → m ≡ ok a → Ensures P (f a))
      → Ensures P (m >>= f)
  Ensures-bind (ok a) f rest = rest a refl
  Ensures-bind (err e) f rest = record { at = λ b h. cc }

module _ {ℓ κ ν} {E : Type ℓ} {A : Type κ} {P : A → Type ν} where
  pub Ensures-ok : (a : A) → P a → Ensures {E = E} P (ok a)
  Ensures-ok a p = record { at = λ b h. subst P (ok-injective h) p }

  pub Ensures-err : (e : E) → Ensures {A = A} P (err e)
  Ensures-err e = record { at = λ b h. cc }

module _ {ℓ κ ν} {E : Type ℓ} {A : Type κ} {P : A → Type ν} where
  -- What follows a test may use that the test holds.
  pub Ensures-guard :
      (b : Bool) (e : E) (rest : Result E A)
      → (b ≡ true → Ensures P rest)
      → Ensures P (guard b e >> rest)
  Ensures-guard true e rest next = next refl
  Ensures-guard false e rest next = Ensures-err e

-- To split on a result and keep the equation.
pub Result-cases {ℓ κ} :
    {E : Type ℓ} {A : Type κ} (r : Result E A) → ((a : A) × (r ≡ ok a)) ⊎ ((e : E) × (r ≡ err e))
Result-cases (ok a) = inl (a, refl)
Result-cases (err e) = inr (e, refl)

-- Every exception that `r` raises satisfies `P`.
pub record Raises {ℓ κ μ} {E : Type ℓ} {A : Type κ} (P : E → Type μ) (r : Result E A)
    : Type (ℓ ⊔ κ ⊔ μ) where
  pub at : (e : E) → r ≡ err e → P e

module _ {ℓ κ ν} {E : Type ℓ} {A : Type κ} {P : E → Type ν} where
  pub Raises-ok : (a : A) → Raises {E = E} P (ok a)
  Raises-ok a = record { at = λ e h. cc }

  pub Raises-err : (e : E) → P e → Raises {A = A} P (err e)
  Raises-err e p = record { at = λ f h. subst P (err-injective h) p }

module _ {ℓ κ μ ν} {E : Type ℓ} {A : Type κ} {B : Type μ} {P : E → Type ν} where
  pub Raises-bind :
      (m : Result E A) (f : A → Result E B)
      → Raises P m
      → ((a : A) → Raises P (f a))
      → Raises P (m >>= f)
  Raises-bind (ok a) f first rest = rest a
  Raises-bind (err e) f first rest = record { at = λ e' h. first.at e' (ap err (err-injective h)) }

module _ {ℓ ν} {E : Type ℓ} {P : E → Type ν} where
  pub Raises-guard : (b : Bool) (e : E) → P e → Raises P (guard b e)
  Raises-guard true e p = Raises-ok tt
  Raises-guard false e p = Raises-err e p

module _ {ℓ κ μ ν} {E : Type ℓ} {A : Type κ} {B : Type μ} {P : E → Type ν} where
  pub Raises-traverse :
      (f : A → Result E B) (xs : List A) → ((a : A) → Raises P (f a)) → Raises P (traverse f xs)
  Raises-traverse f [] each = Raises-ok []
  Raises-traverse f (x ∷ xs) each =
      Raises-bind (f x) (λ y. traverse f xs >>= λ ys. ok (y ∷ ys)) (each x)
        λ y.
          Raises-bind (traverse f xs) (λ ys. ok (y ∷ ys)) (Raises-traverse f xs each)
            λ ys. Raises-ok (y ∷ ys)

pub ruleset raises_rules = (Raises-ok, Raises-err, Raises-bind, Raises-guard, Raises-traverse)
