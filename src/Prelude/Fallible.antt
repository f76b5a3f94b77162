-- ===== src/Prelude/Fallible.antt =====
-- Go's pair of a value and an error, where the error is kept as its text.
use mathlib.Core.Path.{◌≡◌, refl}
use mathlib.Core.Logic.{◌⊎◌, inl, inr}
use opencrow.Prelude.Text.{Text}

pub data Fallible {ℓ} (A : Type ℓ) : Type ℓ where
  value : A → Fallible A
  error : Text → Fallible A

infixl 5 ◌>>=◌
abbrev pub ◌>>=◌ : {A B : Type 0} → Fallible A → (A → Fallible B) → Fallible B
value a >>= f = f a
error e >>= f = error e

-- `fmt.Errorf("... %w", err)`
abbrev pub wrap : {A : Type 0} → (Text → Text) → Fallible A → Fallible A
wrap f (value a) = value a
wrap f (error e) = error (f e)

-- What a result has, if it is one.
pub data Holds {A : Type 0} (P : A → Type 0) : Fallible A → Type 0 where
  held : (a : A) → P a → Holds P (value a)
  failed : (e : Text) → Holds P (error e)

pub Holds-value : {A : Type 0} {P : A → Type 0} (a : A) → Holds P (value a) → P a
Holds-value a (held b p) = p

pub Holds-map :
    {A : Type 0} {P Q : A → Type 0} {m : Fallible A} → ((a : A) → P a → Q a) → Holds P m → Holds Q m
Holds-map f (held a p) = held a (f a p)
Holds-map f (failed e) = failed e

pub >>=-Holds :
    {A B : Type 0} (P : A → Type 0) (Q : B → Type 0) (m : Fallible A) (f : A → Fallible B)
    → Holds P m
    → ((a : A) → P a → Holds Q (f a))
    → Holds Q (m >>= f)
>>=-Holds P Q (value a) f (held b p) k = k a p
>>=-Holds P Q (error e) f h k = failed e

pub Holds-any : {A : Type 0} (m : Fallible A) → Holds (λ _. Unit {0}) m
Holds-any (value a) = held a tt
Holds-any (error e) = failed e

-- An error alone.
abbrev pub Done : Type 0
Done = Fallible (Unit {0})

-- To split on a result and keep the equation.
pub Fallible-cases :
    {A : Type 0} (m : Fallible A) → ((a : A) × (m ≡ value a)) ⊎ ((e : Text) × (m ≡ error e))
Fallible-cases (value a) = inl (a, refl)
Fallible-cases (error e) = inr (e, refl)

pub value_eq : {A : Type 0} {a b : A} → value a ≡ value b → a ≡ b
value_eq h = cc h
