-- ===== src/Config/Errors.antt =====
-- The errors of `validate` of config.go, for a matrix and for a signal configuration.
use opencrow.Prelude.{◌≡◌, refl, ◌⊎◌, inl, inr, false, List, [], ◌∷◌, arith, Bool-cases}
use opencrow.Prelude.Text.{Text, is_empty}
use opencrow.Prelude.Fallible.{Holds, held, failed}
use opencrow.Config.Types.{MatrixConfig, SignalConfig}
use opencrow.Config.Load.{matrix_errors, signal_errors, joined_errors}

-- The text is set.
abbrev pub HasText : Text → Type 0
HasText t = is_empty t ≡ false

pub joined_errors-Holds :
    {A : Type 0} (P : A → Type 0) (a : A) (es : List Text)
    → (es ≡ [] → P a)
    → Holds P (joined_errors a es)
joined_errors-Holds P a [] k = held a (k refl)
joined_errors-Holds P a (e ∷ es) k = failed _

pub matrix_errors-nil :
    (m : MatrixConfig)
    → matrix_errors m ≡ []
    → HasText m.homeserver × HasText m.user_id × (HasText m.access_token ⊎ HasText m.password)
unfolding matrix_errors
matrix_errors-nil m h = elim (Bool-cases (is_empty m.homeserver)) [
  | inl e ↦ absurd (ground arith)
  | inr e ↦ elim (Bool-cases (is_empty m.user_id)) [
    | inl f ↦ absurd (ground arith)
    | inr f ↦ elim (Bool-cases (is_empty m.access_token)) [
      | inl g ↦ elim (Bool-cases (is_empty m.password)) [
        | inl k ↦ absurd (ground arith)
        | inr k ↦ (e, f, inr k)
      ]
      | inr g ↦ (e, f, inl g)
    ]
  ]
]

pub signal_errors-nil :
    (s : SignalConfig)
    → signal_errors s ≡ []
    → HasText s.account × HasText s.binary_path × HasText s.socket_path
unfolding signal_errors
signal_errors-nil s h = elim (Bool-cases (is_empty s.account)) [
  | inl e ↦ absurd (ground arith)
  | inr e ↦ elim (Bool-cases (is_empty s.binary_path)) [
    | inl f ↦ absurd (ground arith)
    | inr f ↦ elim (Bool-cases (is_empty s.socket_path)) [
      | inl g ↦ absurd (ground arith)
      | inr g ↦ (e, f, g)
    ]
  ]
]
