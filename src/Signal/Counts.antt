-- ===== src/Signal/Counts.antt =====
-- The calls and the responses of one id in signal/rpc.go, counted.
use opencrow.Prelude.{
  ℕ, suc, ◌+◌, ◌≤◌, ◌≡◌, refl, subst, inl, inr, true, List, [], ◌∷◌, ◌++◌, if◌then◌else◌, arith,
  Bool-cases,
}
use opencrow.Prelude.Text.{Text, text_eq, text_eq_sound}
use opencrow.Signal.Rpc.{RpcResponse, is_pending, without_id, delivered_to_all}

-- How often a call with the id waits, and how many responses it was given.
abbrev pub waiting : Text → List Text → ℕ
waiting id [] = 0
waiting id (x ∷ xs) = if text_eq x id then suc (waiting id xs) else waiting id xs

abbrev pub responses : Text → List (Text × RpcResponse) → ℕ
responses id [] = 0
responses id ((x, r) ∷ xs) = if text_eq x id then suc (responses id xs) else responses id xs

pub responses-append :
    (id : Text) (xs ys : List (Text × RpcResponse))
    → responses id (xs ++ ys) ≡ responses id xs + responses id ys
responses-append id [] ys = omega arith
responses-append id ((x, r) ∷ xs) ys = ground (arith, responses-append id xs ys)

pub responses-delivered_to_all :
    (id : Text) (r : RpcResponse) (ids : List Text)
    → responses id (delivered_to_all r ids) ≡ waiting id ids
responses-delivered_to_all id r [] = refl
responses-delivered_to_all id r (x ∷ xs) = ground (arith, responses-delivered_to_all id r xs)

pub waiting-without_id_le :
    (id x : Text) (xs : List Text) → waiting id (without_id x xs) ≤ waiting id xs
unfolding without_id
waiting-without_id_le id x [] = omega arith
waiting-without_id_le id x (y ∷ ys) = ground (arith, waiting-without_id_le id x ys)

pub waiting-without_id_self : (id : Text) (xs : List Text) → waiting id (without_id id xs) ≡ 0
unfolding without_id
waiting-without_id_self id [] = refl
waiting-without_id_self id (y ∷ ys) = ground (arith, waiting-without_id_self id ys)

pub waiting-is_pending : (id : Text) (xs : List Text) → is_pending id xs ≡ true → 1 ≤ waiting id xs
unfolding is_pending
waiting-is_pending id [] h = cc
waiting-is_pending id (y ∷ ys) h = ground (arith, waiting-is_pending id ys)

-- The numbers of an id in all.
abbrev pub calls : Text → List Text → List (Text × RpcResponse) → ℕ
calls id pending delivered = waiting id pending + responses id delivered

-- A call with the id that waits gets its response.
pub calls-taken :
    (k : ℕ) (x : Text) (r : RpcResponse) (pending : List Text)
    (delivered : List (Text × RpcResponse)) (id : Text)
    → is_pending x pending ≡ true
    → calls id pending delivered ≤ k
    → calls id (without_id x pending) (delivered ++ (x, r) ∷ []) ≤ k
calls-taken k x r pending delivered id e h = elim (Bool-cases (text_eq x id)) [
  | inl same ↦
      rw (responses-append id delivered ((x, r) ∷ []), same)
        (omega (
          arith,
          subst (λ i. waiting i (without_id x pending) ≡ 0) (text_eq_sound x id same)
              (waiting-without_id_self x pending),
          subst (λ i. 1 ≤ waiting i pending) (text_eq_sound x id same)
              (waiting-is_pending x pending e),
        ))
  | inr ne ↦
      rw (responses-append id delivered ((x, r) ∷ []), ne)
        (omega (arith, waiting-without_id_le id x pending))
]

pub calls-begun :
    (id x : Text) (pending : List Text) (delivered : List (Text × RpcResponse))
    → calls id pending delivered ≤ 1
    → calls x pending delivered ≡ 0
    → calls id (x ∷ without_id x pending) delivered ≤ 1
calls-begun id x pending delivered h free = elim (Bool-cases (text_eq x id)) [
  | inl same ↦ rw same (
      omega (
        arith,
        subst (λ i. waiting i (without_id x pending) ≡ 0) (text_eq_sound x id same)
            (waiting-without_id_self x pending),
        subst (λ i. calls i pending delivered ≡ 0) (text_eq_sound x id same) free,
      ))
  | inr ne ↦ rw ne (omega (arith, waiting-without_id_le id x pending))
]
