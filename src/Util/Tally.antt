-- ===== src/Util/Tally.antt =====
-- How many entries of a list pass a test, and what taking one entry out does to that.
use mock_server.Prelude.{
  ℕ, zero, suc, ◌+◌, ◌≡◌, Bool, List, [], ◌∷◌, ◌++◌, some, length, if◌then◌else◌, arith,
  Option-cases, inl, inr,
}
use mock_server.Util.Queue.Monitor.{pick}

abbrev pub tally {ℓ} : {A : Type ℓ} → (A → Bool) → List A → ℕ
tally p [] = 0
tally p (x ∷ xs) = (if p x then 1 else 0) + tally p xs

pub tally-append {ℓ} :
    {A : Type ℓ} (p : A → Bool) (xs ys : List A) → tally p (xs ++ ys) ≡ tally p xs + tally p ys
tally-append p [] ys = omega arith
tally-append p (x ∷ xs) ys = ground (arith, tally-append p xs ys)

-- The entry that is picked, and the rest, hold together what the list holds.
pub tally-pick {ℓ} :
    {A : Type ℓ} (p : A → Bool) (i : ℕ) (xs : List A) (x : A) (rest : List A)
    → pick i xs ≡ some (x, rest)
    → tally p xs ≡ tally p (x ∷ rest)
unfolding pick
tally-pick p i [] x rest h = cc
tally-pick p i (y ∷ []) x rest h = ground arith
tally-pick p zero (y ∷ z ∷ l) x rest h = ground arith
tally-pick p (suc i) (y ∷ z ∷ l) x rest h = elim (Option-cases (pick i (z ∷ l))) [
  | inl e ↦ ground arith
  | inr ((w, r), e) ↦ ground (arith, tally-pick p i (z ∷ l) w r e)
]

pub length-pick {ℓ} :
    {A : Type ℓ} (i : ℕ) (xs : List A) (x : A) (rest : List A)
    → pick i xs ≡ some (x, rest)
    → length xs ≡ suc (length rest)
unfolding pick
length-pick i [] x rest h = cc
length-pick i (y ∷ []) x rest h = ground arith
length-pick zero (y ∷ z ∷ l) x rest h = ground arith
length-pick (suc i) (y ∷ z ∷ l) x rest h = elim (Option-cases (pick i (z ∷ l))) [
  | inl e ↦ ground arith
  | inr ((w, r), e) ↦ ground (arith, length-pick i (z ∷ l) w r e)
]
