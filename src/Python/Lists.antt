-- ===== src/Python/Lists.antt =====
-- Python's `list.remove`, which fastapi_app/core/store.py and fastapi_app/main.py call.
pub mod Counts
use fastapi_project.Prelude.{
  ℕ, suc, ◌≡◌, ◌≢◌, refl, Option, none, some, List, [], ◌∷◌, ◌++◌, arith, length, nat_eq, Bool,
  true, false, ◌+◌, ◌-◌, if◌then◌else◌, Option-cases, inl, inr,
}

abbrev pub keep : ℕ → Option (List ℕ) → Option (List ℕ)
keep v none = none
keep v (some us) = some (v ∷ us)

-- `list.remove(w)`: without the first occurrence, and `none` for the ValueError where there is no
-- occurrence.
unfoldable pub remove : ℕ → List ℕ → Option (List ℕ)
remove w [] = none
remove w (v ∷ vs) = let rest = keep v (remove w vs) in if nat_eq v w then some vs else rest

-- `set.discard(w)`, for a set as the list of its members.
unfoldable pub discard : ℕ → List ℕ → List ℕ
discard w vs = elim (remove w vs) [ none ↦ vs | some us ↦ us ]

abbrev pub one_if : Bool → ℕ
one_if true = 1
one_if false = 0

-- How often a member occurs.
abbrev pub count : ℕ → List ℕ → ℕ
count t [] = 0
count t (v ∷ vs) = one_if (nat_eq v t) + count t vs

pub count-append : (t : ℕ) (vs us : List ℕ) → count t (vs ++ us) ≡ count t vs + count t us
count-append t [] us = omega arith
count-append t (v ∷ vs) us = omega (arith, count-append t vs us)

pub length-remove : (w : ℕ) (vs us : List ℕ) → remove w vs ≡ some us → length vs ≡ suc (length us)
unfolding remove
length-remove w [] us h = cc
length-remove w (v ∷ vs) us h = elim (Option-cases (remove w vs)) [
  | inl gone ↦ ground arith
  | inr (rest, found) ↦ ground (arith, length-remove w vs rest found)
]

pub remove-some : (w : ℕ) (vs us : List ℕ) → remove w vs ≡ some us → vs ≢ []
unfolding remove
remove-some w [] us h e = cc
remove-some w (v ∷ vs) us h e = cc

pub count-remove :
    (t w : ℕ) (vs us : List ℕ)
    → remove w vs ≡ some us
    → count t vs ≡ count t us + one_if (nat_eq w t)
unfolding remove
count-remove t w [] us h = cc
count-remove t w (v ∷ vs) us h = elim (Option-cases (remove w vs)) [
  | inl gone ↦ ground arith
  | inr (rest, found) ↦ ground (arith, count-remove t w vs rest found)
]

pub count-remove-none : (w : ℕ) (vs : List ℕ) → remove w vs ≡ none → count w vs ≡ 0
unfolding remove
count-remove-none w [] h = refl
count-remove-none w (v ∷ vs) h = elim (Option-cases (remove w vs)) [
  | inl gone ↦ ground (arith, count-remove-none w vs)
  | inr (rest, found) ↦ ground arith
]

pub count-discard :
    (t w : ℕ) (vs : List ℕ) → count t (discard w vs) ≡ count t vs - one_if (nat_eq w t)
unfolding discard
count-discard t w vs = elim (Option-cases (remove w vs)) [
  | inl gone ↦ ground (arith, count-remove-none w vs)
  | inr (rest, found) ↦ ground (arith, count-remove t w vs rest found)
]

pub remove-append :
    (w v : ℕ) (vs us : List ℕ)
    → remove w vs ≡ some us
    → remove w (vs ++ v ∷ []) ≡ some (us ++ v ∷ [])
unfolding remove
remove-append w v [] us h = cc
remove-append w v (x ∷ vs) us h = elim (Option-cases (remove w vs)) [
  | inl gone ↦ ground arith
  | inr (rest, found) ↦ ground (arith, remove-append w v vs rest found)
]

pub remove-append_self :
    (w : ℕ) (vs : List ℕ) → remove w vs ≡ none → remove w (vs ++ w ∷ []) ≡ some vs
unfolding remove
remove-append_self w [] h = ground arith
remove-append_self w (x ∷ vs) h = ground (arith, remove-append_self w vs)

-- The test for a member that is another one fails.
nat_eq-ne : (x v w : ℕ) → v ≢ w → nat_eq x v ≡ true → nat_eq x w ≡ false
nat_eq-ne x v w n h = ground arith

discard-cons :
    (v x : ℕ) (vs : List ℕ) → discard v (x ∷ vs) ≡ (if nat_eq x v then vs else x ∷ discard v vs)
unfolding remove discard
discard-cons v x vs = ground arith

pub remove-discard :
    (w v : ℕ) (vs us : List ℕ)
    → v ≢ w
    → remove w vs ≡ some us
    → remove w (discard v vs) ≡ some (discard v us)
unfolding remove
remove-discard w v [] us n h = cc
remove-discard w v (x ∷ vs) us n h = rw (discard-cons v x vs) (elim (Option-cases (remove w vs)) [
  | inl gone ↦ ground (arith, nat_eq-ne x v w n)
  | inr (rest, found) ↦
      ground (arith, nat_eq-ne x v w n, discard-cons v x rest, remove-discard w v vs rest n found)
])
