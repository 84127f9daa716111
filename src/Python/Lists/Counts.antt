-- ===== src/Python/Lists/Counts.antt =====
-- How often the members of a list occur, against bounds on the members.
use fastapi_project.Prelude.{
  ℕ, zero, suc, ◌+◌, ◌≤◌, ◌<◌, ◌≡◌, refl, ap, sym, some, none, List, [], ◌∷◌, arith, ltb, nat_eq,
  get_elem?, Bool-cases, inl, inr, true, false,
}
use fastapi_project.Python.Lists.{remove, count, one_if, count-remove-none}

pub no_more : (w : ℕ) → 0 ≡ one_if (ltb w 0)
no_more w = ground arith

pub one_more : (w n : ℕ) → one_if (ltb w (suc n)) ≡ one_if (ltb w n) + one_if (nat_eq n w)
one_more w n = ground arith

pub one_if_self : (w : ℕ) → one_if (nat_eq w w) ≡ 1
one_if_self w = ground arith

pub same_number : (v w : ℕ) → nat_eq v w ≡ true → v ≡ w
same_number v w h = ground arith

pub accepted_if : (w n : ℕ) → 1 ≤ one_if (ltb w n) → w < n
accepted_if w n h = ground arith

pub is_accepted : (w n : ℕ) → w < n → one_if (ltb w n) ≡ 1
is_accepted w n h = ground arith

pub other_first : (v w : ℕ) (vs : List ℕ) → nat_eq v w ≡ false → count w (v ∷ vs) ≡ count w vs
other_first v w vs h = ground arith

-- A bound on how often members occur, with one more of one of them.
pub more_at :
    (v w : ℕ) (vs us : List ℕ)
    → suc (count v vs) ≤ count v us
    → count w vs ≤ count w us
    → count w (v ∷ vs) ≤ count w us
more_at v w vs us more le = elim (Bool-cases (nat_eq v w)) [
  | inl same ↦
      let e : v ≡ w = same_number v w same in
      rw same (omega (arith, more, ap (λ x. count x vs) e, ap (λ x. count x us) e))
  | inr other ↦ rw other (omega (arith, le))
]

pub get_elem?-All :
    (n : ℕ) (conns : List ℕ) (i w : ℕ)
    → ((v : ℕ) → 1 ≤ count v conns → v < n)
    → get_elem? conns i ≡ some w
    → w < n
get_elem?-All n [] i w h e = cc
get_elem?-All n (v ∷ conns) zero w h e =
    let first : v ≡ w = ground arith in rw (← first) (h v (omega (arith, one_if_self v)))
get_elem?-All n (v ∷ conns) (suc i) w h e =
    get_elem?-All n conns i w (λ u k. h u (omega (arith, k))) e

pub count-none : (vs : List ℕ) → ((w : ℕ) → count w vs ≤ 0) → vs ≡ []
count-none [] h = refl
count-none (v ∷ vs) h = absurd (omega (arith, h v, one_if_self v))

count_self : (v : ℕ) (vs : List ℕ) → 1 ≤ count v (v ∷ vs)
count_self v vs = ground arith

pub count_of_none :
    (t task : ℕ) (vs us : List ℕ)
    → remove task vs ≡ none
    → remove task us ≡ none
    → (n : ℕ) → count t vs + count t us ≤ one_if (nat_eq task t) + n
    → count t vs + count t us ≤ n
count_of_none t task vs us h k n le = elim (Bool-cases (nat_eq task t)) [
  | inl same ↦
      let e = same_number task t same in
      rw (sym e) (omega (arith, count-remove-none task vs h, count-remove-none task us k))
  | inr other ↦ omega (arith, le, ap one_if other)
]

pub count-zero : (vs : List ℕ) → ((t : ℕ) → count t vs ≤ 0) → vs ≡ []
count-zero [] h = refl
count-zero (v ∷ vs) h = absurd (omega (arith, h v, count_self v vs))
