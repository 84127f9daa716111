-- ===== src/Dict.antt =====
-- Python's `dict` with string keys, as the program uses it in core/store.py, core/jobs.py,
-- routers/ and rmq/: a list of entries in order of insertion.
use mathlib.Core.Option
use fastapi_project.Prelude.{
  String, ◌≡◌, refl, Option, none, some, List, [], ◌∷◌, arith, ◌==◌, eq_iff, eq_refl, if◌then◌else◌,
  All, ◌++◌,
}

abbrev pub Dict {ℓ} : Type ℓ → Type ℓ
Dict V = List (String × V)

module _ {ℓ} {V : Type ℓ} where
  -- d.get(k), and d[k] where the key is there
  unfoldable pub get : String → Dict V → Option V
  get k [] = none
  get k ((j, v) ∷ d) = if j == k then some v else get k d

  -- d[k] = v: an existing key keeps its place, a new one goes to the end
  unfoldable pub set : String → V → Dict V → Dict V
  set k v [] = (k, v) ∷ []
  set k v ((j, w) ∷ d) = let rest = set k v d in if j == k then (j, v) ∷ d else (j, w) ∷ rest

  -- d.pop(k, None)
  unfoldable pub pop : String → Dict V → Dict V
  pop k [] = []
  pop k ((j, w) ∷ d) = let rest = pop k d in if j == k then rest else (j, w) ∷ rest

  -- {**d, **e}
  unfoldable pub merge : Dict V → Dict V → Dict V
  unfolding set
  merge d [] = d
  merge d ((k, v) ∷ e) = merge (set k v d) e

  -- list(d.values())
  abbrev pub values : Dict V → List V
  values [] = []
  values ((k, v) ∷ d) = v ∷ values d

  pub get-set :
      (k j : String) (v : V) (d : Dict V) → get j (set k v d) ≡ (if k == j then some v else get j d)
  unfolding get set
  get-set k j v [] = refl
  get-set k j v ((i, w) ∷ d) = ground (arith, eq_iff i k, eq_iff i j, eq_iff k j, get-set k j v d)

  pub get-pop : (k j : String) (d : Dict V) → get j (pop k d) ≡ (if k == j then none else get j d)
  unfolding get pop
  get-pop k j [] = ground arith
  get-pop k j ((i, w) ∷ d) = ground (arith, eq_iff i k, eq_iff i j, eq_iff k j, get-pop k j d)

  pub get-set_self : (k : String) (v : V) (d : Dict V) → get k (set k v d) ≡ some v
  get-set_self k v d = simp (get-set, eq_refl)

  pub get-pop_self : (k : String) (d : Dict V) → get k (pop k d) ≡ none
  get-pop_self k d = simp (get-pop, eq_refl)

  -- A key that is new goes to the end, and the others stay as they are.
  pub set_of_none :
      (k : String) (v : V) (d : Dict V) → get k d ≡ none → set k v d ≡ d ++ (k, v) ∷ []
  unfolding get set
  set_of_none k v [] h = refl
  set_of_none k v ((i, w) ∷ d) h = ground (arith, set_of_none k v d)

  pub values-append : (d e : Dict V) → values (d ++ e) ≡ values d ++ values e
  values-append [] e = refl
  values-append ((k, v) ∷ d) e = ground (arith, values-append d e)

module _ {ℓ} {V : Type ℓ} where
  -- No key stands twice, as in every dictionary of Python.
  abbrev pub HasDistinctKeys : Dict V → Type ℓ
  HasDistinctKeys [] = Unit
  HasDistinctKeys ((k, v) ∷ d) = (get k d ≡ none) × HasDistinctKeys d

  pub set-HasDistinctKeys :
      (k : String) (v : V) (d : Dict V) → HasDistinctKeys d → HasDistinctKeys (set k v d)
  unfolding get set
  set-HasDistinctKeys k v [] h = (refl, tt)
  set-HasDistinctKeys k v ((i, w) ∷ d) h =
      ground (arith, set-HasDistinctKeys k v d h.1, get-set k i v d, eq_iff i k, eq_iff k i)

  pub pop-HasDistinctKeys :
      (k : String) (d : Dict V) → HasDistinctKeys d → HasDistinctKeys (pop k d)
  unfolding pop
  pop-HasDistinctKeys k [] h = tt
  pop-HasDistinctKeys k ((i, w) ∷ d) h = ground (arith, pop-HasDistinctKeys k d h.1, get-pop k i d)

  pub merge-HasDistinctKeys : (d e : Dict V) → HasDistinctKeys d → HasDistinctKeys (merge d e)
  unfolding merge
  merge-HasDistinctKeys d [] h = h
  merge-HasDistinctKeys d ((k, v) ∷ e) h =
      merge-HasDistinctKeys (set k v d) e (set-HasDistinctKeys k v d h)

  -- A key that the second dictionary does not have keeps its value.
  pub get-merge : (k : String) (d e : Dict V) → get k e ≡ none → get k (merge d e) ≡ get k d
  unfolding get merge
  get-merge k d [] h = refl
  get-merge k d ((i, w) ∷ e) h = ground (arith, get-merge k (set i w d) e, get-set i k w d)

module _ {ℓ κ} {V : Type ℓ} (P : V → Type κ) where
  pub set-All :
      (k : String) (v : V) (d : Dict V) → P v → All P (values d) → All P (values (set k v d))
  unfolding set
  set-All k v [] p h = (p, tt)
  set-All k v ((i, w) ∷ d) p h = ground (arith, set-All k v d p h.1)

  pub pop-All : (k : String) (d : Dict V) → All P (values d) → All P (values (pop k d))
  unfolding pop
  pop-All k [] h = h
  pop-All k ((i, w) ∷ d) h = ground (arith, pop-All k d h.1)

  pub get-All : (k : String) (v : V) (d : Dict V) → All P (values d) → get k d ≡ some v → P v
  unfolding get
  get-All k v [] h e = ground arith
  get-All k v ((i, w) ∷ d) h e = ground (arith, get-All k v d h.1)

module _ {ℓ κ} {V : Type ℓ} {W : Type κ} (f : V → W) where
  -- {k: f(v) for k, v in d.items()}
  abbrev pub map_values : Dict V → Dict W
  map_values [] = []
  map_values ((k, v) ∷ d) = (k, f v) ∷ map_values d

  pub get-map_values : (k : String) (d : Dict V) → get k (map_values d) ≡ Option.map f (get k d)
  unfolding get
  get-map_values k [] = refl
  get-map_values k ((j, v) ∷ d) = ground (arith, get-map_values k d)

  pub set-map_values :
      (k : String) (v : V) (d : Dict V) → set k (f v) (map_values d) ≡ map_values (set k v d)
  unfolding set
  set-map_values k v [] = refl
  set-map_values k v ((j, w) ∷ d) = ground (arith, set-map_values k v d)
