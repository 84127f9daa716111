-- ===== src/Json.antt =====
-- JSON values: what `json.dumps` is given and `json.loads` returns in rmq/, and the bodies of the
-- responses. A nested list or object is a type of its own in the block.
use fastapi_project.Prelude.{String, ◌≡◌, refl, Bool, [], ◌∷◌, ap}
use fastapi_project.Dict.{Dict}
use fastapi_project.Python.Int.{ℤ}

mutual
  pub data Json : Type 0 where
    null : Json
    bool : Bool → Json
    int : ℤ → Json
    str : String → Json
    arr : Items → Json
    obj : Fields → Json

  pub data Items : Type 0 where
    nil : Items
    cons : Json → Items → Items

  pub data Fields : Type 0 where
    end : Fields
    field : String → Json → Fields → Fields

abbrev pub entries : Fields → Dict Json
entries end = []
entries (field k v fs) = (k, v) ∷ entries fs

abbrev pub fields : Dict Json → Fields
fields [] = end
fields ((k, v) ∷ d) = field k v (fields d)

-- An object has the entries that it was made of.
pub entries-fields : (d : Dict Json) → entries (fields d) ≡ d
entries-fields [] = refl
entries-fields ((k, v) ∷ d) = ap (λ (e : Dict Json). (k, v) ∷ e) (entries-fields d)
