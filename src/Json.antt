-- ===== src/Json.antt =====
-- The JSON values that the stores keep in their text columns. `json.dumps` followed by
-- `json.loads` gives such a value back, so a column holds the value itself.
use s13code.Prelude.{ℕ, String, Bool, ◌==◌, if◌then◌else◌, ◌≡◌, refl, inl, inr, eq_self, Bool-cases}

mutual
  pub data Json : Type 0 where
    null : Json
    bool : Bool → Json
    num : ℕ → Json
    real : String → Json
    str : String → Json
    arr : Items → Json
    obj : Fields → Json

  pub data Items : Type 0 where
    nil : Items
    cons : Json → Items → Items

  pub data Fields : Type 0 where
    end : Fields
    field : String → Json → Fields → Fields

-- `d.get(key, default)`
unfoldable pub get_or : String → Json → Fields → Json
get_or key default end = default
get_or key default (field k v rest) = if k == key then v else get_or key default rest

-- `{**fields, key: value}`
abbrev pub put : String → Json → Fields → Fields
put key value end = field key value end
put key value (field k v rest) =
    let others = put key value rest in if k == key then field k value rest else field k v others

-- What was put is read back.
pub get_or-put : (k : String) (d v : Json) (fields : Fields) → get_or k d (put k v fields) ≡ v
unfolding get_or
get_or-put k d v end = rw (eq_self k) refl
get_or-put k d v (field j w rest) = elim (Bool-cases (j == k)) [
  | inl e ↦ rw (e, put) (rw (e, get_or) refl)
  | inr e ↦ rw (e, put) (rw (e, get_or) (get_or-put k d v rest))
]
