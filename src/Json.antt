-- ===== src/Json.antt =====
-- JSON values, as `json.loads` returns them, and the first `{…}` of a chatty text.
use multi_agent_ai_analyst.Prelude.{
  ◌≡◌, refl, Bool, [], ◌∷◌, Option, none, some, ◌==◌, if◌then◌else◌,
}
use multi_agent_ai_analyst.Prelude.Text.{Text, codes, text_eq}

-- The value of a number is not read by this code.
mutual
  pub data Json : Type 0 where
    null number : Json
    boolean : Bool → Json
    str : Text → Json
    array : Items → Json
    object : Fields → Json

  pub data Items : Type 0 where
    nil : Items
    item : Json → Items → Items

  pub data Fields : Type 0 where
    end : Fields
    field : Text → Json → Fields → Fields

-- `d.get(key)`. The keys of a dict are distinct.
unfoldable pub get_field : Text → Fields → Option Json
unfolding text_eq
get_field key end = none
get_field key (field k v rest) = if text_eq k key then some v else get_field key rest

-- The text up to and with the first `}`.
upto_brace : Text → Option Text
upto_brace [] = none
upto_brace (c ∷ s) = elim (upto_brace s) [
  | none ↦ if c == b'}' then some (c ∷ []) else none
  | some t ↦ if c == b'}' then some (c ∷ []) else some (c ∷ t)
]

-- `re.search(r"\{.*?\}", raw, re.DOTALL)`: a later `{` has a `}` after it only if this one has.
unfoldable pub json_object : Text → Option Text
unfolding upto_brace
json_object [] = none
json_object (c ∷ s) =
    let here = upto_brace (c ∷ s) in let later = json_object s in if c == b'{' then here else later

json_object_example : json_object (codes "so {\"a\":1} or {}") ≡ some (codes "{\"a\":1}")
unfolding json_object
json_object_example = refl
