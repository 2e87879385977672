-- ===== src/Presets.antt =====
-- presets.py: what a contribution of a cutting data preset must be. A PresetError is `none`.
--
-- A payload is an object of JSON. `str.strip`, `str.lower` and `str(x)` of a value that is no text are
-- parameters (`Texts`).
pub mod Door
pub mod Floor
pub mod Contributed
pub mod Union
use loobric_server.Base.{
  ℕ, suc, String, Bool, true, false, not, ◌&&◌, ◌||◌, Option, none, some, List, [], ◌∷◌, any, every,
  str_eq, is_none, nat_eq, if◌then◌else◌,
}
use loobric_server.Base.Int.{ℤ, pos, negsuc}
use loobric_server.Base.Json.{
  Json, null, number, str, object, Members, get, has_member, keys, truthy,
}
use loobric_server.Contract.{Leaf, PresetMaterial, PresetData}

pub record Texts : Type 0 where
  pub strip : String → String
  pub lower : String → String
  pub show : Json → String

-- `OP_TYPES`
abbrev pub op_types : List String
op_types =
    "profiling" ∷ "slotting" ∷ "pocketing" ∷ "adaptive" ∷ "facing" ∷ "drilling" ∷ "boring"
    ∷ "threading" ∷ "engraving" ∷ "chamfering" ∷ []

abbrev pub preset_schema : ℕ
preset_schema = 1

-- Whether every key of an object is known.
abbrev pub known_keys : List String → Members → Bool
known_keys known ms = every (λ k. any (str_eq k) known) (keys ms)

-- A value of each check: refused, or passed with its result.
infixl 5 ◌then◌
unfoldable pub ◌then◌ : {A B : Type 0} → Option A → (A → Option B) → Option B
none then f = none
some a then f = f a

unfoldable pub guard : Bool → Option (Unit {0})
guard b = if b then some tt else none

-- The normalized shape.
pub record Normalized : Type 0 where
  pub origin : String
  pub label : String
  pub op_type : Option String
  pub machine_id : Option String
  pub contents : PresetData

abbrev pub known : List String
known =
    "origin" ∷ "label" ∷ "material" ∷ "op_type" ∷ "vc" ∷ "fz" ∷ "ratio" ∷ "extras" ∷ "machine_id"
    ∷ []

module _ (py : Texts) where
  -- `str(x)`
  abbrev pub to_text : Json → String
  to_text (str t) = t
  to_text v = py.show v

  -- `str(x or "").strip()`
  unfoldable pub stripped : Json → String
  stripped v = if truthy v then py.strip (to_text v) else py.strip ""

  -- The unit of an engineering leaf.
  unfoldable pub clean_unit : Json → Option (Option String)
  clean_unit null = some none
  clean_unit (str t) = if str_eq (py.strip t) "" then none else some (some (py.strip t))
  clean_unit _ = none

  -- A number above zero; a bool is no number.
  unfoldable pub clean_value : Json → Option ℤ
  clean_value (number (pos n)) = if nat_eq n 0 then none else some (pos n)
  clean_value _ = none

  unfoldable pub clean_members : Members → Option (Option Leaf)
  clean_members ms = guard (has_member "value" ms) then λ _. clean_value (get "value" ms) then λ v.
      clean_unit (get "unit" ms) then λ u. guard (known_keys ("value" ∷ "unit" ∷ []) ms) then λ _.
      some (some (record { value = v; unit = u }))

  -- `_clean_value_unit`
  unfoldable pub clean_value_unit : Json → Option (Option Leaf)
  clean_value_unit null = some none
  clean_value_unit (object ms) = clean_members ms
  clean_value_unit _ = none

  -- `str(x).strip()` of a value that is present.
  unfoldable pub stripped_if_present : Json → Option String
  stripped_if_present null = none
  stripped_if_present v = some (py.strip (to_text v))

  unfoldable pub clean_material : Json → Option PresetMaterial
  clean_material (object ms) = guard (not (str_eq (stripped (get "name" ms)) "")) then λ _.
      guard (known_keys ("name" ∷ "uuid" ∷ []) ms) then λ _. some (record {
        name = py.strip (to_text (get "name" ms));
        uuid = stripped_if_present (get "uuid" ms);
      })
  clean_material _ = none

  unfoldable pub clean_op_type : Json → Option (Option String)
  clean_op_type null = some none
  clean_op_type v =
      let t = py.strip (to_text v) in if any (str_eq t) op_types then some (some t) else none

  unfoldable pub clean_extras : Json → Option (Option Members)
  clean_extras null = some none
  clean_extras (object ms) = some (some ms)
  clean_extras _ = none

  unfoldable pub clean_machine : Json → Option String
  clean_machine null = none
  clean_machine v = let t = py.strip (to_text v) in if str_eq t "" then none else some t

  unfoldable pub normalize_members : Members → Option Normalized
  normalize_members ms = guard (not (str_eq (stripped (get "origin" ms)) "")) then λ _.
      guard (not (str_eq (stripped (get "label" ms)) "")) then λ _.
      clean_material (get "material" ms) then λ material.
      clean_op_type (get "op_type" ms) then λ op_type. clean_value_unit (get "vc" ms) then λ vc.
      clean_value_unit (get "fz" ms) then λ fz. clean_value_unit (get "ratio" ms) then λ ratio.
      guard (not (is_none vc && is_none fz && is_none ratio)) then λ _.
      clean_extras (get "extras" ms) then λ extras. guard (known_keys known ms) then λ _.
      some (record {
        origin = stripped (get "origin" ms);
        label = stripped (get "label" ms);
        op_type = op_type;
        machine_id = clean_machine (get "machine_id" ms);
        contents = record { material = material; vc = vc; fz = fz; ratio = ratio; extras = extras };
      })

  -- `normalize_contribution`
  unfoldable pub normalize_contribution : Json → Option Normalized
  normalize_contribution (object ms) = normalize_members ms
  normalize_contribution _ = none
