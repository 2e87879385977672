-- ===== src/Contract.antt =====
-- contract/models.py: provenance, and the canonical documents of the sectioned records.
--
-- A canonical leaf is a `Field`. Its value is `none` where the source has null. A number is a
-- whole number of micro-units, so the decimals that the clients send are exact; a tool number is
-- an integer. The leaves that the modelled modules never touch (item_type, components, media) have no field here.
pub mod Provenance
use loobric_server.Base.{ℕ, String, Option, none, List}
use loobric_server.Base.Int.{ℤ}
use loobric_server.Base.Json.{Members}
use loobric_server.Base.Dict.{Dict}

pub record Field (A : Type 0) : Type 0 where
  pub value : Option A
  pub unit : Option String
  pub source : String

abbrev pub unknown : String
unknown = "unknown"

-- `{"value": None, "source": UNKNOWN}`
abbrev pub unknown_field : {A : Type 0} → Field A
unknown_field = record { value = none; unit = none; source = unknown }

-- One client's section: its envelope and the opaque data, here the text of the JSON.
pub record ClientSection : Type 0 where
  pub client_version : String
  pub client_item_id : Option String
  pub created_at : ℕ
  pub updated_at : ℕ
  pub data_text : String

-- An engineering value of a preset, `{value[, unit]}`, and `PresetMaterial`.
pub record Leaf : Type 0 where
  pub value : ℤ
  pub unit : Option String

pub record PresetMaterial : Type 0 where
  pub name : String
  pub uuid : Option String

-- The `data` column of a contribution.
pub record PresetData : Type 0 where
  pub material : PresetMaterial
  pub vc : Option Leaf
  pub fz : Option Leaf
  pub ratio : Option Leaf
  pub extras : Option Members

-- `PresetEntry`, without `updated_at`.
pub record PresetEntry : Type 0 where
  pub id : String
  pub origin : String
  pub label : String
  pub op_type : Option String
  pub machine_id : Option String
  pub contents : PresetData
  pub preset_schema : ℕ
  pub source : String

-- `InstanceCanonical`, with `usage.hours` as one optional leaf.
pub record InstanceCanonical : Type 0 where
  pub name : Field String
  pub catalog_type_id : Field String
  pub geometry : Dict String (Field ℤ)
  pub usage_hours : Option (Field ℕ)
  pub status : Option (Field String)
  pub presets : Option (Field (List PresetEntry))

-- The leaves of `CatalogCanonical` that name the type, and its presets.
pub record CatalogCanonical : Type 0 where
  pub name : Field String
  pub manufacturer : Field String
  pub product_code : Field String
  pub presets : Option (Field (List PresetEntry))

-- `EntryCanonical`
pub record EntryCanonical : Type 0 where
  pub tool_number : Field ℤ
  pub bound_instance_id : Field String
  pub description : Option (Field String)
  pub offsets : Dict String (Field ℤ)
  pub usage_hours : Option (Field ℕ)

-- `SetMember` as stored: `observed` and `state` are derived on reading.
pub record SetMember : Type 0 where
  pub tool_record_id : String
  pub number : Option (Field ℤ)

-- `ToolSetCanonical`
pub record ToolSetCanonical : Type 0 where
  pub name : Field String
  pub members : List SetMember

-- The value of an optional leaf: `(doc.get(key) or {}).get("value")`.
abbrev pub leaf_value : {A : Type 0} → Option (Field A) → Option A
leaf_value none = none
leaf_value (Option.some f) = f.value
