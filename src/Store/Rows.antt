-- ===== src/Store/Rows.antt =====
-- The tables of database/schema.py: one record for each row, without the columns that no modelled
-- module reads (`created_at`, `tags`).
use loobric_server.Base.{ℕ, String, Option}
use loobric_server.Base.Int.{ℤ}
use loobric_server.Base.Dict.{Dict}
use loobric_server.Contract.{
  ClientSection, InstanceCanonical, CatalogCanonical, PresetData, EntryCanonical, ToolSetCanonical,
}

-- `ToolInstanceRecord`
pub record InstanceRow : Type 0 where
  pub id : String
  pub user_id : String
  pub canonical : InstanceCanonical
  pub clients : Dict String ClientSection
  pub version : ℕ
  pub updated_by : String

-- `ToolCatalogRecord`
pub record CatalogRow : Type 0 where
  pub id : String
  pub user_id : String
  pub canonical : CatalogCanonical
  pub clients : Dict String ClientSection
  pub manufacturer_norm : Option String
  pub product_code_norm : Option String
  pub version : ℕ
  pub updated_by : String

-- `PresetContribution`: its columns, and the normalized `data`.
pub data RecordKind : Type 0 where
  catalog instance : RecordKind

pub record PresetRow : Type 0 where
  pub id : String
  pub user_id : String
  pub record_kind : RecordKind
  pub record_id : String
  pub origin : String
  pub label : String
  pub op_type : Option String
  pub machine_id : Option String
  pub contents : PresetData
  pub preset_schema : ℕ
  pub source : String
  pub updated_by : String

-- `ToolTableEntryRecord`
pub record EntryRow : Type 0 where
  pub id : String
  pub user_id : String
  pub machine_id : String
  pub bound_instance_id : Option String
  pub canonical : EntryCanonical
  pub clients : Dict String ClientSection
  pub usage_baseline_instance_id : Option String
  pub version : ℕ
  pub updated_by : String

-- `ToolSetRecord`
pub record SetRow : Type 0 where
  pub id : String
  pub user_id : String
  pub canonical : ToolSetCanonical

pub data MapStatus : Type 0 where
  active ended : MapStatus

-- `MachineSetMap`: a setup.
pub record MapRow : Type 0 where
  pub id : String
  pub user_id : String
  pub machine_id : String
  pub tool_set_id : String
  pub status : MapStatus
  pub activated_at : ℕ
  pub ended_at : Option ℕ
  pub activated_key : Option String
  pub created_by : String
  pub ended_by : Option String
  pub ended_key : Option String
  pub version : ℕ
  pub updated_by : String

-- `UsageLedger`: `amount` and `counter_value` in micro-hours.
pub record UsageRow : Type 0 where
  pub id : String
  pub user_id : String
  pub entry_id : String
  pub machine_id : String
  pub instance_id : Option String
  pub metric : String
  pub amount : ℕ
  pub counter_value : ℕ
  pub source : String

pub data ProposalStatus : Type 0 where
  is_open confirmed rejected : ProposalStatus

-- The texts that the engine gives as a reason, with what stands in them.
pub data Reason : Type 0 where
  no_overlap requested_via_set : Reason
  diameter_matches : ℤ → Reason
  requested_via : String → Reason

-- `EntryProposal`: `confidence` in thousandths, as it is rounded.
pub record ProposalRow : Type 0 where
  pub id : String
  pub user_id : String
  pub entry_id : String
  pub proposed_instance_id : String
  pub confidence : ℕ
  pub reason : Reason
  pub status : ProposalStatus
  pub version : ℕ
  pub updated_by : String

-- `AuditLog`, without the `changes` document.
pub record AuditRow : Type 0 where
  pub id : String
  pub user_id : String
  pub timestamp : ℕ
  pub operation : String
  pub entity_type : String
  pub entity_id : String
  pub channel : Option String
  pub api_key_id : Option String
