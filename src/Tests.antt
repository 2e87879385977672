-- ===== src/Tests.antt =====
-- A small shop, and each theorem at it: a mill `m1` of the user `ann`, whose table holds the tool
-- `i1` in pocket 1 and something unknown in pocket 2.
pub mod Machine
pub mod Setup
pub mod Table
pub mod Hours
pub mod Access
pub mod Account
pub mod Code
pub mod Feed
pub mod Undo
pub mod Push
pub mod Preset
pub mod Sync
pub mod Request
use loobric_server.Base.{
  ℕ, zero, suc, ◌≡◌, refl, ◌≢◌, String, Option, none, some, List, [], ◌∷◌, true, false, str_eq,
  str_eq_iff, arith,
}
use loobric_server.Base.Int.{ℤ, pos}
use loobric_server.Contract.{
  Field, unknown_field, InstanceCanonical, EntryCanonical, SetMember, ToolSetCanonical,
}
use loobric_server.Store.{Db, Session, constraints_hold}
use loobric_server.Store.Frame.{IsSound}
use loobric_server.Store.Rows.{
  InstanceRow, EntryRow, SetRow, MapRow, active, ProposalRow, UsageRow, AuditRow,
}

abbrev pub seen : ℕ → Field ℤ
seen n = record { value = some (pos n); unit = none; source = "observed:linuxcnc@m1" }

abbrev pub instance_row : String → Option (Field ℕ) → InstanceRow
instance_row id hours = record {
  id = id;
  user_id = "ann";
  canonical = record {
    name = unknown_field;
    catalog_type_id = unknown_field;
    geometry = ("diameter", seen 6000000) ∷ [];
    usage_hours = hours;
    status = none;
    presets = none;
  };
  clients = [];
  version = 1;
  updated_by = "ann";
}

abbrev pub entry_row : String → ℕ → Option String → EntryRow
entry_row id n bound = record {
  id = id;
  user_id = "ann";
  machine_id = "m1";
  bound_instance_id = bound;
  canonical = record {
    tool_number = seen n;
    bound_instance_id = unknown_field;
    description = none;
    offsets = ("diameter", seen 6000000) ∷ [];
    usage_hours =
        some (record { value = some 10; unit = some "h"; source = "observed:linuxcnc@m1" });
  };
  clients = [];
  usage_baseline_instance_id = bound;
  version = 1;
  updated_by = "ann";
}

abbrev pub pocket1 : EntryRow
pocket1 = entry_row "e1" 1 (some "i1")

abbrev pub pocket2 : EntryRow
pocket2 = entry_row "e2" 2 none

abbrev pub set_member : String → ℕ → SetMember
set_member id n = record { tool_record_id = id; number = some (seen n) }

abbrev pub set_row : String → List SetMember → SetRow
set_row id members = record {
  id = id;
  user_id = "ann";
  canonical = record { name = unknown_field; members = members };
}

abbrev pub first_set : SetRow
first_set = set_row "s1" (set_member "i1" 1 ∷ [])

abbrev pub second_set : SetRow
second_set = set_row "s2" (set_member "i2" 2 ∷ [])

abbrev pub setup : String → String → MapRow
setup id user = record {
  id = id;
  user_id = user;
  machine_id = "m1";
  tool_set_id = "s1";
  status = active;
  activated_at = 1;
  ended_at = none;
  activated_key = none;
  created_by = user;
  ended_by = none;
  ended_key = none;
  version = 1;
  updated_by = user;
}

abbrev pub shop_with : String → Db
shop_with user = record {
  instances = instance_row "i1" none ∷ instance_row "i2" none ∷ [];
  entries = pocket1 ∷ pocket2 ∷ [];
  sets = first_set ∷ second_set ∷ [];
  maps = setup "p1" user ∷ [];
  ledger = [];
  proposals = [];
  audit = [];
  catalogs = [];
  presets = [];
}

abbrev ids : ℕ → String
ids zero = "x"
ids (suc n) = String.◌∷◌ "y" (ids n)

abbrev pub session_on : Db → Session
session_on db = record {
  db = db;
  committed = db;
  uuid = ids;
  drawn = 0;
  now = 7;
  channel = some "session";
  api_key_id = none;
}

abbrev pub shop : Session
shop = session_on (shop_with "ann")

ids_ne : (n : ℕ) → ids n ≢ ""
ids_ne zero e = cc e
ids_ne (suc n) e = cc e

pub shop_holds : constraints_hold shop.db ≡ true
unfolding constraints_hold
shop_holds = refl

pub shop-IsSound : IsSound shop
shop-IsSound = record { holds = shop_holds; ids = ids_ne }

-- The same shop with the tool `i2` in pocket 2.
abbrev pub busy : Session
busy =
    session_on (record (shop_with "ann") { entries = pocket1 ∷ entry_row "e2" 2 (some "i2") ∷ [] })

pub busy_holds : constraints_hold busy.db ≡ true
unfolding constraints_hold
busy_holds = refl

pub busy-IsSound : IsSound busy
busy-IsSound = record { holds = busy_holds; ids = ids_ne }

-- The same shop with a setup of the user `bob` on the mill.
abbrev pub shared : Session
shared = session_on (shop_with "bob")

pub shared_holds : constraints_hold shared.db ≡ true
unfolding constraints_hold
shared_holds = refl

pub apart : (a b : String) → str_eq a b ≡ false → a ≢ b
apart a b h e = ground (arith, str_eq_iff a b)
