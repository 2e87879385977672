-- ===== src/Usage/Totals.antt =====
-- The derived total on an instance and the rows that the ledger credits to it.
use loobric_server.Base.{ℕ, ◌≡◌, String, Option, none, some, List, [], ◌∷◌, In}
use loobric_server.Contract.{leaf_value}
use loobric_server.Store.{Db}
use loobric_server.Store.Rows.{InstanceRow, UsageRow}
use loobric_server.Usage.{instance_total}

abbrev or_zero : Option ℕ → ℕ
or_zero none = 0
or_zero (some n) = n

-- The hours that the instance shows; none is 0.
abbrev pub shown_hours : InstanceRow → ℕ
shown_hours i = or_zero (leaf_value i.canonical.usage_hours)

-- Every instance of the user shows the sum of its rows.
abbrev pub IsTotalled : String → Db → Type 0
IsTotalled user db =
    (i : InstanceRow)
    → In i db.instances
    → i.user_id ≡ user
    → shown_hours i ≡ instance_total db user i.id

module _ (user : String) (db : Db) (totalled : IsTotalled user db) (held : Option String) where
  abbrev credited_rows : List UsageRow → Option String
  credited_rows rows = elim rows [ [] ↦ none | _ ∷ _ ↦ held ]
