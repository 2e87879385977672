-- ===== src/Tests/Hours.antt =====
-- The mill reports 12 hours in pocket 1, where it stood at 10.
use loobric_server.Base.{◌≡◌, refl, ◌↔◌, String, Option, none, some, List, [], ◌∷◌, map}
use loobric_server.Base.Int.{pos}
use loobric_server.Base.Exec.{ok}
use loobric_server.Store.{Session}
use loobric_server.Store.Rows.{UsageRow}
use loobric_server.Usage.{number, Disposition, accepted, ingest_usage_observation}
use loobric_server.Usage.Ledger.{Changed, renewed}
use loobric_server.Usage.Attribution.{Accounts, IsReported, credit_of, rebased, ingest-Accounts}
use loobric_server.Tests.{shop, shop-IsSound, pocket1}

ingest-Accounts_example :
    (s' : Session) × (d : Disposition) × (rows : List UsageRow) × (held : Option String)
    × (ingest_usage_observation "ann" pocket1
          (number (pos 12))
          (some "h")
          "observed:linuxcnc@m1"
          "m1"
          shop
        ≡ (ok d, s'))
    × Accounts 12 held (some 10) d (map credit_of rows)
    × ((i : String) → (held ≡ some i) ↔ ((some "i1" ≡ some i) × (some "i1" ≡ some i)))
    × IsReported "ann" pocket1 "m1" "observed:linuxcnc@m1" 12 rows
    × Changed shop s'
        (rebased "e1" shop.db.entries)
        (renewed "ann" rows (elim rows [ [] ↦ none | _ ∷ _ ↦ held ]) shop.db.instances)
        rows
unfolding accepted
ingest-Accounts_example =
    ingest-Accounts "ann" pocket1 "m1" "observed:linuxcnc@m1" (number (pos 12)) (some "h") 12 shop
      (λ e. cc e) (λ e. cc e) shop-IsSound refl
