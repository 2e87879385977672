-- ===== src/Tests/Sync.antt =====
-- A named tool in a batch of the shop, and a batch item that asks for what no door takes.
use loobric_server.Base.{◌≡◌, refl, none, some, [], ◌∷◌, true}
use loobric_server.Base.Int.{pos}
use loobric_server.Base.Exec.{Error, ok}
use loobric_server.Instances.{name, geometry, usage, guards_pass}
use loobric_server.Instances.Asserts.{same_path}
use loobric_server.Batch.{BatchItem, BatchRequest, Work, unchanged, blank_result}
use loobric_server.Batch.Item.{sync_item}
use loobric_server.Batch.Run.{try_item}
use loobric_server.Batch.Idle.{IsHeld}
use loobric_server.Batch.Settled.{sync_item-twice}
use loobric_server.Batch.Refused.{try_item-refused}
use loobric_server.Tests.{shop, shop-IsSound, instance_row}
use loobric_server.Tests.Preset.{plain}

abbrev naming : BatchItem
naming = record {
  id = some "i1";
  client_item_id = some "7";
  data_text = "{}";
  asserts =
      record { what = name (some "Drill"); unit = none }
      ∷ record { what = geometry "length" (some (pos 50000000)); unit = some "mm" }
      ∷ [];
  presets = [];
}

abbrev metering : BatchItem
metering = record naming { asserts = record { what = usage; unit = none } ∷ [] }

abbrev batch : BatchRequest
batch = record { client = "freecad"; client_version = "1"; actor = none; items = naming ∷ [] }

abbrev work : Work
work = record { session = shop; by_item = []; out = blank_result naming }

held : IsHeld "ann" "i1" (instance_row "i1" none) shop
held = record { found = refl; mine = refl; same_id = refl; sound = shop-IsSound }

sync_item-twice_example :
    (w : Work) × (sync_item plain "ann" batch "freecad" true naming
        (record work { out = blank_result naming })
      ≡ (ok tt, w))
    × (sync_item plain "ann" batch "freecad" true naming (record w { out = blank_result naming })
        ≡ (
          ok tt,
          record w { out = record (blank_result naming) { id = some "i1"; result = unchanged } },
        ))
unfolding same_path
sync_item-twice_example =
    sync_item-twice plain "ann" batch "freecad" naming (instance_row "i1" none) work (λ e. cc e)
      (λ e. cc e) (tt, (tt, tt)) ((refl, tt), (tt, tt)) refl refl held

try_item-refused_example :
    (e : Error) × (try_item
        (sync_item plain "ann" batch "freecad" true metering)
        (record work { out = blank_result metering })
      ≡ (ok tt, record work { out = record (blank_result metering) { failure = some e } }))
unfolding guards_pass
try_item-refused_example = try_item-refused plain "ann" batch "freecad" true metering work refl
