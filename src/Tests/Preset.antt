-- ===== src/Tests/Preset.antt =====
-- A cutting data preset for the tool `i1` of the shop.
use loobric_server.Base.{◌≡◌, refl, inl, inr, ap, none, some, [], In}
use loobric_server.Base.Int.{pos}
use loobric_server.Base.Json.{Json, number, str, object, member, end}
use loobric_server.Base.Exec.{ok}
use loobric_server.Store.{Session}
use loobric_server.Store.Rows.{InstanceRow}
use loobric_server.Presets.{
  Texts, Normalized, normalize_contribution, normalize_members, ◌then◌, guard, stripped,
  clean_material, clean_op_type, clean_value_unit, clean_members, clean_value, clean_unit,
  clean_extras, clean_machine, stripped_if_present,
}
use loobric_server.Presets.Door.{contribute_preset, owned_instance}
use loobric_server.Presets.Floor.{IsPreset, normalize_contribution-IsPreset}
use loobric_server.Presets.Contributed.{IsCurated}
use loobric_server.Presets.Union.{IsContributed, contribute_preset-IsCurated}
use loobric_server.Tests.{shop, shop-IsSound, instance_row}

abbrev pub plain : Texts
plain = record { strip = λ t. t; lower = λ t. t; show = λ v. "?" }

abbrev slotting : Json
slotting = object (
    member "origin" (str "freecad") (
      member "label" (str "Slotting") (
        member "material" (object (member "name" (str "6061") end)) (
          member "fz" (object (member "value" (number (pos 50000)) (member "unit" (str "mm") end)))
            end))))

abbrev preset : Normalized
preset = record {
  origin = "freecad";
  label = "Slotting";
  op_type = none;
  machine_id = none;
  contents = record {
    material = record { name = "6061"; uuid = none };
    vc = none;
    fz = some (record { value = pos 50000; unit = some "mm" });
    ratio = none;
    extras = none;
  };
}

slotting-preset : normalize_contribution plain slotting ≡ some preset
unfolding normalize_contribution normalize_members ◌then◌ guard stripped clean_material
    clean_op_type clean_value_unit clean_members clean_value clean_unit clean_extras clean_machine
    stripped_if_present
slotting-preset = refl

shop-IsCurated : IsCurated "ann" shop.db.instances []
shop-IsCurated = record {
  filled = λ r i. elim i [ ];
  ids = λ a b i j e. elim i [ ];
  identities = λ a b i j e. elim i [ ];
  valid = λ r i. elim i [ ];
  shown = λ i j m. bare i j;
}
  where
    bare : (i : InstanceRow) → In i shop.db.instances → i.canonical.presets ≡ none
    bare i (inl e) = ap (λ (w : InstanceRow). w.canonical.presets) e
    bare i (inr (inl e)) = ap (λ (w : InstanceRow). w.canonical.presets) e
    bare i (inr (inr e)) = elim e [ ]

normalize_contribution-IsPreset_example : IsPreset preset
normalize_contribution-IsPreset_example =
    normalize_contribution-IsPreset plain slotting preset slotting-preset

contribute_preset-IsCurated_example :
    (s' : Session) × (contribute_preset plain "ann" "i1" slotting "freecad" shop ≡ (ok "i1", s'))
    × IsContributed "ann" "i1" preset s'
unfolding owned_instance
contribute_preset-IsCurated_example =
    contribute_preset-IsCurated plain "ann" "i1" "freecad" slotting preset (instance_row "i1" none)
      shop (λ e. cc e) (λ e. cc e) shop-IsSound shop-IsCurated (λ r i. elim i [ ]) slotting-preset
      refl
