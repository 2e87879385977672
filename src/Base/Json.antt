-- ===== src/Base/Json.antt =====
-- JSON values. A number is a whole number of micro-units. An object is its keys with their values, in
-- order, each key once.
use Prim.Native.String.{String}
use mathlib.Core.Bool.{Bool, true, false, not}
use mathlib.Core.List.{List, [], ◌∷◌}
use text.Mathlib.Text.{◌==◌ as str_eq}
use loobric_server.Base.Tests.{if◌then◌else◌, nat_eq}
use loobric_server.Base.Int.{ℤ, pos, negsuc}

mutual
  pub data Json : Type 0 where
    null : Json
    boolean : Bool → Json
    number : ℤ → Json
    str : String → Json
    array : Items → Json
    object : Members → Json

  pub data Items : Type 0 where
    nil : Items
    item : Json → Items → Items

  pub data Members : Type 0 where
    end : Members
    member : String → Json → Members → Members

-- `d.get(k)`, which gives None for a missing key.
abbrev pub get : String → Members → Json
get k end = null
get k (member j v ms) = let rest = get k ms in if str_eq j k then v else rest

-- `k in d`
abbrev pub has_member : String → Members → Bool
has_member k end = false
has_member k (member j v ms) = let rest = has_member k ms in if str_eq j k then true else rest

abbrev pub keys : Members → List String
keys end = []
keys (member j v ms) = j ∷ keys ms

-- `bool(x)`
abbrev pub truthy : Json → Bool
truthy null = false
truthy (boolean b) = b
truthy (number (pos n)) = not (nat_eq n 0)
truthy (number (negsuc n)) = true
truthy (str t) = not (str_eq t "")
truthy (array nil) = false
truthy (array (item x xs)) = true
truthy (object end) = false
truthy (object (member k v ms)) = true
