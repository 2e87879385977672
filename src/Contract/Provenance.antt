-- ===== src/Contract/Provenance.antt =====
-- `Provenance` and the validator of `Field` in contract/models.py.
use Prim.Native.Char.{code}
use Prim.Native.String.{String}
use loobric_server.Base.{
  ◌≢◌, ℕ, ◌≡◌, refl, Bool, true, false, not, ◌&&◌, ◌||◌, arith, nat_eq, concat, str_eq, str_eq_iff,
  if◌then◌else◌,
}

-- `source.split(":", 1)[0]`
unfoldable pub kind : String → String
kind String.[] = String.[]
kind (String.◌∷◌ c s) =
    let rest = kind s in if nat_eq (code c) b':' then String.[] else String.◌∷◌ c rest

-- `ch in source`
unfoldable pub has_char : ℕ → String → Bool
has_char k String.[] = false
has_char k (String.◌∷◌ c s) = nat_eq (code c) k || has_char k s

unfoldable pub observed : String → String → String
observed client machine = concat "observed:" (concat client (String.◌∷◌ "@" machine))

unfoldable pub asserted : String → String
asserted actor = concat "asserted:" actor

unfoldable pub derived : String → String
derived by = concat "derived:" by

-- `Field._check`, over the value's presence and the source: whether the validator lets it pass.
unfoldable pub field_check : Bool → String → Bool
unfolding kind has_char
field_check has_value source =
    let k = kind source in
    if not (str_eq k "observed" || str_eq k "asserted" || str_eq k "derived" || str_eq k "unknown")
    then false
    else if str_eq k "unknown" && not (str_eq source "unknown")
    then false
    else if str_eq k "unknown" && has_value
    then false
    else if str_eq k "observed" && not (has_char b'@' source)
    then false
    else if (str_eq k "asserted" || str_eq k "derived") && not (has_char b':' source)
    then false
    else true

kind-observed : (client machine : String) → kind (observed client machine) ≡ "observed"
unfolding kind observed
kind-observed client machine = refl

has_char-concat : (k : ℕ) (s t : String) → has_char k t ≡ true → has_char k (concat s t) ≡ true
unfolding has_char
has_char-concat k String.[] t h = h
has_char-concat k (String.◌∷◌ c s) t h = ground (arith, has_char-concat k s t h)

-- The sources that `observed`, `asserted` and `derived` build pass the validator, with a value or
-- without one, whatever the client, the machine and the actor are called.
pub field_check-built :
    (client machine actor : String) (v : Bool)
    → (field_check v (observed client machine) ≡ true)
      × (field_check v (asserted actor) ≡ true)
      × (field_check v (derived actor) ≡ true)
unfolding field_check observed asserted derived
field_check-built client machine actor v =
    (rw (has_char-concat b'@' client (String.◌∷◌ "@" machine) refl) refl, refl, refl)

-- A field that passes and has a value names its provenance: its source is not "unknown" and does
-- not begin with that kind.
pub field_check-unknown :
    (source : String) → field_check true source ≡ true → kind source ≢ "unknown"
unfolding field_check
field_check-unknown source h e =
    ground (arith, str_eq_iff (kind source) "unknown", str_eq_iff source "unknown")
