-- ===== src/Labels.antt =====
-- label_codes.py: the short code on a physical label, as a person or a scanner gives it.
--
-- A text is its list of code points. `str.strip` and `str.upper` are parameters; the random choices
-- of `generate_code` come as the codes that the attempts draw.
pub mod Normal
use loobric_server.Base.{
  ℕ, String, Bool, true, false, not, ◌||◌, Option, none, some, List, [], ◌∷◌, map, filter, any,
  every, nat_eq, str_eq, is_none, find?, if◌then◌else◌,
}
use Prim.Native.Char.{code}

-- The code points of a text.
abbrev pub codes : String → List ℕ
codes String.[] = []
codes (String.◌∷◌ c s) = code c ∷ codes s

abbrev pub alphabet : List ℕ
alphabet = codes "0123456789ABCDEFGHJKMNPQRSTVWXYZ"

-- `c in ALPHABET`
unfoldable pub in_alphabet : ℕ → Bool
in_alphabet c = any (nat_eq c) alphabet

-- `_AMBIGUOUS`, on one character.
unfoldable pub canonical_digit : ℕ → ℕ
canonical_digit c =
    if nat_eq c b'O' then b'0' else if nat_eq c b'I' || nat_eq c b'L' then b'1' else c

-- `s.replace(c, "")`
abbrev pub without : ℕ → List ℕ → List ℕ
without c s = filter (λ d. not (nat_eq d c)) s

abbrev pub is_empty_code : List ℕ → Bool
is_empty_code [] = true
is_empty_code (c ∷ cs) = false

-- The methods of `str` that `normalize_code` calls.
pub record CodeText : Type 0 where
  pub strip : List ℕ → List ℕ
  pub upper : List ℕ → List ℕ

-- `normalize_code`; a ValueError is `none`.
unfoldable pub normalize_code : CodeText → List ℕ → Option (List ℕ)
normalize_code str raw =
    let c = map canonical_digit (without b'-' (without b' ' (str.upper (str.strip raw)))) in
    if is_empty_code c || not (every in_alphabet c) then none else some c

-- `new_unique_code`: the codes of the labels, and the codes that the attempts draw.
unfoldable pub new_unique_code : List String → List String → Option String
new_unique_code labels [] = none
new_unique_code labels (c ∷ attempts) =
    let rest = new_unique_code labels attempts in
    if is_none (find? (str_eq c) labels) then some c else rest
