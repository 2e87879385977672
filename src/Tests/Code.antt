-- ===== src/Tests/Code.antt =====
-- Label codes.
use loobric_server.Base.{◌≡◌, refl, ◌≢◌, String, true, none, some, [], ◌∷◌, every, In}
use loobric_server.Labels.{
  codes, in_alphabet, canonical_digit, CodeText, normalize_code, new_unique_code,
}
use loobric_server.Labels.Normal.{KeepsCodes, normalize_code_idem, new_unique_code-new}

-- Texts that are in upper case already.
abbrev upper_case : CodeText
upper_case = record { strip = λ s. s; upper = λ s. s }

keeps : KeepsCodes upper_case
keeps c h = (refl, refl)

normalize_code_idem_example :
    (codes "T7KX310A" ≢ [])
    × (every in_alphabet (codes "T7KX310A") ≡ true)
    × (normalize_code upper_case (codes "T7KX310A") ≡ some (codes "T7KX310A"))
unfolding normalize_code in_alphabet canonical_digit
normalize_code_idem_example =
    normalize_code_idem upper_case (codes "T-7KX3 LOA") (codes "T7KX310A") keeps refl

new_unique_code-new_example :
    ((c : String)
      → new_unique_code ("AAA" ∷ []) ("AAA" ∷ "BBB" ∷ []) ≡ some c
      → In c ("AAA" ∷ "BBB" ∷ []) × (In c ("AAA" ∷ []) → ⊥))
    × (new_unique_code ("AAA" ∷ []) ("AAA" ∷ "BBB" ∷ []) ≡ none
        → (c : String) → In c ("AAA" ∷ "BBB" ∷ [])
        → In c ("AAA" ∷ []))
new_unique_code-new_example = new_unique_code-new ("AAA" ∷ []) ("AAA" ∷ "BBB" ∷ [])
