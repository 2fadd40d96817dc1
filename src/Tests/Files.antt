-- ===== src/Tests/Files.antt =====
-- Two keys of one file, and a next nonce.
use bachi_coin.Prelude.{
  ◌⊎◌, ℕ, ◌≤◌, ◌<◌, ◌≡◌, refl, none, some, List, [], ◌∷◌, arith, All, if◌then◌else◌,
}
use bachi_coin.Storage.{Text, same_text, get_file_path, save, load, delete, update}
use bachi_coin.Storage.Files.{AreAlike, load-save, load-delete, load-update, option_map}
use bachi_coin.Admission.{AccountState, validate_nonce_sequence}
use bachi_coin.Nonce.{calculate_next_nonce}
use bachi_coin.Nonce.Fresh.{
  calculate_next_nonce-is_new, validate_nonce_sequence-calculate_next_nonce,
}

-- "a/b" and "a_b"
abbrev slash : Text
slash = 97 ∷ 47 ∷ 98 ∷ []

abbrev underscore : Text
underscore = 97 ∷ 95 ∷ 98 ∷ []

abbrev files : List (Text × ℕ)
files = (underscore, 1) ∷ []

abbrev two : ℕ
two = 2

abbrev change : ℕ → ℕ
change n = 5

-- A save under one of the keys overwrites the data of the other.
overwritten : load underscore (save {D = ℕ} slash 2 (save {D = ℕ} underscore 1 []).1).1 ≡ some 2
unfolding load save
overwritten = refl

load-save_example :
    (AreAlike slash underscore × (load underscore (save slash two files).1 ≡ some two))
    ⊎ ((¬ AreAlike slash underscore)
        × (load underscore (save slash two files).1 ≡ load underscore files))
load-save_example = load-save slash underscore two files

after_delete : load underscore (delete slash files).1 ≡ (
    if same_text (get_file_path slash) (get_file_path underscore)
    then none
    else load underscore files)
after_delete = load-delete slash underscore files

updated_or_missing :
    ((update slash change files).0 ≡ option_map change (load slash files))
    × (load slash (update slash change files).1 ≡ (update slash change files).0)
updated_or_missing = load-update slash change files

after_seven :
    (3 ≤ calculate_next_nonce 3 (4 ∷ 7 ∷ []))
    × All (λ n. n < calculate_next_nonce 3 (4 ∷ 7 ∷ [])) (4 ∷ 7 ∷ [])
after_seven = calculate_next_nonce-is_new 3 (4 ∷ 7 ∷ [])

abbrev account : AccountState
account = record { canonical_nonce = some 3; next_nonce = none; pending_nonces = 4 ∷ 7 ∷ [] }

small : calculate_next_nonce 3 (4 ∷ 7 ∷ []) ≤ 1000
unfolding calculate_next_nonce
small = omega arith

passes_rules : validate_nonce_sequence (calculate_next_nonce 3 (4 ∷ 7 ∷ [])) account ≡ []
passes_rules = validate_nonce_sequence-calculate_next_nonce 3 account refl small
