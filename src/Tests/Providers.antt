-- ===== src/Tests/Providers.antt =====
-- The two storage providers on the same calls.
use bachi_coin.Prelude.{
  ℕ, ◌+◌, ◌≡◌, refl, true, false, Option, none, some, List, [], ◌∷◌, arith, All, if◌then◌else◌,
}
use bachi_coin.Storage.{Text, same_text, read_file, replace_file, remove_file}
use bachi_coin.Storage
use bachi_coin.Storage.Files.{read_file-replace_file, read_file-remove_file}
use bachi_coin.Sqlite.{Table}
use bachi_coin.Provider.{
  Call, save, load, delete, update, exists, is_some, key_of, promised, answers, flag, found,
}
use bachi_coin.Provider.Refined.{
  IsPlain, file_call, file_call-refines, sqlite_call, sqlite_call-refines,
}

-- Rows as a list, with a count of the rows that a deletion meets.
abbrev count_rows : Text → List (Text × ℕ) → ℕ
count_rows k r = if is_some (read_file k r) then 1 else 0

abbrev table : Table ℕ
table = record {
  Rows = List (Text × ℕ);
  insert_or_replace = replace_file;
  select_data = read_file;
  delete_rows = λ k r. (count_rows k r, remove_file k r);
  select-insert = λ k j d r. read_file-replace_file k j d r;
  select-delete = λ k j r. read_file-remove_file k j r;
  rowcount = λ k r. refl;
}

abbrev user : Text
user = 117 ∷ []

abbrev other : Text
other = 118 ∷ []

abbrev calls : List (Call ℕ)
calls = save user 3 ∷ update user (λ n. n + 1) ∷ load user ∷ delete other ∷ exists user ∷ []

abbrev empty : Text → Option ℕ
empty _ = none

-- The answers of the promise.
promises :
    answers promised calls empty
    ≡ flag true ∷ found (some 4) ∷ found (some 4) ∷ flag false ∷ flag true ∷ []
unfolding promised
promises = refl

user-IsPlain : IsPlain user
user-IsPlain = (λ e. omega (arith, e), λ e. omega (arith, e), tt)

other-IsPlain : IsPlain other
other-IsPlain = (λ e. omega (arith, e), λ e. omega (arith, e), tt)

plain : All (λ c. IsPlain (key_of c)) calls
plain = (user-IsPlain, (user-IsPlain, (user-IsPlain, (other-IsPlain, (user-IsPlain, tt)))))

file_call-refines_example : answers file_call calls [] ≡ answers promised calls empty
unfolding Storage.load
file_call-refines_example = file_call-refines calls [] empty plain (λ k p. refl)

sqlite_call-refines_example : answers (sqlite_call table) calls [] ≡ answers promised calls empty
sqlite_call-refines_example = sqlite_call-refines table calls [] empty (λ k. refl)
