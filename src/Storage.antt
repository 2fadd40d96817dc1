-- ===== src/Storage.antt =====
-- The storage provider over files (src/BachiCoin/lib_storage/file_provider.py). A key is a text, as
-- the list of its characters' codes; the directory maps the stem of a file's name to its content.
-- The replacement of a file is atomic and the lock is held for each call; the file system does not
-- fail.
pub mod Files
use bachi_coin.Prelude.{
  ℕ, Bool, true, false, not, ◌&&◌, ◌||◌, Option, none, some, List, [], ◌∷◌, map, ◌==◌,
  if◌then◌else◌,
}

abbrev pub Text : Type 0
Text = List ℕ

abbrev pub same_text : Text → Text → Bool
same_text [] [] = true
same_text (a ∷ as') (b ∷ bs) = (a == b) && same_text as' bs
same_text _ _ = false

-- '/' and '\' become '_'.
abbrev pub safe_char : ℕ → ℕ
safe_char c = if (c == 47) || (c == 92) then 95 else c

-- The stem of `_get_file_path`.
unfoldable pub get_file_path : Text → Text
get_file_path key = map safe_char key

module _ {ℓ} {D : Type ℓ} where
  abbrev pub read_file : Text → List (Text × D) → Option D
  read_file name [] = none
  read_file name ((n, d) ∷ files) =
      let rest = read_file name files in if same_text n name then some d else rest

  -- `os.replace`
  abbrev pub replace_file : Text → D → List (Text × D) → List (Text × D)
  replace_file name d [] = (name, d) ∷ []
  replace_file name d ((n, e) ∷ files) =
      let rest = replace_file name d files in
      if same_text n name then (n, d) ∷ files else (n, e) ∷ rest

  -- `os.remove`
  abbrev pub remove_file : Text → List (Text × D) → List (Text × D)
  remove_file name [] = []
  remove_file name ((n, e) ∷ files) =
      let rest = remove_file name files in if same_text n name then rest else (n, e) ∷ rest

  unfoldable pub save : Text → D → List (Text × D) → Bool × List (Text × D)
  unfolding get_file_path
  save key d files = (true, replace_file (get_file_path key) d files)

  unfoldable pub load : Text → List (Text × D) → Option D
  unfolding get_file_path
  load key files = read_file (get_file_path key) files

  unfoldable pub exists : Text → List (Text × D) → Bool
  unfolding get_file_path
  exists key files = elim (read_file (get_file_path key) files) [ none ↦ false | some _ ↦ true ]

  unfoldable pub delete : Text → List (Text × D) → Bool × List (Text × D)
  unfolding get_file_path exists
  delete key files =
      if exists key files then (true, remove_file (get_file_path key) files) else (false, files)

  -- `list_keys`: the prefix is not used, and the index file is passed over.
  unfoldable pub list_keys : Text → Option Text → List (Text × D) → List Text
  list_keys index_name prefix [] = []
  list_keys index_name prefix ((n, _) ∷ files) =
      let rest = list_keys index_name prefix files in
      if same_text n index_name then rest else n ∷ rest

  unfoldable pub update_loaded :
      Text → (D → D) → Option D → List (Text × D) → Option D × List (Text × D)
  unfolding save
  update_loaded key change none files = (none, files)
  update_loaded key change (some d) files = (some (change d), (save key (change d) files).1)

  unfoldable pub update : Text → (D → D) → List (Text × D) → Option D × List (Text × D)
  unfolding update_loaded load
  update key change files = update_loaded key change (load key files) files
