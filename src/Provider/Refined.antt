-- ===== src/Provider/Refined.antt =====
-- Both providers keep the promise.
use mathlib.Core.Path.{subst}
use bachi_coin.Prelude.{
  ◌≡◌, ◌≢◌, refl, ap, ◌∙◌, Option, none, some, List, [], ◌∷◌, arith, All, if◌then◌else◌,
}
use bachi_coin.Storage.{Text, same_text, safe_char, get_file_path}
use bachi_coin.Storage
use bachi_coin.Storage.Files.{load-save_file, load-delete}
use bachi_coin.Sqlite
use bachi_coin.Sqlite.{Table}
use bachi_coin.Provider.{
  Call, Answer, save, load, delete, exists, update, flag, found, key_of, is_some, assign,
  change_found, promised, answers,
}

-- A key that its file's name shows unchanged: one with no '/' and no backslash.
abbrev pub IsPlain : Text → Type 0
IsPlain [] = Unit
IsPlain (c ∷ key) = (c ≢ 47) × (c ≢ 92) × IsPlain key

get_file_path-IsPlain : (key : Text) → IsPlain key → get_file_path key ≡ key
unfolding get_file_path
get_file_path-IsPlain [] h = refl
get_file_path-IsPlain (c ∷ key) (slash, back, rest) =
    ground (arith, slash, back, get_file_path-IsPlain key rest)

module _ {ℓ} {D : Type ℓ} where
  -- The file provider's method for a call.
  unfoldable pub file_call : Call D → List (Text × D) → Answer D × List (Text × D)
  file_call (save k d) s = let (b, s') = Storage.save k d s in (flag b, s')
  file_call (load k) s = (found (Storage.load k s), s)
  file_call (delete k) s = let (b, s') = Storage.delete k s in (flag b, s')
  file_call (exists k) s = (flag (Storage.exists k s), s)
  file_call (update k change) s = let (d, s') = Storage.update k change s in (found d, s')

  abbrev pub FilesHold : List (Text × D) → (Text → Option D) → Type ℓ
  FilesHold s m = (k : Text) → IsPlain k → Storage.load k s ≡ m k

  FilesHold-save :
      (k : Text) (d : D) (s : List (Text × D)) (m : Text → Option D)
      → IsPlain k
      → FilesHold s m
      → FilesHold (Storage.save k d s).1 (assign k (some d) m)
  FilesHold-save k d s m plain h j p =
      load-save_file k j d s
      ∙ rw (get_file_path-IsPlain k plain, get_file_path-IsPlain j p, h j p) refl

  FilesHold-delete :
      (k : Text) (s : List (Text × D)) (m : Text → Option D)
      → IsPlain k
      → FilesHold s m
      → FilesHold (Storage.delete k s).1 (assign k none m)
  FilesHold-delete k s m plain h j p =
      load-delete k j s ∙ rw (get_file_path-IsPlain k plain, get_file_path-IsPlain j p, h j p) refl

  exists-load : (k : Text) (s : List (Text × D)) → Storage.exists k s ≡ is_some (Storage.load k s)
  unfolding Storage.exists Storage.load
  exists-load k s = ground arith

  delete-exists :
      (k : Text) (s : List (Text × D)) → (Storage.delete k s).0 ≡ is_some (Storage.load k s)
  unfolding Storage.delete Storage.exists Storage.load
  delete-exists k s = ground arith

  update-found :
      (k : Text) (change : D → D) (s : List (Text × D)) (m : Text → Option D) (o : Option D)
      → IsPlain k
      → FilesHold s m
      → (found (Storage.update_loaded k change o s).0 ≡ (change_found k change o m).0)
        × FilesHold (Storage.update_loaded k change o s).1 (change_found k change o m).1
  unfolding Storage.update_loaded
  update-found k change s m none plain h = (refl, h)
  update-found k change s m (some d) plain h = (refl, FilesHold-save k (change d) s m plain h)

  -- One call of the file provider with a plain key.
  file_call-promised :
      (c : Call D) (s : List (Text × D)) (m : Text → Option D)
      → IsPlain (key_of c)
      → FilesHold s m
      → ((file_call c s).0 ≡ (promised c m).0) × FilesHold (file_call c s).1 (promised c m).1
  unfolding file_call promised
  file_call-promised (save k d) s m plain h =
      (unfold Storage.save in refl, FilesHold-save k d s m plain h)
  file_call-promised (load k) s m plain h = (ap found (h k plain), h)
  file_call-promised (delete k) s m plain h =
      (ap flag (delete-exists k s ∙ ap is_some (h k plain)), FilesHold-delete k s m plain h)
  file_call-promised (exists k) s m plain h =
      (ap flag (exists-load k s ∙ ap is_some (h k plain)), h)
  file_call-promised (update k change) s m plain h =
      subst
        (λ o.
          (found (Storage.update k change s).0 ≡ (change_found k change o m).0)
          × FilesHold (Storage.update k change s).1 (change_found k change o m).1)
        (h k plain) (unfold Storage.update in update-found k change s m (Storage.load k s) plain h)

  -- On keys with no '/' and no backslash, the file provider gives the answers of the promise to every
  -- sequence of calls, from any files on, if the promised map has the data that its loads read.
  pub file_call-refines :
      (calls : List (Call D)) (s : List (Text × D)) (m : Text → Option D)
      → All (λ c. IsPlain (key_of c)) calls
      → FilesHold s m
      → answers file_call calls s ≡ answers promised calls m
  file_call-refines [] s m plain h = refl
  file_call-refines (c ∷ calls) s m plain h =
      let (same, held) = file_call-promised c s m plain.0 h in
      let rest = file_call-refines calls (file_call c s).1 (promised c m).1 plain.1 held in
      λ i. same i ∷ rest i

module _ {D : Type 0} (t : Table D) where
  open t use {Rows, select_data, select-insert, select-delete, rowcount}

  -- The SQLite provider's method for a call.
  unfoldable pub sqlite_call : Call D → Rows → Answer D × Rows
  sqlite_call (save k d) r = let (b, r') = Sqlite.save t k d r in (flag b, r')
  sqlite_call (load k) r = (found (Sqlite.load t k r), r)
  sqlite_call (delete k) r = let (b, r') = Sqlite.delete t k r in (flag b, r')
  sqlite_call (exists k) r = (flag (Sqlite.exists t k r), r)
  sqlite_call (update k change) r = let (d, r') = Sqlite.update t k change r in (found d, r')

  abbrev pub RowsHold : Rows → (Text → Option D) → Type 0
  RowsHold r m = (k : Text) → select_data k r ≡ m k

  RowsHold-save :
      (k : Text) (d : D) (r : Rows) (m : Text → Option D)
      → RowsHold r m
      → RowsHold (Sqlite.save t k d r).1 (assign k (some d) m)
  unfolding Sqlite.save
  RowsHold-save k d r m h j =
      select-insert k j d r ∙ ap (λ o. if same_text k j then some d else o) (h j)

  deleted : (k : Text) (r : Rows) → (Sqlite.delete t k r).0 ≡ is_some (select_data k r)
  unfolding Sqlite.delete
  deleted k r = ground (arith, rowcount k r)

  update_loaded-found :
      (k : Text) (change : D → D) (r : Rows) (m : Text → Option D) (o : Option D)
      → RowsHold r m
      → (found (Sqlite.update_loaded t k change o r).0 ≡ (change_found k change o m).0)
        × RowsHold (Sqlite.update_loaded t k change o r).1 (change_found k change o m).1
  unfolding Sqlite.update_loaded
  update_loaded-found k change r m none h = (refl, h)
  update_loaded-found k change r m (some d) h = (refl, RowsHold-save k (change d) r m h)

  sqlite_call-promised :
      (c : Call D) (r : Rows) (m : Text → Option D)
      → RowsHold r m
      → ((sqlite_call c r).0 ≡ (promised c m).0) × RowsHold (sqlite_call c r).1 (promised c m).1
  unfolding sqlite_call promised
  sqlite_call-promised (save k d) r m h = (unfold Sqlite.save in refl, RowsHold-save k d r m h)
  sqlite_call-promised (load k) r m h = (unfold Sqlite.load in ap found (h k), h)
  sqlite_call-promised (delete k) r m h = (
    ap flag (deleted k r ∙ ap is_some (h k)),
    λ j.
        unfold Sqlite.delete in
        (select-delete k j r ∙ ap (λ o. if same_text k j then none else o) (h j)),
  )
  sqlite_call-promised (exists k) r m h =
      (unfold Sqlite.exists in ap (λ o. flag (is_some o)) (h k), h)
  sqlite_call-promised (update k change) r m h =
      subst
        (λ o.
          (found (Sqlite.update t k change r).0 ≡ (change_found k change o m).0)
          × RowsHold (Sqlite.update t k change r).1 (change_found k change o m).1)
        (h k)
        (unfold Sqlite.update in
          unfold Sqlite.load in update_loaded-found k change r m (select_data k r) h)

  -- The SQLite provider gives the answers of the promise to every sequence of calls, from any rows
  -- on, if the promised map has the data that they hold.
  pub sqlite_call-refines :
      (calls : List (Call D)) (r : Rows) (m : Text → Option D)
      → RowsHold r m
      → answers sqlite_call calls r ≡ answers promised calls m
  sqlite_call-refines [] r m h = refl
  sqlite_call-refines (c ∷ calls) r m h =
      let (same, held) = sqlite_call-promised c r m h in
      let rest = sqlite_call-refines calls (sqlite_call c r).1 (promised c m).1 held in
      λ i. same i ∷ rest i
