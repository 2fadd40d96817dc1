-- ===== src/Sqlite.antt =====
-- The storage provider over SQLite (src/BachiCoin/lib_storage/sqlite_provider.py). The table
-- `storage`, with its statements, is a parameter; a statement does not fail, and the lock is held for
-- each call.
use bachi_coin.Prelude.{ℕ, ◌≡◌, Bool, true, Option, none, some, ltb, if◌then◌else◌}
use bachi_coin.Storage.{Text, same_text}
use bachi_coin.Provider.{is_some}

-- The table's statements, and what SQL says of them: `key` is the primary key.
pub record Table (D : Type 0) : Type 1 where
  pub Rows : Type 0
  -- INSERT OR REPLACE
  pub insert_or_replace : Text → D → Rows → Rows
  -- SELECT data ... WHERE key = ?
  pub select_data : Text → Rows → Option D
  -- DELETE ... WHERE key = ?, with the count of the rows
  pub delete_rows : Text → Rows → ℕ × Rows
  pub select-insert :
      (k j : Text) (d : D) (r : Rows)
      → select_data j (insert_or_replace k d r)
        ≡ (if same_text k j then some d else select_data j r)
  pub select-delete :
      (k j : Text) (r : Rows)
      → select_data j (delete_rows k r).1 ≡ (if same_text k j then none else select_data j r)
  pub rowcount :
      (k : Text) (r : Rows) → (delete_rows k r).0 ≡ (if is_some (select_data k r) then 1 else 0)

module _ {D : Type 0} (t : Table D) where
  open t use {Rows, insert_or_replace, select_data, delete_rows}

  unfoldable pub save : Text → D → Rows → Bool × Rows
  save key d r = (true, insert_or_replace key d r)

  unfoldable pub load : Text → Rows → Option D
  load key r = select_data key r

  unfoldable pub delete : Text → Rows → Bool × Rows
  delete key r = let (count, r') = delete_rows key r in (ltb 0 count, r')

  unfoldable pub exists : Text → Rows → Bool
  exists key r = is_some (select_data key r)

  unfoldable pub update_loaded : Text → (D → D) → Option D → Rows → Option D × Rows
  unfolding save
  update_loaded key change none r = (none, r)
  update_loaded key change (some d) r = (some (change d), (save key (change d) r).1)

  unfoldable pub update : Text → (D → D) → Rows → Option D × Rows
  unfolding update_loaded load
  update key change r = update_loaded key change (load key r) r
