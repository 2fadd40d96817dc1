-- ===== src/BlockIndex/Indexed.antt =====
-- What the block service keeps of its index.
use bachi_coin.Prelude.{
  ◌≡◌, refl, ap, sym, ◌∙◌, Option, none, some, [], ◌∷◌, arith, Option-cases, inl, inr,
}
use bachi_coin.Dict.{Key, Dict, get, get-put, get-pop}
use bachi_coin.Block.{Block, BlockStatus}
use bachi_coin.BlockIndex.{
  IndexEntry, BlockStore, build_index_entry_from_block, create_block_with_index,
  update_block_status, update_found, delete_block, delete_found, rebuild_index, rebuild_from,
  save_blocks_only,
}

abbrev pub entry_of : Option Block → Option IndexEntry
entry_of none = none
entry_of (some b) = some (build_index_entry_from_block b)

-- The index has the entry of each stored block, and no other.
pub record IsIndexed (s : BlockStore) : Type 0 where
  pub same : (hash : Key) → get hash s.index ≡ entry_of (get hash s.records)

-- Storing a block keeps the index.
pub create_block_with_index-IsIndexed :
    (b : Block) (s : BlockStore) → IsIndexed s → IsIndexed (create_block_with_index b s).1
unfolding create_block_with_index
create_block_with_index-IsIndexed b s h = record {
  same = λ hash. ground (
    arith,
    h.same hash,
    get-put b.block_hash hash b s.records,
    get-put b.block_hash hash (build_index_entry_from_block b) s.index,
  );
}

-- Deleting a block keeps the index, also where the block is missing.
pub delete_block-IsIndexed :
    (hash : Key) (s : BlockStore) → IsIndexed s → IsIndexed (delete_block hash s).1
unfolding delete_block delete_found
delete_block-IsIndexed hash s h = elim (Option-cases (get hash s.records)) [
  | inl e ↦ rw e h
  | inr (b, e) ↦ rw e (record {
    same = λ other.
        ground (arith, h.same other, get-pop hash other s.records, get-pop hash other s.index);
  })
]

-- A new status keeps the index, also where the block is missing.
pub update_block_status-IsIndexed :
    (hash : Key) (status : BlockStatus) (s : BlockStore)
    → IsIndexed s
    → IsIndexed (update_block_status hash status s).1
unfolding update_block_status update_found build_index_entry_from_block
update_block_status-IsIndexed hash status s h = elim (Option-cases (get hash s.records)) [
  | inl e ↦ rw e h
  | inr (b, e) ↦
      let entry : get hash s.index ≡ some (build_index_entry_from_block b) =
        h.same hash ∙ ap entry_of e in
      rw (e, entry)
        (record {
          same = λ other. ground (
            arith,
            h.same other,
            get-put hash other (record b { status = status }) s.records,
            get-put hash other (record (build_index_entry_from_block b) { status = status })
                s.index,
          );
        })
]

rebuild_from-IsIndexed :
    (d : Dict Block) (s : BlockStore) → s.records ≡ d → IsIndexed s → IsIndexed (rebuild_from d s).1
unfolding rebuild_from save_blocks_only
rebuild_from-IsIndexed [] s e h = record { same = λ hash. ap (λ d. entry_of (get hash d)) (sym e) }
rebuild_from-IsIndexed (_ ∷ _) s e h = h

-- A rebuild keeps the index, also where it raises.
pub rebuild_index-IsIndexed : (s : BlockStore) → IsIndexed s → IsIndexed (rebuild_index s).1
unfolding rebuild_index
rebuild_index-IsIndexed s h = rebuild_from-IsIndexed s.records s refl h
