-- ===== src/BlockIndex/Runs.antt =====
-- The block service over a sequence of calls.
use bachi_coin.Prelude.{ℕ, ◌≡◌, none, List, [], ◌∷◌, arith, if◌then◌else◌}
use bachi_coin.Dict.{Key, Dict, get, contains}
use bachi_coin.Block.{Block, BlockStatus}
use bachi_coin.BlockIndex.{
  IndexEntry, BlockStore, create_block_with_index, update_block_status, delete_block, rebuild_index,
  set_chain_tip, cleanup_orphaned_entries, keep_stored, save_blocks_only,
}
use bachi_coin.BlockIndex.Indexed.{
  IsIndexed, create_block_with_index-IsIndexed, update_block_status-IsIndexed,
  delete_block-IsIndexed, rebuild_index-IsIndexed,
}

-- The calls that write blocks, the index or the tip.
pub data BlockCall : Type 0 where
  create : Block → BlockCall
  update_status : Key → BlockStatus → BlockCall
  delete : Key → BlockCall
  set_tip : Key → ℕ → BlockCall
  rebuild cleanup : BlockCall

-- What a call leaves behind, whether it returns or raises.
unfoldable pub after_call : BlockCall → BlockStore → BlockStore
after_call (create b) s = (create_block_with_index b s).1
after_call (update_status hash status) s = (update_block_status hash status s).1
after_call (delete hash) s = (delete_block hash s).1
after_call (set_tip hash height) s = set_chain_tip hash height s
after_call rebuild s = (rebuild_index s).1
after_call cleanup s = cleanup_orphaned_entries s

unfoldable pub after_calls : List BlockCall → BlockStore → BlockStore
unfolding after_call
after_calls [] s = s
after_calls (c ∷ cs) s = after_calls cs (after_call c s)

get-keep_stored :
    (hash : Key) (d : Dict IndexEntry) (blocks : Dict Block)
    → get hash (keep_stored d blocks) ≡ (if contains hash blocks then get hash d else none)
get-keep_stored hash [] blocks = ground arith
get-keep_stored hash ((k, e) ∷ d) blocks = ground (arith, get-keep_stored hash d blocks)

after_call-IsIndexed : (c : BlockCall) (s : BlockStore) → IsIndexed s → IsIndexed (after_call c s)
unfolding after_call set_chain_tip cleanup_orphaned_entries save_blocks_only
after_call-IsIndexed (create b) s h = create_block_with_index-IsIndexed b s h
after_call-IsIndexed (update_status hash status) s h = update_block_status-IsIndexed hash status s h
after_call-IsIndexed (delete hash) s h = delete_block-IsIndexed hash s h
after_call-IsIndexed (set_tip hash height) s h = record { same = h.same }
after_call-IsIndexed rebuild s h = rebuild_index-IsIndexed s h
after_call-IsIndexed cleanup s h = record {
  same = λ hash. ground (arith, h.same hash, get-keep_stored hash s.index s.records);
}

-- Every sequence of calls of the block service (creations, status updates, deletions, new tips,
-- rebuilds and cleanups, those that raise included) keeps the index equal to the entries of the
-- stored blocks.
pub after_calls-IsIndexed :
    (cs : List BlockCall) (s : BlockStore) → IsIndexed s → IsIndexed (after_calls cs s)
unfolding after_calls
after_calls-IsIndexed [] s h = h
after_calls-IsIndexed (c ∷ cs) s h =
    after_calls-IsIndexed cs (after_call c s) (after_call-IsIndexed c s h)
