-- ===== src/BlockIndex.antt =====
-- The block service (src/BachiCoin/lib_blockchain/blockchain_index_service.py) with the index entry
-- of blockchain_helper.py. A prepared block comes with its hash, which is computed by the hash
-- library. Storage is reliable, so the rollback of `delete_block` is never reached.
pub mod Indexed
pub mod Runs
use bachi_coin.Prelude.{
  ℕ, zero, suc, ◌+◌, ◌-◌, Bool, true, false, not, ◌&&◌, ◌||◌, Option, none, some, List, [], ◌∷◌,
  map, length, take, drop, ltb, leb, ◌==◌, if◌then◌else◌,
}
use bachi_coin.Dict.{Key, Dict, get, put, pop, contains}
use bachi_coin.Exec.{Result, ok, err, assertion_failed, attribute_error}
use bachi_coin.Block.{Block, BlockStatus, Header, height_of, slot_of, transactions_of}
use bachi_coin.Chain.{genesis_parent, key_or_empty}

-- The fields of an index entry that the service reads.
pub record IndexEntry : Type 0 where
  pub height : ℕ
  pub slot : ℕ
  pub status : BlockStatus
  pub transaction_count : ℕ
  pub gas_used : ℕ

pub record BlockStore : Type 0 where
  pub records : Dict Block
  pub index : Dict IndexEntry
  pub chain_tip_hash : Option Key
  pub chain_height : Option ℕ

abbrev gas_of : Option Header → ℕ
gas_of none = 0
gas_of (some h) = h.gas_used

-- `build_index_entry_from_block`: the header's fields before the flat ones.
unfoldable pub build_index_entry_from_block : Block → IndexEntry
build_index_entry_from_block b = record {
  height = height_of b;
  slot = slot_of b;
  status = b.status;
  transaction_count = length (transactions_of b);
  gas_used = gas_of b.header;
}

-- `create_block_with_index`, from the prepared block on.
unfoldable pub create_block_with_index : Block → BlockStore → Key × BlockStore
unfolding build_index_entry_from_block
create_block_with_index b s = (
  b.block_hash,
  record s {
    records = put b.block_hash b s.records;
    index = put b.block_hash (build_index_entry_from_block b) s.index;
  },
)

abbrev set_entry_status : BlockStatus → Option IndexEntry → Key → Dict IndexEntry → Dict IndexEntry
set_entry_status status none hash d = d
set_entry_status status (some e) hash d = put hash (record e { status = status }) d

unfoldable pub update_found :
    Key → BlockStatus → Option Block → BlockStore → Result Bool × BlockStore
update_found hash status none s = (err assertion_failed, s)
update_found hash status (some b) s = (
  ok true,
  record s {
    records = put hash (record b { status = status }) s.records;
    index = set_entry_status status (get hash s.index) hash s.index;
  },
)

-- `update_block` with a status, which is what the finalizer writes.
unfoldable pub update_block_status : Key → BlockStatus → BlockStore → Result Bool × BlockStore
unfolding update_found
update_block_status hash status s = update_found hash status (get hash s.records) s

unfoldable pub delete_found : Key → Option Block → BlockStore → Result Bool × BlockStore
delete_found hash none s = (err assertion_failed, s)
delete_found hash (some b) s =
    (ok true, record s { records = pop hash s.records; index = pop hash s.index })

unfoldable pub delete_block : Key → BlockStore → Result Bool × BlockStore
unfolding delete_found
delete_block hash s = delete_found hash (get hash s.records) s

-- `sort(key=...)`, which keeps the order of equal keys.
abbrev pub insert_by {ℓ} : {A : Type ℓ} → (A → ℕ) → A → List A → List A
insert_by key x [] = x ∷ []
insert_by key x (y ∷ ys) =
    let rest = insert_by key x ys in if ltb (key y) (key x) then y ∷ rest else x ∷ y ∷ ys

abbrev pub sort_by {ℓ} : {A : Type ℓ} → (A → ℕ) → List A → List A
sort_by key [] = []
sort_by key (x ∷ xs) = insert_by key x (sort_by key xs)

-- The stored blocks of the entries that pass a test.
unfoldable pub matching : (IndexEntry → Bool) → Dict IndexEntry → Dict Block → List Block
matching p [] blocks = []
matching p ((hash, e) ∷ d) blocks =
    let rest = matching p d blocks in
    if p e then elim (get hash blocks) [ none ↦ rest | some b ↦ b ∷ rest ] else rest

abbrev is_between : ℕ → ℕ → ℕ → Bool
is_between low high n = leb low n && leb n high

-- `get_blocks_by_slot_range`: the index's slots select, the blocks' own flat slots sort.
unfoldable pub get_blocks_by_slot_range : ℕ → ℕ → BlockStore → Result (List Block)
unfolding matching
get_blocks_by_slot_range start_slot end_slot s =
    if ltb end_slot start_slot
    then err assertion_failed
    else ok (
        sort_by (λ b. b.slot)
          (matching (λ e. is_between start_slot end_slot e.slot) s.index s.records))

abbrev load_hashes : List (ℕ × Key) → Dict Block → List Block
load_hashes [] blocks = []
load_hashes ((_, hash) ∷ items) blocks =
    let rest = load_hashes items blocks in
    elim (get hash blocks) [ none ↦ rest | some b ↦ b ∷ rest ]

-- `list_blocks`
unfoldable pub list_blocks : ℕ → ℕ → BlockStore → Result (List Block)
list_blocks limit offset s =
    if limit == 0
    then err assertion_failed
    else let items = sort_by (λ i. i.0) (map (λ i. (i.1.height, i.0)) s.index) in
      ok (load_hashes (take limit (drop offset items)) s.records)

-- `get_chain_tip`; an empty hash is none.
unfoldable pub get_chain_tip : BlockStore → Option Block
get_chain_tip s = elim s.chain_tip_hash [
  | none ↦ none
  | some hash ↦ if hash == 0 then none else get hash s.records
]

-- `set_chain_tip`
unfoldable pub set_chain_tip : Key → ℕ → BlockStore → BlockStore
set_chain_tip hash height s = record s { chain_tip_hash = some hash; chain_height = some height }

-- `save_index_data({"blocks": entries})`, which leaves out the chain state that stands beside them.
unfoldable pub save_blocks_only : Dict IndexEntry → BlockStore → BlockStore
save_blocks_only entries s = record s {
  index = entries;
  chain_tip_hash = none;
  chain_height = none;
}

unfoldable pub rebuild_from : Dict Block → BlockStore → Result (Unit {0}) × BlockStore
unfolding save_blocks_only
rebuild_from [] s = (ok tt, save_blocks_only [] s)
rebuild_from (_ ∷ _) s = (err attribute_error, s)

-- `rebuild_index`. At the first stored block it calls `_create_index_entry_data`, which does not
-- exist.
unfoldable pub rebuild_index : BlockStore → Result (Unit {0}) × BlockStore
unfolding rebuild_from
rebuild_index s = rebuild_from s.records s

abbrev keep_stored : Dict IndexEntry → Dict Block → Dict IndexEntry
keep_stored [] blocks = []
keep_stored ((hash, e) ∷ d) blocks =
    let rest = keep_stored d blocks in if contains hash blocks then (hash, e) ∷ rest else rest

-- `cleanup_orphaned_entries`
unfoldable pub cleanup_orphaned_entries : BlockStore → BlockStore
unfolding save_blocks_only
cleanup_orphaned_entries s = save_blocks_only (keep_stored s.index s.records) s

-- The walk of `_get_canonical_block_hash_by_height`; the outer `none` is out of fuel.
unfoldable pub walk_back : ℕ → ℕ → Option Block → Dict Block → Option (Option Key)
walk_back zero height current blocks = none
walk_back (suc fuel) height none blocks = some none
walk_back (suc fuel) height (some b) blocks =
    let parent = key_or_empty b.parent_hash in
    let rest = walk_back fuel height (get parent blocks) blocks in
    if b.height == height
    then some (some b.block_hash)
    else if (parent == 0) || (parent == genesis_parent)
    then some none
    else rest

unfoldable pub get_canonical_block_hash_by_height : ℕ → ℕ → BlockStore → Option (Option Key)
unfolding walk_back get_chain_tip
get_canonical_block_hash_by_height fuel height s = elim (get_chain_tip s) [
  | none ↦ some none
  | some tip ↦
      if ltb tip.height height then some none else walk_back fuel height (some tip) s.records
]
