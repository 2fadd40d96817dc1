-- ===== src/Roots.antt =====
-- The roots of a block's data (src/BachiCoin/lib_blockchain/blockchain_merkle_verkle.py): a hash of
-- the sorted texts, put together with nothing between them. The hash library is the parameter
-- `hash_data`, and `text_of` is the text that a key stands for.
pub mod Sorted
pub mod Bag
use bachi_coin.Prelude.{
  ℕ, Bool, true, false, ◌&&◌, ◌||◌, List, [], ◌∷◌, ◌++◌, map, ltb, ◌==◌, if◌then◌else◌,
}
use bachi_coin.Dict.{Key}
use bachi_coin.Storage.{Text}
use bachi_coin.Tx.{Tx}
use bachi_coin.Chain.{genesis_parent}

-- The order of texts, by code points.
unfoldable pub le_text : Text → Text → Bool
le_text [] ys = true
le_text (x ∷ xs) [] = false
le_text (x ∷ xs) (y ∷ ys) = let rest = le_text xs ys in ltb x y || (x == y) && rest

module _ {ℓ} {A : Type ℓ} (le : A → A → Bool) where
  abbrev pub insert : A → List A → List A
  insert x [] = x ∷ []
  insert x (y ∷ ys) = let rest = insert x ys in if le x y then x ∷ y ∷ ys else y ∷ rest

  abbrev pub sorted : List A → List A
  sorted [] = []
  sorted (x ∷ xs) = insert x (sorted xs)

-- `"".join(...)`
abbrev pub join : List Text → Text
join [] = []
join (t ∷ ts) = t ++ join ts

pub record StateEntry : Type 0 where
  pub address : Text
  pub balance : Text

module _ (hash_data : Text → Key) (text_of : Key → Text) where
  -- The root of no data is 64 zeros.
  unfoldable pub root_of : List Text → Key
  unfolding le_text
  root_of [] = genesis_parent
  root_of (t ∷ ts) = hash_data (join (sorted le_text (t ∷ ts)))

  abbrev pub tx_texts : List Tx → List Text
  tx_texts txs = map (λ tx. text_of tx.tx_hash) txs

  -- `calculate_txs_root`
  unfoldable pub calculate_txs_root : List Tx → Key
  unfolding root_of
  calculate_txs_root txs = root_of (tx_texts txs)

  -- `calculate_receipts_root`, from the receipts' hashes
  unfoldable pub calculate_receipts_root : List Key → Key
  unfolding root_of
  calculate_receipts_root receipts = root_of (map text_of receipts)

  -- `f"{address}:{balance}"`
  abbrev pub state_text : StateEntry → Text
  state_text e = e.address ++ 58 ∷ e.balance

  -- `calculate_state_root`
  unfoldable pub calculate_state_root : List StateEntry → Key
  unfolding root_of
  calculate_state_root entries = root_of (map state_text entries)
