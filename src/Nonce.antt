-- ===== src/Nonce.antt =====
-- The nonce that a new transaction gets (src/BachiCoin/lib_nonce/nonce.py), given the canonical nonce
-- of its sender and the nonces of the sender's pending transactions.
pub mod Fresh
use bachi_coin.Prelude.{ℕ, ◌+◌, max, List, [], ◌∷◌}

-- `max(pending_nonces)`, of a list that is not empty.
unfoldable pub highest : ℕ → List ℕ → ℕ
highest n [] = n
highest n (m ∷ ms) = highest (max n m) ms

-- `calculate_next_nonce`
unfoldable pub calculate_next_nonce : ℕ → List ℕ → ℕ
unfolding highest
calculate_next_nonce canonical [] = canonical
calculate_next_nonce canonical (n ∷ ns) = max canonical (highest n ns + 1)
