-- ===== src/Nonce/Fresh.antt =====
-- The next nonce against the pending ones, and against the mempool's rules.
use bachi_coin.Prelude.{
  ℕ, ◌+◌, ◌≤◌, ◌<◌, max, ◌≡◌, refl, false, none, List, [], ◌∷◌, arith, ◌==◌, any_of, All,
}
use bachi_coin.Admission.{AccountState, max_nonce_gap, validate_nonce_sequence}
use bachi_coin.Nonce.{highest, calculate_next_nonce}

highest-ge : (n : ℕ) (ns : List ℕ) → (n ≤ highest n ns) × All (λ m. m ≤ highest n ns) ns
unfolding highest
highest-ge n [] = (omega arith, tt)
highest-ge n (m ∷ ns) =
    let (first, rest) = highest-ge (max n m) ns in
    (omega (arith, first), (omega (arith, first), rest))

All-lt : (a b : ℕ) (ns : List ℕ) → a + 1 ≤ b → All (λ m. m ≤ a) ns → All (λ m. m < b) ns
All-lt a b [] p h = tt
All-lt a b (n ∷ ns) p h = (omega (arith, p, h.0), All-lt a b ns p h.1)

-- The next nonce is no lower than the canonical one, and higher than every pending one.
pub calculate_next_nonce-is_new :
    (canonical : ℕ) (pending : List ℕ)
    → (canonical ≤ calculate_next_nonce canonical pending)
      × All (λ n. n < calculate_next_nonce canonical pending) pending
unfolding calculate_next_nonce
calculate_next_nonce-is_new canonical [] = (omega arith, tt)
calculate_next_nonce-is_new canonical (n ∷ ns) =
    let (first, rest) = highest-ge n ns in
    let next = max canonical (highest n ns + 1) in
    (omega arith, (omega (arith, first), All-lt (highest n ns) next ns (omega arith) rest))

none_equal : (n : ℕ) (ns : List ℕ) → All (λ m. m < n) ns → any_of (λ m. m == n) ns ≡ false
none_equal n [] h = refl
none_equal n (m ∷ ns) h = ground (arith, h.0, none_equal n ns h.1)

-- A transaction with the next nonce passes the nonce rules of a mempool that knows the account's
-- pending nonces, as long as the nonce is within the gap that the mempool allows.
pub validate_nonce_sequence-calculate_next_nonce :
    (canonical : ℕ) (a : AccountState)
    → a.next_nonce ≡ none
    → calculate_next_nonce canonical a.pending_nonces ≤ max_nonce_gap
    → validate_nonce_sequence (calculate_next_nonce canonical a.pending_nonces) a ≡ []
unfolding validate_nonce_sequence
validate_nonce_sequence-calculate_next_nonce canonical a e gap =
    let next = calculate_next_nonce canonical a.pending_nonces in
    ground (
      arith,
      e,
      gap,
      none_equal next a.pending_nonces (calculate_next_nonce-is_new canonical a.pending_nonces).1,
    )
