-- ===== src/Tests/Roots.antt =====
-- The roots of two payments in either order, with an injective numbering of texts for the hash.
use bachi_coin.Prelude.{ℕ, zero, suc, ◌+◌, ◌*◌, ◌<◌, ◌≡◌, ◌↔◌, refl, ap, [], ◌∷◌, arith}
use bachi_coin.Dict.{Key}
use bachi_coin.Storage.{Text}
use bachi_coin.Tx.{Tx}
use bachi_coin.Roots.{calculate_txs_root}
use bachi_coin.Roots.Bag.{IsCollisionFree, bag_of, calculate_txs_root-bag_of}
use bachi_coin.Tests.Pool.{payment_at}

-- (2 n + 1) 2 ^ x
pair : ℕ → ℕ → ℕ
pair zero n = 2 * n + 1
pair (suc x) n = 2 * pair x n

pair_pos : (x n : ℕ) → 0 < pair x n
unfolding pair
pair_pos zero n = omega arith
pair_pos (suc x) n = omega (arith, pair_pos x n)

pair-inj : (x y n m : ℕ) → pair x n ≡ pair y m → (x ≡ y) × (n ≡ m)
unfolding pair
pair-inj zero zero n m e = (refl, omega arith)
pair-inj zero (suc y) n m e = absurd (omega arith)
pair-inj (suc x) zero n m e = absurd (omega arith)
pair-inj (suc x) (suc y) n m e = let (p, q) = pair-inj x y n m (omega arith) in (ap suc p, q)

number : Text → ℕ
number [] = 0
number (x ∷ xs) = pair x (number xs)

number-inj : (a b : Text) → number a ≡ number b → a ≡ b
unfolding number
number-inj [] [] e = refl
number-inj [] (y ∷ ys) e = absurd (omega (arith, pair_pos y (number ys)))
number-inj (x ∷ xs) [] e = absurd (omega (arith, pair_pos x (number xs)))
number-inj (x ∷ xs) (y ∷ ys) e =
    let (p, q) = pair-inj x y (number xs) (number ys) e in cc (p, number-inj xs ys q)

hash_data : Text → Key
hash_data t = number t + 3

hash_data-IsCollisionFree : IsCollisionFree hash_data
unfolding hash_data
hash_data-IsCollisionFree = record {
  injective = λ a b e. number-inj a b (omega (arith, e));
  never_zero = λ a e. omega (arith, e);
}

abbrev text_of : Key → Text
text_of k = 48 ∷ k ∷ []

abbrev other_payment : Tx
other_payment = record (payment_at 1) { tx_hash = 401 }

calculate_txs_root-bag_of_example :
    (calculate_txs_root hash_data text_of (payment_at 0 ∷ other_payment ∷ [])
      ≡ calculate_txs_root hash_data text_of (other_payment ∷ payment_at 0 ∷ []))
    ↔ (bag_of hash_data text_of (payment_at 0 ∷ other_payment ∷ [])
        ≡ bag_of hash_data text_of (other_payment ∷ payment_at 0 ∷ []))
calculate_txs_root-bag_of_example =
    calculate_txs_root-bag_of hash_data text_of 2 (omega arith) hash_data-IsCollisionFree
      (payment_at 0 ∷ other_payment ∷ []) (other_payment ∷ payment_at 0 ∷ []) (refl, (refl, tt))
      (refl, (refl, tt))
