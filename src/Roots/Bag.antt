-- ===== src/Roots/Bag.antt =====
-- A root of transactions stands for the bag of their hashes: the list without its order.
use mathlib.Core.Path.{subst}
use mathlib.Core.List.{Permᴰ}
use mathlib.Core.List.Permᴰ
use mathlib.Core.Quot
use mathlib.Core.Quot.{Quot}
use native.Mathlib.Nat.{ℕ_set}
use bachi_coin.Prelude.{
  ℕ, ◌<◌, ◌≡◌, ◌≢◌, ◌↔◌, refl, ap, sym, ◌∙◌, List, [], ◌∷◌, ◌++◌, arith, length, length-append, All,
}
use bachi_coin.Dict.{Key}
use bachi_coin.Storage.{Text}
use bachi_coin.Tx.{Tx}
use bachi_coin.Chain.{genesis_parent}
use bachi_coin.Roots.{insert, sorted, le_text, join, root_of, tx_texts, calculate_txs_root}
use bachi_coin.Roots.Sorted.{sorted-perm, perm-sorted, le_text-IsOrder}

-- Texts without their order.
abbrev pub Bag : Type 0
Bag = Quot {α = List Text} (λ xs ys. Permᴰ xs ys)

-- What is asked of the hash: different texts have different hashes, and none is 64 zeros.
pub record IsCollisionFree (hash_data : Text → Key) : Type 0 where
  pub injective : (a b : Text) → hash_data a ≡ hash_data b → a ≡ b
  pub never_zero : (a : Text) → hash_data a ≢ genesis_parent

All-perm {ℓ κ} : {A : Type ℓ} (P : A → Type κ) {xs ys : List A} → Permᴰ xs ys → All P xs → All P ys
All-perm P Permᴰ.nil h = tt
All-perm P (Permᴰ.cons e p) h = (subst P e h.0, All-perm P p h.1)
All-perm P (Permᴰ.swap e f) h = (subst P f h.1.0, (subst P e h.0, h.1.1))
All-perm P (Permᴰ.trans p q) h = All-perm P q (All-perm P p h)

append-inj {ℓ} :
    {A : Type ℓ} (t u a b : List A) → length t ≡ length u → t ++ a ≡ u ++ b → (t ≡ u) × (a ≡ b)
append-inj [] [] a b n e = (refl, e)
append-inj [] (y ∷ u) a b n e = absurd (omega arith)
append-inj (x ∷ t) [] a b n e = absurd (omega arith)
append-inj (x ∷ t) (y ∷ u) a b n e =
    let tail : t ++ a ≡ u ++ b = cc in
    let (p, q) = append-inj t u a b (omega arith) tail in (cc (p), q)

module _ (k : ℕ) (pos : 0 < k) where
  abbrev pub AllLong : List Text → Type 0
  AllLong ts = All (λ t. length t ≡ k) ts

  join-inj : (xs ys : List Text) → AllLong xs → AllLong ys → join xs ≡ join ys → xs ≡ ys
  join-inj [] [] h g e = refl
  join-inj [] (u ∷ us) h g e = absurd (omega (arith, ap length e, length-append u (join us), g.0))
  join-inj (t ∷ ts) [] h g e = absurd (omega (arith, ap length e, length-append t (join ts), h.0))
  join-inj (t ∷ ts) (u ∷ us) h g e =
      let (p, q) = append-inj t u (join ts) (join us) (h.0 ∙ sym g.0) e in
      cc (p, join-inj ts us h.1 g.1 q)

insert-ne-nil : (x : Text) (xs : List Text) → insert le_text x xs ≢ []
insert-ne-nil x [] e = cc
insert-ne-nil x (y ∷ ys) e = ground (arith, e)

module _ (hash_data : Text → Key) (text_of : Key → Text) where
  root_of-perm :
      (xs ys : List Text)
      → Permᴰ xs ys
      → root_of hash_data text_of xs ≡ root_of hash_data text_of ys
  unfolding root_of
  root_of-perm [] [] p = refl
  root_of-perm [] (y ∷ ys) p =
      absurd (insert-ne-nil y (sorted le_text ys) (sym (sorted-perm le_text le_text-IsOrder p)))
  root_of-perm (x ∷ xs) [] p =
      absurd (insert-ne-nil x (sorted le_text xs) (sorted-perm le_text le_text-IsOrder p))
  root_of-perm (x ∷ xs) (y ∷ ys) p =
      ap (λ ts. hash_data (join ts)) (sorted-perm le_text le_text-IsOrder p)

  -- The root as a function of the bag.
  bag_root : Bag → Key
  bag_root = Quot.lift ℕ_set (root_of hash_data text_of) root_of-perm

  abbrev pub bag_of : List Tx → Bag
  bag_of txs = Quot.mk (tx_texts hash_data text_of txs)

  perm-root_of :
      (k : ℕ)
      → 0 < k
      → IsCollisionFree hash_data
      → (xs ys : List Text) → All (λ t. length t ≡ k) xs
      → All (λ t. length t ≡ k) ys
      → root_of hash_data text_of xs ≡ root_of hash_data text_of ys
      → Permᴰ xs ys
  unfolding root_of
  perm-root_of k pos free [] [] h g e = Permᴰ.nil
  perm-root_of k pos free [] (y ∷ ys) h g e = absurd (free.never_zero _ (sym e))
  perm-root_of k pos free (x ∷ xs) [] h g e = absurd (free.never_zero _ e)
  perm-root_of k pos free (x ∷ xs) (y ∷ ys) h g e =
      let left = perm-sorted le_text (x ∷ xs) in
      let right = perm-sorted le_text (y ∷ ys) in
      let same =
        join-inj k pos (sorted le_text (x ∷ xs)) (sorted le_text (y ∷ ys))
          (All-perm (λ t. length t ≡ k) (Permᴰ.symm left) h)
          (All-perm (λ t. length t ≡ k) (Permᴰ.symm right) g) (free.injective _ _ e) in
      Permᴰ.trans (Permᴰ.symm left) (subst (λ l. Permᴰ l (y ∷ ys)) (sym same) right)

  -- With a hash without collisions that never gives 64 zeros, and transaction hashes that all have
  -- one length above zero, two lists of transactions have the same root exactly if they have the
  -- same hashes, each as often, in whatever order.
  pub calculate_txs_root-bag_of :
      (k : ℕ)
      → 0 < k
      → IsCollisionFree hash_data
      → (xs ys : List Tx) → All (λ t. length t ≡ k) (tx_texts hash_data text_of xs)
      → All (λ t. length t ≡ k) (tx_texts hash_data text_of ys)
      → (calculate_txs_root hash_data text_of xs ≡ calculate_txs_root hash_data text_of ys)
        ↔ (bag_of xs ≡ bag_of ys)
  unfolding calculate_txs_root bag_root
  calculate_txs_root-bag_of k pos free xs ys h g = (
    λ e. Quot.sound (
        perm-root_of k pos free (tx_texts hash_data text_of xs) (tx_texts hash_data text_of ys) h g
          e),
    λ e. ap bag_root e,
  )
