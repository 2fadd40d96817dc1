-- ===== src/Chain/Structure.antt =====
-- The structure check of a list of blocks (src/BachiCoin/lib_blockchain/blockchain.py).
use bachi_coin.Prelude.{
  ℕ, zero, suc, ◌+◌, ◌≡◌, refl, ◌↔◌, true, some, List, [], ◌∷◌, ◌++◌, arith, ◌==◌, length,
  get_elem?,
}
use bachi_coin.Block.{Block}
use bachi_coin.Chain.{link_errors, structure_errors_from, validate_chain_structure_batch}

-- Each block names the one before it as its parent, and is one higher.
abbrev pub IsLinkedTo : Block → List Block → Type 0
IsLinkedTo parent [] = Unit
IsLinkedTo parent (b ∷ bs) =
    (b.parent_hash ≡ some parent.block_hash) × (b.height ≡ parent.height + 1) × IsLinkedTo b bs

abbrev pub IsLinked : List Block → Type 0
IsLinked [] = Unit
IsLinked (b ∷ bs) = IsLinkedTo b bs

link_errors-none :
    (parent b : Block)
    → link_errors parent b ≡ []
    → (b.parent_hash ≡ some parent.block_hash) × (b.height ≡ parent.height + 1)
unfolding link_errors
link_errors-none parent b e = ground arith

link_errors-linked :
    (parent b : Block)
    → b.parent_hash ≡ some parent.block_hash
    → b.height ≡ parent.height + 1
    → link_errors parent b ≡ []
unfolding link_errors
link_errors-linked parent b p q = ground (arith, p, q)

append-empty : {A : Type 0} (xs ys : List A) → xs ++ ys ≡ [] → (xs ≡ []) × (ys ≡ [])
append-empty [] ys e = (refl, e)
append-empty (x ∷ xs) ys e = cc

length-empty : {A : Type 0} (xs : List A) → (length xs == 0) ≡ true → xs ≡ []
length-empty [] e = refl
length-empty (x ∷ xs) e = absurd (ground (arith, e))

structure_errors_from-none :
    (parent : Block) (bs : List Block) → structure_errors_from parent bs ≡ [] → IsLinkedTo parent bs
unfolding structure_errors_from
structure_errors_from-none parent [] e = tt
structure_errors_from-none parent (b ∷ bs) e =
    let (first, rest) = append-empty (link_errors parent b) (structure_errors_from b bs) e in
    let (p, q) = link_errors-none parent b first in (p, q, structure_errors_from-none b bs rest)

structure_errors_from-linked :
    (parent : Block) (bs : List Block) → IsLinkedTo parent bs → structure_errors_from parent bs ≡ []
unfolding structure_errors_from
structure_errors_from-linked parent [] h = refl
structure_errors_from-linked parent (b ∷ bs) h =
    rw (link_errors-linked parent b h.0 h.1) (structure_errors_from-linked b bs h.2)

-- The structure check passes exactly the lists in which each block names the one before it as its
-- parent and is one higher.
pub validate_chain_structure_batch-IsLinked :
    (blocks : List Block) → ((validate_chain_structure_batch blocks).0 ≡ true) ↔ IsLinked blocks
unfolding validate_chain_structure_batch
validate_chain_structure_batch-IsLinked [] = (λ _. tt, λ _. refl)
validate_chain_structure_batch-IsLinked (b ∷ bs) = (
  λ h. structure_errors_from-none b bs (length-empty (structure_errors_from b bs) h),
  λ h. rw (structure_errors_from-linked b bs h) refl,
)

-- The height of the block at a position of a linked list is that of the first plus the position.
pub height-get_elem? :
    (parent : Block) (bs : List Block) (i : ℕ) (b : Block)
    → IsLinkedTo parent bs
    → get_elem? bs i ≡ some b
    → b.height ≡ parent.height + i + 1
height-get_elem? parent [] i b h e = cc
height-get_elem? parent (x ∷ bs) zero b h e =
    let same : x ≡ b = ground (arith, e) in rw (← same) (omega (arith, h.1))
height-get_elem? parent (x ∷ bs) (suc i) b h e = omega (arith, h.1, height-get_elem? x bs i b h.2 e)
