-- ===== src/Roots/Sorted.antt =====
-- Sorting by a total order: the result has the same elements, and depends on nothing else.
use mathlib.Core.List.{Permᴰ}
use mathlib.Core.List.Permᴰ
use bachi_coin.Prelude.{
  ◌≡◌, refl, ◌∙◌, Bool, true, false, List, [], ◌∷◌, arith, Bool-cases, inl, inr,
}
use bachi_coin.Storage.{Text}
use bachi_coin.Roots.{insert, sorted, le_text}

-- A test that is a total order.
pub record IsOrder {ℓ} {A : Type ℓ} (le : A → A → Bool) : Type ℓ where
  pub total : (a b : A) → le a b ≡ false → le b a ≡ true
  pub antisym : (a b : A) → le a b ≡ true → le b a ≡ true → a ≡ b
  pub trans : (a b c : A) → le a b ≡ true → le b c ≡ true → le a c ≡ true

module _ {ℓ} {A : Type ℓ} (le : A → A → Bool) where
  perm-insert : (x : A) (xs : List A) → Permᴰ (insert le x xs) (x ∷ xs)
  perm-insert x [] = Permᴰ.refl (x ∷ [])
  perm-insert x (y ∷ ys) = elim (Bool-cases (le x y)) [
    | inl e ↦ rw e (Permᴰ.refl (x ∷ y ∷ ys))
    | inr e ↦ rw e (Permᴰ.trans (Permᴰ.cons refl (perm-insert x ys)) (Permᴰ.swap refl refl))
  ]

  pub perm-sorted : (xs : List A) → Permᴰ (sorted le xs) xs
  perm-sorted [] = Permᴰ.nil
  perm-sorted (x ∷ xs) =
      Permᴰ.trans (perm-insert x (sorted le xs)) (Permᴰ.cons refl (perm-sorted xs))

  module _ (o : IsOrder le) where
    insert_comm : (a b : A) (l : List A) → insert le a (insert le b l) ≡ insert le b (insert le a l)
    insert_comm a b [] = elim (Bool-cases (le a b)) [
      | inl p ↦ elim (Bool-cases (le b a)) [
        | inl q ↦ rw (o.antisym a b p q) refl
        | inr q ↦ rw (p, q) refl
      ]
      | inr p ↦ rw (p, o.total a b p) refl
    ]
    insert_comm a b (c ∷ l) = ground (
      arith,
      insert_comm a b l,
      o.total a b,
      o.antisym a b,
      o.total a c,
      o.total b c,
      o.trans a b c,
      o.trans b a c,
    )

    pub sorted-perm : {xs ys : List A} → Permᴰ xs ys → sorted le xs ≡ sorted le ys
    sorted-perm Permᴰ.nil = refl
    sorted-perm (Permᴰ.cons e p) = cc (e, sorted-perm p)
    sorted-perm (Permᴰ.swap {a} {b} {l = l} e f) = cc (e, f, insert_comm a b (sorted le l))
    sorted-perm (Permᴰ.trans p q) = sorted-perm p ∙ sorted-perm q

le_text-total : (a b : Text) → le_text a b ≡ false → le_text b a ≡ true
unfolding le_text
le_text-total [] b h = cc
le_text-total (x ∷ xs) [] h = refl
le_text-total (x ∷ xs) (y ∷ ys) h = ground (arith, le_text-total xs ys)

le_text-antisym : (a b : Text) → le_text a b ≡ true → le_text b a ≡ true → a ≡ b
unfolding le_text
le_text-antisym [] [] h k = refl
le_text-antisym [] (y ∷ ys) h k = cc
le_text-antisym (x ∷ xs) [] h k = cc
le_text-antisym (x ∷ xs) (y ∷ ys) h k = ground (arith, le_text-antisym xs ys)

le_text_trans : (a b c : Text) → le_text a b ≡ true → le_text b c ≡ true → le_text a c ≡ true
unfolding le_text
le_text_trans [] b c h k = refl
le_text_trans (x ∷ xs) [] c h k = cc
le_text_trans (x ∷ xs) (y ∷ ys) [] h k = cc
le_text_trans (x ∷ xs) (y ∷ ys) (z ∷ zs) h k = ground (arith, le_text_trans xs ys zs)

pub le_text-IsOrder : IsOrder le_text
le_text-IsOrder = record { total = le_text-total; antisym = le_text-antisym; trans = le_text_trans }
