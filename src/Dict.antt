-- ===== src/Dict.antt =====
-- A Python `dict` in insertion order. A key is a number that stands for a text: the program only
-- compares its keys, so an injective numbering of the texts loses nothing. 0 is the empty text.
use mathlib.Core.Path.{subst}
use bachi_coin.Prelude.{
  ℕ, ◌≡◌, refl, Bool, true, false, Option, none, some, List, [], ◌∷◌, arith, ◌==◌, if◌then◌else◌, ℤ,
  pos, ◌+ℤ◌, ◌≤ℤ◌, int_laws, Bool-cases, inl, inr, ap,
}

abbrev pub Key : Type 0
Key = ℕ

abbrev pub Dict {ℓ} : Type ℓ → Type ℓ
Dict V = List (Key × V)

module _ {ℓ} {V : Type ℓ} where
  -- `d.get(k)`
  abbrev pub get : Key → Dict V → Option V
  get k [] = none
  get k ((j, v) ∷ d) = if j == k then some v else get k d

  -- `k in d`
  abbrev pub contains : Key → Dict V → Bool
  contains k d = elim (get k d) [ none ↦ false | some _ ↦ true ]

  -- `d[k] = v`: the place of an old key is kept, a new one goes last.
  abbrev pub put : Key → V → Dict V → Dict V
  put k v [] = (k, v) ∷ []
  put k v ((j, w) ∷ d) = if j == k then (j, v) ∷ d else (j, w) ∷ put k v d

  -- `d.pop(k, None)`
  abbrev pub pop : Key → Dict V → Dict V
  pop k [] = []
  pop k ((j, w) ∷ d) = let rest = pop k d in if j == k then rest else (j, w) ∷ rest

  pub get-put :
      (k j : Key) (v : V) (d : Dict V) → get j (put k v d) ≡ (if k == j then some v else get j d)
  get-put k j v [] = refl
  get-put k j v ((i, w) ∷ d) = ground (arith, get-put k j v d)

  pub get-pop : (k j : Key) (d : Dict V) → get j (pop k d) ≡ (if k == j then none else get j d)
  get-pop k j [] = ground arith
  get-pop k j ((i, w) ∷ d) = ground (arith, get-pop k j d)

  -- A sum over the values.
  abbrev pub sum_of : (V → ℤ) → Dict V → ℤ
  sum_of f [] = pos 0
  sum_of f ((_, v) ∷ d) = f v +ℤ sum_of f d

  pub sum_of-put :
      (f : V → ℤ) (k : Key) (v old : V) (d : Dict V)
      → get k d ≡ some old
      → sum_of f (put k v d) +ℤ f old ≡ sum_of f d +ℤ f v
  sum_of-put f k v old [] e = cc
  sum_of-put f k v old ((j, w) ∷ d) e = grind (int_laws, sum_of-put f k v old d)

  pub sum_of-put_new :
      (f : V → ℤ) (k : Key) (v : V) (d : Dict V)
      → get k d ≡ none
      → sum_of f (put k v d) ≡ sum_of f d +ℤ f v
  sum_of-put_new f k v [] e = omega int_laws
  sum_of-put_new f k v ((j, w) ∷ d) e = grind (int_laws, sum_of-put_new f k v d)

-- The first entry is the value that is looked up, if it has the key.
value-first {ℓ} :
    {V : Type ℓ} (j k : Key) (w v : V) (d : Dict V)
    → get k ((j, w) ∷ d) ≡ some v
    → (j == k) ≡ true
    → w ≡ v
value-first j k w v d e here = ground arith

module _ {ℓ κ} {V : Type ℓ} where
  -- A predicate that holds of every value.
  abbrev pub AllValues : (V → Type κ) → Dict V → Type κ
  AllValues P [] = Unit
  AllValues P ((_, v) ∷ d) = P v × AllValues P d

  pub AllValues-get :
      (P : V → Type κ) (k : Key) (v : V) (d : Dict V) → AllValues P d → get k d ≡ some v → P v
  AllValues-get P k v [] h e = cc
  AllValues-get P k v ((j, w) ∷ d) h e = elim (Bool-cases (j == k)) [
    | inl here ↦ subst P (value-first j k w v d e here) h.0
    | inr later ↦ AllValues-get P k v d h.1 (rw later at e)
  ]

  pub AllValues-put :
      (P : V → Type κ) (k : Key) (v : V) (d : Dict V)
      → AllValues P d
      → P v
      → AllValues P (put k v d)
  AllValues-put P k v [] h p = (p, tt)
  AllValues-put P k v ((j, w) ∷ d) h p = elim (Bool-cases (j == k)) [
    | inl here ↦ rw here (p, h.1)
    | inr later ↦ rw later (h.0, AllValues-put P k v d h.1 p)
  ]

module _ {ℓ} {V : Type ℓ} (f : V → ℤ) where
  pub sum_of-nonneg : (d : Dict V) → AllValues (λ v. pos 0 ≤ℤ f v) d → pos 0 ≤ℤ sum_of f d
  sum_of-nonneg [] h = omega arith
  sum_of-nonneg ((j, w) ∷ d) h = omega (int_laws, sum_of-nonneg d h.1)

  -- A value is at most the sum, where all are zero or more.
  pub value-le-sum_of :
      (k : Key) (v : V) (d : Dict V)
      → AllValues (λ v. pos 0 ≤ℤ f v) d
      → get k d ≡ some v
      → f v ≤ℤ sum_of f d
  value-le-sum_of k v [] h e = cc
  value-le-sum_of k v ((j, w) ∷ d) h e = elim (Bool-cases (j == k)) [
    | inl here ↦
        let same : f w ≡ f v = ap f (value-first j k w v d e here) in
        rw (← same) (omega (int_laws, sum_of-nonneg d h.1))
    | inr later ↦ omega (int_laws, value-le-sum_of k v d h.1 (rw later at e))
  ]
