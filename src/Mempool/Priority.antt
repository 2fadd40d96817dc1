-- ===== src/Mempool/Priority.antt =====
-- The order in which pending transactions are handed out.
use bachi_coin.Prelude.{
  ◌≡◌, refl, Bool, none, List, [], ◌∷◌, arith, length, keep, All, Bool-cases, inl, inr, ℤ, ◌≤ℤ◌,
  ltb_ℤ,
}
use bachi_coin.Mempool.{
  Entry, Pool, reload_state, is_pending, insert_by_score, sort_by_score, get_pending_transactions,
}

module _ (score : Entry → ℤ) where
  -- No later entry has a higher score.
  abbrev pub IsDescending : List Entry → Type 0
  IsDescending [] = Unit
  IsDescending (e ∷ es) = All (λ later. score later ≤ℤ score e) es × IsDescending es

  insert_by_score-All :
      (P : Entry → Type 0) (e : Entry) (es : List Entry)
      → P e
      → All P es
      → All P (insert_by_score score e es)
  unfolding insert_by_score
  insert_by_score-All P e [] p h = (p, tt)
  insert_by_score-All P e (x ∷ es) p h = elim (Bool-cases (ltb_ℤ (score e) (score x))) [
    | inl lower ↦ rw lower (h.0, insert_by_score-All P e es p h.1)
    | inr higher ↦ rw higher (p, h)
  ]

  All-le :
      (e x : Entry) (es : List Entry)
      → score x ≤ℤ score e
      → All (λ later. score later ≤ℤ score x) es
      → All (λ later. score later ≤ℤ score e) es
  All-le e x [] p h = tt
  All-le e x (y ∷ es) p h = (omega (arith, p, h.0), All-le e x es p h.1)

  insert_by_score-IsDescending :
      (e : Entry) (es : List Entry) → IsDescending es → IsDescending (insert_by_score score e es)
  unfolding insert_by_score
  insert_by_score-IsDescending e [] h = (tt, tt)
  insert_by_score-IsDescending e (x ∷ es) h = elim (Bool-cases (ltb_ℤ (score e) (score x))) [
    | inl lower ↦ rw lower (
      insert_by_score-All (λ later. score later ≤ℤ score x) e es (ground (arith, lower)) h.0,
      insert_by_score-IsDescending e es h.1,
    )
    | inr higher ↦
        let le : score x ≤ℤ score e = ground (arith, higher) in
        rw higher ((le, All-le e x es le h.0), h)
  ]

  sort_by_score-IsDescending : (es : List Entry) → IsDescending (sort_by_score score es)
  unfolding sort_by_score
  sort_by_score-IsDescending [] = tt
  sort_by_score-IsDescending (e ∷ es) =
      insert_by_score-IsDescending e (sort_by_score score es) (sort_by_score-IsDescending es)

  keep-insert_by_score :
      (p : Entry → Bool) (e : Entry) (es : List Entry)
      → length (keep p (insert_by_score score e es)) ≡ length (keep p (e ∷ es))
  unfolding insert_by_score
  keep-insert_by_score p e [] = refl
  keep-insert_by_score p e (x ∷ es) = ground (arith, keep-insert_by_score p e es)

  keep-sort_by_score :
      (p : Entry → Bool) (es : List Entry)
      → length (keep p (sort_by_score score es)) ≡ length (keep p es)
  unfolding sort_by_score
  keep-sort_by_score p [] = refl
  keep-sort_by_score p (e ∷ es) =
      ground (arith, keep-sort_by_score p es, keep-insert_by_score p e (sort_by_score score es))

  -- Without a limit, the pending transactions come in descending order of their scores, and are
  -- those of the queue: every test passes as many of the answer as of the pending entries.
  pub get_pending_transactions-sorts :
      (s : Pool) (p : Entry → Bool)
      → let sorted = (get_pending_transactions score none s).0 in
        IsDescending sorted
        × (length (keep p sorted)
            ≡ length (keep p (keep (λ e. is_pending e.status) (reload_state s).tx_queue)))
  unfolding get_pending_transactions
  get_pending_transactions-sorts s p =
      let pending = keep (λ e. is_pending e.status) (reload_state s).tx_queue in
      (sort_by_score-IsDescending pending, keep-sort_by_score p pending)
