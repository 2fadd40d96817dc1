-- ===== src/Mempool/Queue.antt =====
-- What holds of the queue of the mempool: the lookup table, the nonces and the stored copy.
use bachi_coin.Prelude.{
  ℕ, suc, ◌+◌, ◌-◌, ◌≤◌, ◌≡◌, refl, ap, sym, ◌∙◌, Bool, false, Option, none, some, List, [], ◌∷◌,
  ◌++◌, arith, ◌==◌, length, keep, All, Bool-cases, inl, inr, ◌⊎◌, get_elem?, All-append, All-keep,
}
use bachi_coin.Dict.{Key, Dict, get, put, get-put}
use bachi_coin.Tx.{Tx}
use bachi_coin.Admission.{max_pool_size}
use bachi_coin.Mempool.{
  Entry, Pool, index_queue, reload_state, nonce_in_queue, is_nonce_taken, sender_of,
}

-- An entry of a sender whose nonce another entry may not have.
abbrev pub is_rival : Tx → Entry → Bool
is_rival tx e = nonce_in_queue (sender_of tx) tx.nonce (e ∷ [])

-- No entry has the sender and the nonce of a later one.
abbrev pub AllDistinct : List Entry → Type 0
AllDistinct [] = Unit
AllDistinct (e ∷ es) = All (λ later. is_rival later.tx e ≡ false) es × AllDistinct es

pub record IsWellFormed (s : Pool) : Type 0 where
  -- a reload from storage changes nothing
  pub fresh : reload_state s ≡ s
  pub lookup : s.tx_lookup ≡ index_queue 0 s.tx_queue []
  pub distinct : AllDistinct s.tx_queue
  pub within : length s.tx_queue ≤ max_pool_size

pub index_queue-append :
    (i : ℕ) (es : List Entry) (e : Entry) (d : Dict ℕ)
    → index_queue i (es ++ e ∷ []) d ≡ put e.tx.tx_hash (i + length es) (index_queue i es d)
unfolding index_queue
index_queue-append i [] e d = ap (λ n. put e.tx.tx_hash n d) (omega arith)
index_queue-append i (x ∷ es) e d =
    index_queue-append (i + 1) es e (put x.tx.tx_hash i d)
    ∙ ap (λ n. put e.tx.tx_hash n (index_queue (i + 1) es (put x.tx.tx_hash i d))) (omega arith)

plus_zero : (n : ℕ) → 0 + n ≡ n
plus_zero n = omega arith

pub index_queue-add :
    (es : List Entry) (e : Entry)
    → index_queue 0 (es ++ e ∷ []) [] ≡ put e.tx.tx_hash (length es) (index_queue 0 es [])
index_queue-add es e =
    index_queue-append 0 es e []
    ∙ ap (λ n. put e.tx.tx_hash n (index_queue 0 es [])) (plus_zero (length es))

nonce_in_queue-cons :
    (addr : Option Key) (n : Option ℕ) (e : Entry) (es : List Entry)
    → nonce_in_queue addr n (e ∷ es) ≡ false
    → (nonce_in_queue addr n (e ∷ []) ≡ false) × (nonce_in_queue addr n es ≡ false)
unfolding nonce_in_queue
nonce_in_queue-cons none n e es h = (refl, refl)
nonce_in_queue-cons (some addr) none e es h = (refl, refl)
nonce_in_queue-cons (some addr) (some n) e es h = ground (arith, h)

pub AllDistinct-append :
    (es : List Entry) (e : Entry)
    → AllDistinct es
    → is_nonce_taken e.tx es ≡ false
    → AllDistinct (es ++ e ∷ [])
unfolding is_nonce_taken
AllDistinct-append [] e h p = (tt, tt)
AllDistinct-append (x ∷ es) e h p =
    let (first, rest) = nonce_in_queue-cons (sender_of e.tx) e.tx.nonce x es p in
    (
      All-append (λ later. is_rival later.tx x ≡ false) es e h.0 first,
      AllDistinct-append es e h.1 rest,
    )

pub AllDistinct-keep :
    (p : Entry → Bool) (es : List Entry) → AllDistinct es → AllDistinct (keep p es)
AllDistinct-keep p [] h = tt
AllDistinct-keep p (e ∷ es) h = elim (Bool-cases (p e)) [
  | inl kept ↦
      rw kept (All-keep (λ later. is_rival later.tx e ≡ false) p es h.0, AllDistinct-keep p es h.1)
  | inr gone ↦ rw gone (AllDistinct-keep p es h.1)
]

zero_diff : (i : ℕ) → i - i ≡ 0
zero_diff i = omega arith

suc_diff : (i n : ℕ) → i + 1 ≤ n → n - i ≡ suc (n - (i + 1))
suc_diff i n le = omega arith

first_elem : (x : Entry) (es : List Entry) (i : ℕ) → get_elem? (x ∷ es) (i - i) ≡ some x
first_elem x es i = ap (get_elem? (x ∷ es)) (zero_diff i)

later_elem :
    (x : Entry) (es : List Entry) (i n : ℕ) (e : Entry)
    → i + 1 ≤ n
    → get_elem? es (n - (i + 1)) ≡ some e
    → get_elem? (x ∷ es) (n - i) ≡ some e
later_elem x es i n e le at = ap (get_elem? (x ∷ es)) (suc_diff i n le) ∙ at

-- The lookup table points at an entry with the hash.
get-index_queue :
    (i : ℕ) (es : List Entry) (d : Dict ℕ) (hash : Key) (n : ℕ)
    → get hash (index_queue i es d) ≡ some n
    → (get hash d ≡ some n)
      ⊎ ((e : Entry) × ((get_elem? es (n - i) ≡ some e) × (e.tx.tx_hash ≡ hash) × (i ≤ n)))
unfolding index_queue
get-index_queue i [] d hash n h = inl h
get-index_queue i (x ∷ es) d hash n h =
    elim (get-index_queue (i + 1) es (put x.tx.tx_hash i d) hash n h) [
      | inl old ↦ elim (Bool-cases (x.tx.tx_hash == hash)) [
        | inl here ↦
            let same : i ≡ n = ground (arith, old, here, get-put x.tx.tx_hash hash i d) in
            inr (x, (rw (← same) (first_elem x es i), ground (arith, here), omega (arith, same)))
        | inr other ↦ inl (ground (arith, old, other, get-put x.tx.tx_hash hash i d))
      ]
      | inr (e, (at, same, le)) ↦ inr (e, (later_elem x es i n e le at, same, omega arith))
    ]

minus_zero : (n : ℕ) → n ≡ n - 0
minus_zero n = omega arith

-- In a well-formed pool, a hash of the lookup table leads to an entry of the queue with this hash.
pub IsWellFormed-lookup :
    (s : Pool) (hash : Key) (n : ℕ)
    → IsWellFormed s
    → get hash s.tx_lookup ≡ some n
    → (e : Entry) × ((get_elem? s.tx_queue n ≡ some e) × (e.tx.tx_hash ≡ hash))
IsWellFormed-lookup s hash n h p =
    elim (get-index_queue 0 s.tx_queue [] hash n (ap (get hash) (sym h.lookup) ∙ p)) [
      | inl absurd_case ↦ cc
      | inr (e, (at, same, le)) ↦ (e, (ap (get_elem? s.tx_queue) (minus_zero n) ∙ at, same))
    ]
