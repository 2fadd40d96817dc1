-- ===== src/Mempool/Expiry.antt =====
-- Taking expired transactions out of the mempool: `cleanup_expired`.
use bachi_coin.Prelude.{
  ℕ, ◌≤◌, ◌≡◌, refl, ap, sym, Bool, true, false, not, List, [], ◌∷◌, arith, length, keep, leb,
  if◌then◌else◌, Bool-cases, inl, inr, length-keep, All, All-keep, keep-All, any_of,
}
use bachi_coin.Dict.{Key}
use bachi_coin.Admission.{max_pool_size}
use bachi_coin.Mempool.{
  Entry, Pool, index_queue, reload_state, load_saved, persist_state, remove_from_queue, remove_all,
  cleanup_expired, hashes_of, has_hash, is_expired,
}
use bachi_coin.Mempool.Queue.{IsWellFormed, AllDistinct, AllDistinct-keep}

-- What each removal keeps, before the pool is stored again.
record IsTidy (s : Pool) : Type 0 where
  lookup : s.tx_lookup ≡ index_queue 0 s.tx_queue []
  distinct : AllDistinct s.tx_queue
  within : length s.tx_queue ≤ max_pool_size

remove_all-IsTidy : (hashes : List Key) (s : Pool) → IsTidy s → IsTidy (remove_all hashes s)
unfolding remove_all remove_from_queue
remove_all-IsTidy [] s h = h
remove_all-IsTidy (hash ∷ hashes) s h =
    remove_all-IsTidy hashes (remove_from_queue hash s) (record {
      lookup = refl;
      distinct = AllDistinct-keep (λ e. not (has_hash hash e)) s.tx_queue h.distinct;
      within = omega (arith, h.within, length-keep (λ e. not (has_hash hash e)) s.tx_queue);
    })

persist_state-IsWellFormed : (s : Pool) → IsTidy s → IsWellFormed (persist_state s)
unfolding persist_state reload_state load_saved
persist_state-IsWellFormed s h = record {
  fresh = ap (λ d. record (persist_state s) { tx_lookup = d }) (sym h.lookup);
  lookup = h.lookup;
  distinct = h.distinct;
  within = h.within;
}

-- The pool after a cleanup by these hashes.
abbrev cleaned : List Key → Pool → Pool
cleaned hashes s =
    if leb 1 (length hashes) then persist_state (remove_all hashes s) else remove_all hashes s

cleaned-IsWellFormed :
    (hashes : List Key) (s : Pool) → IsWellFormed s → IsWellFormed (cleaned hashes s)
unfolding remove_all
cleaned-IsWellFormed [] s h = h
cleaned-IsWellFormed (hash ∷ hashes) s h = rw (nonempty (hash ∷ hashes) hash hashes refl) (
    persist_state-IsWellFormed (remove_all (hash ∷ hashes) s) (
      remove_all-IsTidy (hash ∷ hashes) s
        (record { lookup = h.lookup; distinct = h.distinct; within = h.within })))
  where
    nonempty : (all : List Key) (x : Key) (xs : List Key) → all ≡ x ∷ xs → leb 1 (length all) ≡ true
    nonempty all x xs e = ground (arith, e)

-- A cleanup keeps a pool well-formed, and answers with the number of expired entries and with the
-- number of entries that are left.
pub cleanup_expired-IsWellFormed :
    (now : ℕ) (s : Pool)
    → IsWellFormed s
    → let ((removed, remaining), s') = cleanup_expired now s in
      IsWellFormed s'
      × (removed ≡ length (hashes_of (keep (is_expired now) s.tx_queue)))
      × (remaining ≡ length s'.tx_queue)
unfolding cleanup_expired
cleanup_expired-IsWellFormed now s h =
    rw h.fresh (cleaned-IsWellFormed (hashes_of (keep (is_expired now) s.tx_queue)) s h, refl, refl)

-- The queue after a list of removals, and whether a list names an entry.
abbrev without : List Key → List Entry → List Entry
without [] es = es
without (hash ∷ hashes) es = without hashes (keep (λ e. not (has_hash hash e)) es)

abbrev is_named : List Key → Entry → Bool
is_named hashes e = any_of (λ hash. has_hash hash e) hashes

without-All :
    (P : Entry → Type 0) (hashes : List Key) (es : List Entry)
    → All P es
    → All P (without hashes es)
without-All P [] es h = h
without-All P (hash ∷ hashes) es h =
    without-All P hashes (keep (λ e. not (has_hash hash e)) es)
      (All-keep P (λ e. not (has_hash hash e)) es h)

All-zip :
    (P Q R : Entry → Type 0)
    → ((e : Entry) → P e → Q e → R e)
    → (es : List Entry) → All P es
    → All Q es
    → All R es
All-zip P Q R f [] p q = tt
All-zip P Q R f (e ∷ es) p q = (f e p.0 q.0, All-zip P Q R f es p.1 q.1)

without-unnamed :
    (hashes : List Key) (es : List Entry) → All (λ e. is_named hashes e ≡ false) (without hashes es)
without-unnamed [] [] = tt
without-unnamed [] (e ∷ es) = (refl, without-unnamed [] es)
without-unnamed (hash ∷ hashes) es =
    let rest = keep (λ e. not (has_hash hash e)) es in
    All-zip (λ e. not (has_hash hash e) ≡ true) (λ e. is_named hashes e ≡ false)
      (λ e. is_named (hash ∷ hashes) e ≡ false) (λ e p q. ground (arith, p, q))
      (without hashes rest)
      (without-All (λ e. not (has_hash hash e) ≡ true) hashes rest
        (keep-All (λ e. not (has_hash hash e)) es))
      (without-unnamed hashes rest)

abbrev IsNamedIf : (Entry → Bool) → List Entry → Entry → Type 0
IsNamedIf p es e = p e ≡ true → is_named (hashes_of (keep p es)) e ≡ true

named_later :
    (p : Entry → Bool) (x : Entry) (es : List Entry) (e : Entry)
    → IsNamedIf p es e
    → IsNamedIf p (x ∷ es) e
named_later p x es e h q = ground (arith, h q)

named_first : (p : Entry → Bool) (x : Entry) (es : List Entry) → IsNamedIf p (x ∷ es) x
named_first p x es q = ground (arith, q)

All-named : (p : Entry → Bool) (es : List Entry) → All (IsNamedIf p es) es
All-named p [] = tt
All-named p (x ∷ es) = (
  named_first p x es,
  All-zip (IsNamedIf p es) (IsNamedIf p es) (IsNamedIf p (x ∷ es)) (λ e h _. named_later p x es e h)
      es (All-named p es) (All-named p es),
)

not_passing :
    (p : Entry → Bool) (es : List Entry) (e : Entry)
    → IsNamedIf p es e
    → is_named (hashes_of (keep p es)) e ≡ false
    → p e ≡ false
not_passing p es e h q = elim (Bool-cases (p e)) [
  | inl passes ↦ cc (h passes, q)
  | inr fails ↦ fails
]

tx_queue-remove_all :
    (hashes : List Key) (s : Pool) → (remove_all hashes s).tx_queue ≡ without hashes s.tx_queue
unfolding remove_all remove_from_queue
tx_queue-remove_all [] s = refl
tx_queue-remove_all (hash ∷ hashes) s = tx_queue-remove_all hashes (remove_from_queue hash s)

tx_queue-cleaned :
    (hashes : List Key) (s : Pool) → (cleaned hashes s).tx_queue ≡ without hashes s.tx_queue
unfolding persist_state
tx_queue-cleaned hashes s = elim (Bool-cases (leb 1 (length hashes))) [
  | inl some_left ↦ rw some_left (tx_queue-remove_all hashes s)
  | inr none_left ↦ rw none_left (tx_queue-remove_all hashes s)
]

-- After a cleanup of a well-formed pool no entry is expired.
pub cleanup_expired-is_expired :
    (now : ℕ) (s : Pool)
    → IsWellFormed s
    → All (λ e. is_expired now e ≡ false) (cleanup_expired now s).1.tx_queue
unfolding cleanup_expired
cleanup_expired-is_expired now s h =
    let hashes = hashes_of (keep (is_expired now) s.tx_queue) in
    rw h.fresh (
      rw (tx_queue-cleaned hashes s) (
        All-zip (IsNamedIf (is_expired now) s.tx_queue) (λ e. is_named hashes e ≡ false)
          (λ e. is_expired now e ≡ false) (not_passing (is_expired now) s.tx_queue)
          (without hashes s.tx_queue)
          (without-All (IsNamedIf (is_expired now) s.tx_queue) hashes s.tx_queue
            (All-named (is_expired now) s.tx_queue))
          (without-unnamed hashes s.tx_queue)))
