-- ===== src/BlockCheck/Checks.antt =====
-- What the check of each field of a new block says.
use bachi_coin.Prelude.{
  ◌≡◌, ◌≢◌, refl, ◌↔◌, Bool, true, List, [], ◌∷◌, ◌++◌, arith, All, ◌==◌, Option, none, some, ◌⊎◌,
  ℤ, pos, ◌≤ℤ◌,
}
use bachi_coin.Dict.{Key}
use bachi_coin.Tx.{Tx}
use bachi_coin.Block.{BlockStatus}
use bachi_coin.BlockCheck.{
  hash_errors, error_if, Fields, BlockError, BlockType, NetworkType, ConsensusType, missing_if_none,
  check_format, check_block_type, check_network, check_status, check_consensus_type,
  check_stake_field, check_stake, check_difficulty, check_consensus, min_difficulty, max_difficulty,
  missing_slot, missing_epoch, missing_proposer_index, missing_tx_hash,
}

abbrev pub IsGiven {ℓ} : {A : Type ℓ} → Option A → Type 0
IsGiven none = ⊥
IsGiven (some _) = Unit

-- A text is missing, or has the format.
abbrev pub Fits : (Key → Bool) → Key → Type 0
Fits valid k = (k ≡ 0) ⊎ (valid k ≡ true)

abbrev pub IsNonneg : Option ℤ → Type 0
IsNonneg none = ⊥
IsNonneg (some n) = pos 0 ≤ℤ n

abbrev pub IsDifficulty : Option ℤ → Type 0
IsDifficulty none = Unit
IsDifficulty (some d) = (min_difficulty ≤ℤ d) × (d ≤ℤ max_difficulty)

-- What each kind of consensus asks of its fields.
abbrev pub HasConsensus : Option ConsensusType → Fields → Type 0
HasConsensus (some ConsensusType.proof_of_stake) b =
    IsNonneg b.slot × IsNonneg b.epoch × IsNonneg b.proposer_index
HasConsensus (some ConsensusType.proof_of_work) b = IsDifficulty b.difficulty
HasConsensus (some ConsensusType.hybrid) b = IsDifficulty b.difficulty
HasConsensus (some ConsensusType.other) b = ⊥
HasConsensus none b = ⊥

-- The enum fields have values of their enums; only the status may be missing.
pub record HasValues (b : Fields) : Type 0 where
  pub block_type_given : IsGiven b.block_type
  pub block_type_known : b.block_type ≢ some BlockType.other
  pub network_given : IsGiven b.network
  pub network_known : b.network ≢ some NetworkType.other
  pub status_known : b.status ≢ some BlockStatus.unknown

pub append-nil {ℓ} : {A : Type ℓ} (xs ys : List A) → xs ++ ys ≡ [] → (xs ≡ []) × (ys ≡ [])
append-nil [] ys h = (refl, h)
append-nil (x ∷ xs) ys h = cc

pub hashed-nil : (txs : List Tx) → All (λ tx. tx.tx_hash ≢ 0) txs → hash_errors txs ≡ []
hashed-nil [] h = refl
hashed-nil (tx ∷ txs) h = ground (arith, hashed-nil txs h.1, h.0)

pub nil-hashed : (txs : List Tx) → hash_errors txs ≡ [] → All (λ tx. tx.tx_hash ≢ 0) txs
nil-hashed [] h = tt
nil-hashed (tx ∷ txs) h =
    let (first, rest) =
      append-nil (error_if (tx.tx_hash == 0) missing_tx_hash) (hash_errors txs) h in
    (λ e. ground (arith, first, e), nil-hashed txs rest)

pub missing-IsGiven {ℓ} :
    {A : Type ℓ} (o : Option A) (e : BlockError) → (missing_if_none o e ≡ []) ↔ IsGiven o
missing-IsGiven none e = (λ h. cc, λ h. absurd h)
missing-IsGiven (some a) e = (λ h. tt, λ h. refl)

pub check_format-Fits :
    (valid : Key → Bool) (k : Key) (e : BlockError) → (check_format valid k e ≡ []) ↔ Fits valid k
unfolding check_format
check_format-Fits valid k e = ground arith

pub check_block_type-known :
    (o : Option BlockType) → (check_block_type o ≡ []) ↔ (o ≢ some BlockType.other)
unfolding check_block_type
check_block_type-known o = ground arith

pub check_network-known :
    (o : Option NetworkType) → (check_network o ≡ []) ↔ (o ≢ some NetworkType.other)
unfolding check_network
check_network-known o = ground arith

pub check_status-known :
    (o : Option BlockStatus) → (check_status o ≡ []) ↔ (o ≢ some BlockStatus.unknown)
unfolding check_status
check_status-known o = ground arith

pub check_stake_field-IsNonneg :
    (o : Option ℤ) (e : BlockError) → (check_stake_field o e ≡ []) ↔ IsNonneg o
unfolding check_stake_field
check_stake_field-IsNonneg o e = ground arith

pub check_difficulty-IsDifficulty : (o : Option ℤ) → (check_difficulty o ≡ []) ↔ IsDifficulty o
unfolding check_difficulty
check_difficulty-IsDifficulty o = ground arith

pub HasConsensus-IsGiven : (o : Option ConsensusType) (b : Fields) → HasConsensus o b → IsGiven o
HasConsensus-IsGiven none b h = absurd h
HasConsensus-IsGiven (some x) b h = tt

pub HasConsensus-known :
    (o : Option ConsensusType) (b : Fields) → HasConsensus o b → check_consensus_type o ≡ []
unfolding check_consensus_type
HasConsensus-known none b h = absurd h
HasConsensus-known (some ConsensusType.proof_of_stake) b h = refl
HasConsensus-known (some ConsensusType.proof_of_work) b h = refl
HasConsensus-known (some ConsensusType.hybrid) b h = refl
HasConsensus-known (some ConsensusType.other) b h = absurd h

-- The fields of proof of stake.
pub check_stake-IsNonneg :
    (b : Fields)
    → (check_stake b ≡ []) ↔ (IsNonneg b.slot × IsNonneg b.epoch × IsNonneg b.proposer_index)
unfolding check_stake
check_stake-IsNonneg b =
    let slot = check_stake_field-IsNonneg b.slot missing_slot in
    let epoch = check_stake_field-IsNonneg b.epoch missing_epoch in
    let proposer = check_stake_field-IsNonneg b.proposer_index missing_proposer_index in
    (
      λ h.
          let (r2, e2) =
            append-nil _ (check_stake_field b.proposer_index missing_proposer_index) h in
          let (e0, e1) =
            append-nil (check_stake_field b.slot missing_slot)
              (check_stake_field b.epoch missing_epoch) r2 in
          (slot.0 e0, epoch.0 e1, proposer.0 e2),
      λ h. rw (slot.1 h.0, epoch.1 h.1, proposer.1 h.2) refl,
    )

pub check_consensus-nil :
    (o : Option ConsensusType) (b : Fields) → HasConsensus o b → check_consensus o b ≡ []
unfolding check_consensus
check_consensus-nil none b h = absurd h
check_consensus-nil (some ConsensusType.proof_of_stake) b h = (check_stake-IsNonneg b).1 h
check_consensus-nil (some ConsensusType.proof_of_work) b h =
    (check_difficulty-IsDifficulty b.difficulty).1 h
check_consensus-nil (some ConsensusType.hybrid) b h =
    (check_difficulty-IsDifficulty b.difficulty).1 h
check_consensus-nil (some ConsensusType.other) b h = refl

pub check_consensus-HasConsensus :
    (o : Option ConsensusType) (b : Fields)
    → IsGiven o
    → check_consensus_type o ≡ []
    → check_consensus o b ≡ []
    → HasConsensus o b
unfolding check_consensus check_consensus_type
check_consensus-HasConsensus none b given known h = given
check_consensus-HasConsensus (some ConsensusType.proof_of_stake) b given known h =
    (check_stake-IsNonneg b).0 h
check_consensus-HasConsensus (some ConsensusType.proof_of_work) b given known h =
    (check_difficulty-IsDifficulty b.difficulty).0 h
check_consensus-HasConsensus (some ConsensusType.hybrid) b given known h =
    (check_difficulty-IsDifficulty b.difficulty).0 h
check_consensus-HasConsensus (some ConsensusType.other) b given known h = cc
