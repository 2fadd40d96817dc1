-- ===== src/BlockCheck/Creatable.antt =====
-- Which blocks may be created.
use bachi_coin.Prelude.{
  ℕ, ◌+◌, ◌≤◌, ◌≡◌, ◌≢◌, refl, ◌↔◌, Bool, true, [], arith, length, All, not, ◌&&◌, ◌==◌, Option,
  some, inl, inr,
}
use bachi_coin.Dict.{Key}
use bachi_coin.Block.{BlockStatus}
use bachi_coin.Chain.{genesis_parent}
use bachi_coin.Fee.{min_base_fee}
use bachi_coin.BlockCheck.{
  min_gas_limit, max_gas_limit, max_timestamp_drift, oldest_timestamp, hash_errors, error_if,
  Fields, BlockType, NetworkType, missing_if_none, check_format, check_block_type, check_network,
  check_status, check_consensus_type, validate_consensus_fields, is_genesis, missing_parent_hash,
  missing_slot, missing_epoch, missing_proposer_index, missing_block_type, missing_network,
  missing_consensus_type, malformed_block_hash, malformed_parent_hash, malformed_state_root,
  malformed_transactions_root, malformed_receipts_root, malformed_mix_hash, height_of_genesis,
  parent_of_genesis, count_mismatch, validate_required_fields, validate_field_formats,
  validate_eip1559_gas_fields, validate_timestamp, validate_transaction_list,
  validate_block_height_sequence, validate_block_creation_requirements, validate_for_creation,
}
use bachi_coin.BlockCheck.Checks.{
  IsGiven, Fits, HasConsensus, HasValues, append-nil, hashed-nil, nil-hashed, missing-IsGiven,
  check_format-Fits, check_block_type-known, check_network-known, check_status-known,
  HasConsensus-IsGiven, HasConsensus-known, check_consensus-nil, check_consensus-HasConsensus,
}

-- What the rules ask of a new block.
pub record IsCreatable (valid : Key → Bool) (now : ℕ) (b : Fields) : Type 0 where
  pub hash_format : Fits valid b.block_hash
  pub state_format : Fits valid b.state_root
  pub transactions_format : Fits valid b.transactions_root
  pub receipts_format : Fits valid b.receipts_root
  pub mix_format : Fits valid b.mix_hash
  pub slot_given : IsGiven b.slot
  pub epoch_given : IsGiven b.epoch
  pub proposer_given : IsGiven b.proposer_index
  pub values : HasValues b
  pub consensus : HasConsensus b.consensus_type b
  pub has_parent : b.parent_hash ≢ 0
  pub parent_format : valid b.parent_hash ≡ true
  pub gas_fits : b.gas_used ≤ b.gas_limit
  pub fee_bound : min_base_fee ≤ b.base_fee_per_gas
  pub gas_above : min_gas_limit ≤ b.gas_limit
  pub gas_below : b.gas_limit ≤ max_gas_limit
  pub not_ahead : b.timestamp ≤ now + max_timestamp_drift
  pub not_old : b.height ≢ 0 → oldest_timestamp ≤ b.timestamp
  pub counted : length b.transactions ≡ b.transaction_count
  pub hashed : All (λ tx. tx.tx_hash ≢ 0) b.transactions
  pub first : b.height ≡ 0 → b.parent_hash ≡ genesis_parent
  pub genesis_height : b.block_type ≡ some BlockType.genesis → b.height ≡ 0

module _ (valid : Key → Bool) (now : ℕ) (b : Fields) where
  required-nil : IsCreatable valid now b → validate_required_fields b ≡ []
  unfolding validate_required_fields
  required-nil h =
      let parent : error_if (b.parent_hash == 0) missing_parent_hash ≡ [] =
        ground (arith, h.has_parent) in
      rw
        (
          parent,
          (missing-IsGiven b.slot missing_slot).1 h.slot_given,
          (missing-IsGiven b.epoch missing_epoch).1 h.epoch_given,
          (missing-IsGiven b.proposer_index missing_proposer_index).1 h.proposer_given,
          (missing-IsGiven b.block_type missing_block_type).1 h.values.block_type_given,
          (missing-IsGiven b.network missing_network).1 h.values.network_given,
          (missing-IsGiven b.consensus_type missing_consensus_type).1
              (HasConsensus-IsGiven b.consensus_type b h.consensus),
        )
        refl

  formats-nil : IsCreatable valid now b → validate_field_formats valid b ≡ []
  unfolding validate_field_formats
  formats-nil h =
      rw
        (
          (check_format-Fits valid b.block_hash malformed_block_hash).1 h.hash_format,
          (check_format-Fits valid b.parent_hash malformed_parent_hash).1 (inr h.parent_format),
          (check_format-Fits valid b.state_root malformed_state_root).1 h.state_format,
          (check_format-Fits valid b.transactions_root malformed_transactions_root).1
              h.transactions_format,
          (check_format-Fits valid b.receipts_root malformed_receipts_root).1 h.receipts_format,
          (check_format-Fits valid b.mix_hash malformed_mix_hash).1 h.mix_format,
          (check_block_type-known b.block_type).1 h.values.block_type_known,
          (check_network-known b.network).1 h.values.network_known,
          (check_status-known b.status).1 h.values.status_known,
          HasConsensus-known b.consensus_type b h.consensus,
        )
        refl

  consensus-nil : IsCreatable valid now b → validate_consensus_fields b ≡ []
  unfolding validate_consensus_fields
  consensus-nil h = check_consensus-nil b.consensus_type b h.consensus

  gas-nil : IsCreatable valid now b → validate_eip1559_gas_fields b ≡ []
  unfolding validate_eip1559_gas_fields
  gas-nil h = ground (arith, h.gas_fits, h.fee_bound, h.gas_above, h.gas_below)

  timestamp-nil : IsCreatable valid now b → validate_timestamp now b ≡ []
  unfolding validate_timestamp
  timestamp-nil h = ground (arith, h.not_ahead, h.not_old)

  list-nil : IsCreatable valid now b → validate_transaction_list b ≡ []
  unfolding validate_transaction_list
  list-nil h = ground (arith, h.counted, hashed-nil b.transactions h.hashed)

  height-nil : IsCreatable valid now b → validate_block_height_sequence b ≡ []
  unfolding validate_block_height_sequence
  height-nil h = ground (arith, h.first)

  creation-nil : IsCreatable valid now b → validate_block_creation_requirements b ≡ []
  unfolding validate_block_creation_requirements is_genesis
  creation-nil h =
      let given =
        (missing-IsGiven b.consensus_type missing_consensus_type).1
          (HasConsensus-IsGiven b.consensus_type b h.consensus) in
      rw given (ground (arith, h.has_parent, h.gas_above, h.fee_bound, h.genesis_height, h.first))

  creatable-nil : IsCreatable valid now b → validate_for_creation valid now b ≡ []
  unfolding validate_for_creation
  creatable-nil h =
      rw
        (
          required-nil h,
          formats-nil h,
          gas-nil h,
          consensus-nil h,
          timestamp-nil h,
          list-nil h,
          height-nil h,
        )
        (creation-nil h)

  -- What the checks of the single fields say.
  record Formatted : Type 0 where
    hash_format : Fits valid b.block_hash
    parent_format : Fits valid b.parent_hash
    state_format : Fits valid b.state_root
    transactions_format : Fits valid b.transactions_root
    receipts_format : Fits valid b.receipts_root
    mix_format : Fits valid b.mix_hash
    block_type_known : b.block_type ≢ some BlockType.other
    network_known : b.network ≢ some NetworkType.other
    status_known : b.status ≢ some BlockStatus.unknown
    consensus_known : check_consensus_type b.consensus_type ≡ []

  Formatted-of : validate_field_formats valid b ≡ [] → Formatted
  unfolding validate_field_formats
  Formatted-of h =
      let (r9, e9) = append-nil _ (check_consensus_type b.consensus_type) h in
      let (r8, e8) = append-nil _ (check_status b.status) r9 in
      let (r7, e7) = append-nil _ (check_network b.network) r8 in
      let (r6, e6) = append-nil _ (check_block_type b.block_type) r7 in
      let (r5, e5) = append-nil _ (check_format valid b.mix_hash malformed_mix_hash) r6 in
      let (r4, e4) = append-nil _ (check_format valid b.receipts_root malformed_receipts_root) r5 in
      let (r3, e3) =
        append-nil _ (check_format valid b.transactions_root malformed_transactions_root) r4 in
      let (r2, e2) = append-nil _ (check_format valid b.state_root malformed_state_root) r3 in
      let (e0, e1) =
        append-nil (check_format valid b.block_hash malformed_block_hash)
          (check_format valid b.parent_hash malformed_parent_hash) r2 in
      record {
        hash_format = (check_format-Fits valid b.block_hash malformed_block_hash).0 e0;
        parent_format = (check_format-Fits valid b.parent_hash malformed_parent_hash).0 e1;
        state_format = (check_format-Fits valid b.state_root malformed_state_root).0 e2;
        transactions_format =
            (check_format-Fits valid b.transactions_root malformed_transactions_root).0 e3;
        receipts_format = (check_format-Fits valid b.receipts_root malformed_receipts_root).0 e4;
        mix_format = (check_format-Fits valid b.mix_hash malformed_mix_hash).0 e5;
        block_type_known = (check_block_type-known b.block_type).0 e6;
        network_known = (check_network-known b.network).0 e7;
        status_known = (check_status-known b.status).0 e8;
        consensus_known = e9;
      }

  record Required : Type 0 where
    has_parent : b.parent_hash ≢ 0
    slot_given : IsGiven b.slot
    epoch_given : IsGiven b.epoch
    proposer_given : IsGiven b.proposer_index
    block_type_given : IsGiven b.block_type
    network_given : IsGiven b.network
    consensus_given : IsGiven b.consensus_type

  Required-of : validate_required_fields b ≡ [] → Required
  unfolding validate_required_fields
  Required-of h =
      let (r6, e6) = append-nil _ (missing_if_none b.consensus_type missing_consensus_type) h in
      let (r5, e5) = append-nil _ (missing_if_none b.network missing_network) r6 in
      let (r4, e4) = append-nil _ (missing_if_none b.block_type missing_block_type) r5 in
      let (r3, e3) = append-nil _ (missing_if_none b.proposer_index missing_proposer_index) r4 in
      let (r2, e2) = append-nil _ (missing_if_none b.epoch missing_epoch) r3 in
      let (e0, e1) =
        append-nil (error_if (b.parent_hash == 0) missing_parent_hash)
          (missing_if_none b.slot missing_slot) r2 in
      record {
        has_parent = λ e. ground (arith, e0, e);
        slot_given = (missing-IsGiven b.slot missing_slot).0 e1;
        epoch_given = (missing-IsGiven b.epoch missing_epoch).0 e2;
        proposer_given = (missing-IsGiven b.proposer_index missing_proposer_index).0 e3;
        block_type_given = (missing-IsGiven b.block_type missing_block_type).0 e4;
        network_given = (missing-IsGiven b.network missing_network).0 e5;
        consensus_given = (missing-IsGiven b.consensus_type missing_consensus_type).0 e6;
      }

  -- A genesis block that needs nothing more is at height 0.
  genesis-height :
      (o : Option BlockType)
      → error_if (is_genesis o && not (b.height == 0)) height_of_genesis ≡ []
      → o ≡ some BlockType.genesis
      → b.height ≡ 0
  unfolding is_genesis
  genesis-height o h e = ground (arith, h, e)

  creation-height :
      validate_block_creation_requirements b ≡ []
      → b.block_type ≡ some BlockType.genesis
      → b.height ≡ 0
  unfolding validate_block_creation_requirements
  creation-height h =
      let (r, _) =
        append-nil _
          (error_if (is_genesis b.block_type && not (b.parent_hash == genesis_parent))
            parent_of_genesis)
          h in
      let (_, height) =
        append-nil _ (error_if (is_genesis b.block_type && not (b.height == 0)) height_of_genesis)
          r in
      genesis-height b.block_type height

  IsCreatable-of :
      Required
      → Formatted
      → validate_eip1559_gas_fields b ≡ []
      → validate_consensus_fields b ≡ []
      → validate_timestamp now b ≡ []
      → validate_transaction_list b ≡ []
      → validate_block_height_sequence b ≡ []
      → validate_block_creation_requirements b ≡ []
      → IsCreatable valid now b
  unfolding validate_eip1559_gas_fields validate_consensus_fields validate_timestamp
      validate_transaction_list validate_block_height_sequence
  IsCreatable-of required formats gas consensus time txs height creation =
      let (counted, hashes) =
        append-nil (error_if (not (length b.transactions == b.transaction_count)) count_mismatch)
          (hash_errors b.transactions) txs in
      record {
        hash_format = formats.hash_format;
        state_format = formats.state_format;
        transactions_format = formats.transactions_format;
        receipts_format = formats.receipts_format;
        mix_format = formats.mix_format;
        slot_given = required.slot_given;
        epoch_given = required.epoch_given;
        proposer_given = required.proposer_given;
        values = record {
          block_type_given = required.block_type_given;
          block_type_known = formats.block_type_known;
          network_given = required.network_given;
          network_known = formats.network_known;
          status_known = formats.status_known;
        };
        consensus =
            check_consensus-HasConsensus b.consensus_type b required.consensus_given
              formats.consensus_known consensus;
        has_parent = required.has_parent;
        parent_format = elim formats.parent_format [
          | inl missing ↦ absurd (required.has_parent missing)
          | inr formed ↦ formed
        ];
        gas_fits = ground (arith, gas);
        fee_bound = ground (arith, gas);
        gas_above = ground (arith, gas);
        gas_below = ground (arith, gas);
        not_ahead = ground (arith, time);
        not_old = λ e. ground (arith, time, e);
        counted = ground (arith, counted);
        hashed = nil-hashed b.transactions hashes;
        first = λ e. ground (arith, height, e);
        genesis_height = creation-height creation;
      }

  nil-IsCreatable : validate_for_creation valid now b ≡ [] → IsCreatable valid now b
  unfolding validate_for_creation
  nil-IsCreatable h =
      let (h6, creation) = append-nil _ (validate_block_creation_requirements b) h in
      let (h5, height) = append-nil _ (validate_block_height_sequence b) h6 in
      let (h4, txs) = append-nil _ (validate_transaction_list b) h5 in
      let (h3, time) = append-nil _ (validate_timestamp now b) h4 in
      let (h3', consensus) = append-nil _ (validate_consensus_fields b) h3 in
      let (h2, gas) = append-nil _ (validate_eip1559_gas_fields b) h3' in
      let (required, formats) =
        append-nil (validate_required_fields b) (validate_field_formats valid b) h2 in
      IsCreatable-of (Required-of required) (Formatted-of formats) gas consensus time txs height
        creation

  -- The validation of a new block finds no error exactly if the block names a parent, its hashes
  -- and roots are missing or have their format, its slot, epoch, proposer, type and network are
  -- there, its type, network, status and kind of consensus are values of their enums, the fields of
  -- that kind of consensus are within their bounds, its gas fits its limit, the limit and the base
  -- fee are within their bounds, its time is not too far ahead and, above height 0, not too old, its
  -- transactions are counted and have hashes, at height 0 it has the parent of genesis, and as a
  -- genesis block it is at height 0.
  pub validate_for_creation-IsCreatable :
      (validate_for_creation valid now b ≡ []) ↔ IsCreatable valid now b
  validate_for_creation-IsCreatable = (nil-IsCreatable, creatable-nil)
