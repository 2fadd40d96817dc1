-- ===== src/Tests/Consensus.antt =====
-- A registry with one user, its duties, and votes on checkpoints.
use bachi_coin.Prelude.{ℕ, ◌*◌, ◌≤◌, ◌≡◌, refl, none, some, [], ◌∷◌, All, pos}
use bachi_coin.Dict.{Key, Dict, get}
use bachi_coin.Exec.{ok}
use bachi_coin.User.{User, UserStore}
use bachi_coin.Wallet.{Wallet, WalletType, WalletStore}
use bachi_coin.Validator.{Registry, WalletKeys, register_validator}
use bachi_coin.Validator.Registered.{
  IsRegistry, register_validator-IsRegistry, register_validator-again,
}
use bachi_coin.Attestor.{Duties, slots_per_epoch, list_at, assign_attestation_duties_for_epoch}
use bachi_coin.Attestor.Assigned.{epoch_ids, assign_attestation_duties_for_epoch-lists}
use bachi_coin.Finalizer.{
  Checkpoint, Finality, FinalityStatus, World, create_checkpoint_data, process_votes, justify,
}
use bachi_coin.Finalizer.Justified.{IsEntry, Finalizes, justify-Finalizes, process_votes-winner}

abbrev keys : WalletKeys
keys = record { extract_validator_pubkey = λ w. some 70; eoa_credentials = λ w. some 71 }

abbrev users : UserStore
users =
    let d : Dict User =
      (20, record { full_name = 60; wallet_ids = 10 ∷ []; total_balance = pos 0 }) ∷ [] in
    record { records = d; index = d }

abbrev wallet : Wallet
wallet = record {
  user_id = 20;
  name = 50;
  wallet_type = WalletType.default;
  status = 51;
  balance = pos 0;
  nonce = 0;
  addresses = [];
}

abbrev wallets : WalletStore
wallets = record { records = (10, wallet) ∷ []; index = (10, wallet) ∷ [] }

abbrev no_validators : Registry
no_validators = record {
  records = [];
  index = record { validators = []; by_pubkey = []; by_user = []; total_validators = 0 };
}

no_validators-IsRegistry : IsRegistry no_validators
no_validators-IsRegistry = record {
  same = λ i. refl;
  numbered = λ i v e. cc;
  by_user = λ uid i e. cc;
}

abbrev one_validator : Registry
one_validator = (register_validator keys 20 10 0 users wallets no_validators).1

register_validator-IsRegistry_example : IsRegistry one_validator
register_validator-IsRegistry_example =
    register_validator-IsRegistry keys 20 10 0 users wallets no_validators no_validators-IsRegistry

one_validator-IsRegistry : IsRegistry one_validator
one_validator-IsRegistry =
    register_validator-IsRegistry keys 20 10 0 users wallets no_validators no_validators-IsRegistry

registered : get 20 one_validator.index.by_user ≡ some 0
unfolding register_validator
registered = refl

registered_again :
    register_validator keys 20 10 0 users wallets one_validator ≡ (ok 0, one_validator)
registered_again =
    register_validator-again keys 20 10 0 users wallets one_validator 0 one_validator-IsRegistry
      registered

abbrev no_duties : Duties
no_duties = record {
  records = [];
  duties_by_epoch = [];
  duties_by_validator = [];
  total_duties_assigned = 0;
  last_assigned_epoch = none;
}

assign_attestation_duties_for_epoch-lists_example :
    ((assign_attestation_duties_for_epoch (0 ∷ 1 ∷ []) 3 no_duties).0
      ≡ ok (epoch_ids slots_per_epoch (3 * slots_per_epoch) (0 ∷ 1 ∷ [])))
    × (list_at 3 (assign_attestation_duties_for_epoch (0 ∷ 1 ∷ []) 3 no_duties).1.duties_by_epoch
        ≡ epoch_ids slots_per_epoch (3 * slots_per_epoch) (0 ∷ 1 ∷ []))
assign_attestation_duties_for_epoch-lists_example =
    assign_attestation_duties_for_epoch-lists 0 (1 ∷ []) 3 no_duties refl

abbrev finality0 : Finality
finality0 = record {
  checkpoints = (4, record { epoch = 4; root = 80; status = FinalityStatus.justified }) ∷ [];
  indexed = [];
  justified_epoch = some 4;
  finalized_epoch = none;
}

abbrev world0 : World
world0 = record {
  finality = finality0;
  blocks = record { records = []; index = []; chain_tip_hash = none; chain_height = none };
}

-- The justification of epoch 5 returns.
returns : (justify 81 5 world0).0 ≡ ok tt
unfolding justify
returns = refl

justify-Finalizes_example : Finalizes 81 5 (some 4) none (justify 81 5 world0)
justify-Finalizes_example = justify-Finalizes 81 5 world0

abbrev checkpoint5 : Checkpoint
checkpoint5 = create_checkpoint_data 5 81

wins : (process_votes (((82, 5), 10) ∷ ((81, 5), 90) ∷ []) 100 world0).0 ≡ ok (some checkpoint5)
unfolding process_votes
wins = refl

process_votes-winner_example :
    (v : (Key × ℕ) × ℕ) × (IsEntry v (((82, 5), 10) ∷ ((81, 5), 90) ∷ [])
      × (checkpoint5 ≡ create_checkpoint_data v.0.1 v.0.0)
      × (100 * 2 ≤ v.1 * 3)
      × All {A = (Key × ℕ) × ℕ} (λ u. u.1 ≤ v.1) (((82, 5), 10) ∷ ((81, 5), 90) ∷ []))
process_votes-winner_example =
    process_votes-winner (82, 5) 10 (((81, 5), 90) ∷ []) 100 world0 checkpoint5 wins
