-- ===== src/Signer.antt =====
-- The hash of a transaction and the check of its signature
-- (src/BachiCoin/lib_transaction/tx_signer.py). The JSON of the canonical fields, keccak and the
-- curve are third-party code behind `Crypto`.
use bachi_coin.Prelude.{ℕ, Bool, false, Option, none, some, ◌==◌, if◌then◌else◌, ℤ}
use bachi_coin.Dict.{Key}
use bachi_coin.Tx.{Tx, TxType}

-- The canonical fields that `Tx` has.
pub record CanonicalTx : Type 0 where
  pub amount : ℤ
  pub from_address : Option Key
  pub gas_limit : ℕ
  pub max_fee_per_gas : ℤ
  pub max_priority_fee_per_gas : ℤ
  pub nonce : Option ℕ
  pub to_address : Option Key
  pub tx_type : TxType

-- The hash of the canonical fields, the signature of a hash with a private key, the public key of a
-- hash and a signature, the address of a public key, and the lower case of a text.
pub record Crypto : Type 0 where
  pub hash_data : CanonicalTx → Key
  pub sign_message_recoverable : Key → Key → Key
  pub recover_public_key : Key → Key → Option Key
  pub public_key_to_address : Key → Key
  pub lower : Key → Key

-- `get_canonical_tx_data`
unfoldable pub get_canonical_tx_data : Tx → CanonicalTx
get_canonical_tx_data tx = record {
  amount = tx.amount;
  from_address = tx.from_address;
  gas_limit = tx.gas_limit;
  max_fee_per_gas = tx.max_fee_per_gas;
  max_priority_fee_per_gas = tx.max_priority_fee_per_gas;
  nonce = tx.nonce;
  to_address = tx.to_address;
  tx_type = tx.tx_type;
}

-- `create_canonical_tx_hash`
unfoldable pub create_canonical_tx_hash : Crypto → Tx → Key
create_canonical_tx_hash c tx = c.hash_data (get_canonical_tx_data tx)

-- A text that is missing or empty counts as none.
unfoldable pub truthy : Option Key → Option Key
truthy none = none
truthy (some k) = if k == 0 then none else some k

unfoldable pub is_recovered : Crypto → Key → Option Key → Bool
is_recovered c address none = false
is_recovered c address (some public_key) =
    c.lower (c.public_key_to_address public_key) == c.lower address

unfoldable pub verify_with : Crypto → Tx → Option Key → Option Key → Bool
verify_with c tx (some signature) (some address) =
    is_recovered c address (truthy (c.recover_public_key (create_canonical_tx_hash c tx) signature))
verify_with c tx _ _ = false

-- `verify_transaction_signature`
unfoldable pub verify_transaction_signature : Crypto → Tx → Bool
verify_transaction_signature c tx = verify_with c tx (truthy tx.signature) (truthy tx.from_address)
