-- ===== src/TxCheck/Shape.antt =====
-- Which transactions pass the rules for a single transaction.
use mathlib.Core.Path.{subst}
use bachi_coin.Prelude.{
  ℕ, ◌≤◌, ◌≡◌, ◌≢◌, refl, ◌↔◌, ◌⊎◌, Bool, true, Option, none, some, [], ◌∷◌, arith, pos, ◌≤ℤ◌, List,
  ◌++◌,
}
use bachi_coin.Dict.{Key}
use bachi_coin.Tx.{Tx, TxType}
use bachi_coin.TxCheck.{
  TxFormats, min_gas_limit, validate_structure_by_type, validate_transaction, TxError, after_enums,
  structure_errors, created, moved, signed, validate_gas_fees, validate_fields, validate_enums,
}

abbrev pub IsGiven : Option ℕ → Type 0
IsGiven none = ⊥
IsGiven (some _) = Unit

-- The fields that a transaction of each type has, and those that it does not have.
abbrev pub HasShape : TxType → Tx → Type 0
HasShape TxType.mint tx =
    (tx.from_address ≡ none) × IsGiven tx.to_address × (tx.nonce ≡ none) × (tx.signature ≡ none)
HasShape TxType.reward tx =
    (tx.from_address ≡ none) × IsGiven tx.to_address × (tx.nonce ≡ none) × (tx.signature ≡ none)
HasShape TxType.pool tx =
    (tx.from_address ≡ none) × IsGiven tx.to_address × (tx.nonce ≡ none) × (tx.signature ≡ none)
HasShape TxType.burn tx = IsGiven tx.from_address × (tx.to_address ≡ none) × IsGiven tx.nonce
HasShape TxType.slash tx =
    IsGiven tx.from_address × (tx.to_address ≡ none) × (tx.nonce ≡ none) × (tx.signature ≡ none)
HasShape TxType.transfer tx =
    IsGiven tx.from_address
    × IsGiven tx.to_address
    × IsGiven tx.nonce
    × IsGiven tx.signature
    × (tx.from_address ≢ tx.to_address)
HasShape TxType.stake tx =
    IsGiven tx.from_address × IsGiven tx.to_address × IsGiven tx.nonce × IsGiven tx.signature
HasShape TxType.unstake tx =
    IsGiven tx.from_address × IsGiven tx.to_address × IsGiven tx.nonce × IsGiven tx.signature
HasShape _ tx = IsGiven tx.from_address × IsGiven tx.nonce × IsGiven tx.signature

sound : (t : TxType) (tx : Tx) → structure_errors t tx ≡ [] → HasShape t tx
unfolding structure_errors created moved signed
sound TxType.mint tx e = ground arith
sound TxType.reward tx e = ground arith
sound TxType.pool tx e = ground arith
sound TxType.burn tx e = ground arith
sound TxType.slash tx e = ground arith
sound TxType.transfer tx e = ground arith
sound TxType.stake tx e = ground arith
sound TxType.unstake tx e = ground arith
sound TxType.contract_call tx e = ground arith
sound TxType.contract_deploy tx e = ground arith
sound TxType.governance tx e = ground arith
sound TxType.unknown tx e = ground arith

exact : (t : TxType) (tx : Tx) → HasShape t tx → structure_errors t tx ≡ []
unfolding structure_errors created moved signed
exact TxType.mint tx e = ground arith
exact TxType.reward tx e = ground arith
exact TxType.pool tx e = ground arith
exact TxType.burn tx e = ground arith
exact TxType.slash tx e = ground arith
exact TxType.transfer tx e = ground arith
exact TxType.stake tx e = ground arith
exact TxType.unstake tx e = ground arith
exact TxType.contract_call tx e = ground arith
exact TxType.contract_deploy tx e = ground arith
exact TxType.governance tx e = ground arith
exact TxType.unknown tx e = ground arith

validate_structure_by_type-HasShape :
    (tx : Tx) → (validate_structure_by_type tx ≡ []) ↔ HasShape tx.tx_type tx
unfolding validate_structure_by_type structure_errors created moved signed
validate_structure_by_type-HasShape tx = (sound tx.tx_type tx, exact tx.tx_type tx)

-- An address or a signature is missing, or has the format.
abbrev Fits : (Key → Bool) → Option Key → Type 0
Fits valid none = Unit
Fits valid (some k) = valid k ≡ true

-- What the rules for a single transaction ask of it.
pub record IsAcceptable (f : TxFormats) (tx : Tx) : Type 0 where
  pub known : tx.tx_type ≢ TxType.unknown
  pub shape : HasShape tx.tx_type tx
  pub pays : pos 1 ≤ℤ tx.max_fee_per_gas
  pub tips : pos 0 ≤ℤ tx.max_priority_fee_per_gas
  pub tip_below_max : tx.max_priority_fee_per_gas ≤ℤ tx.max_fee_per_gas
  pub has_gas : min_gas_limit ≤ tx.gas_limit
  pub has_amount : pos 0 ≤ℤ tx.amount
  pub hash_format : (tx.tx_hash ≡ 0) ⊎ (f.is_valid_tx_hash tx.tx_hash ≡ true)
  pub from_format : Fits f.is_valid_address tx.from_address
  pub to_format : Fits f.is_valid_address tx.to_address
  pub signature_format : Fits f.is_valid_signature tx.signature

append-nil {ℓ} : {A : Type ℓ} (xs ys : List A) → xs ++ ys ≡ [] → (xs ≡ []) × (ys ≡ [])
append-nil [] ys h = (refl, h)
append-nil (x ∷ xs) ys h = cc

known-enums : (t : TxType) → validate_enums t ≡ [] → t ≢ TxType.unknown
unfolding validate_enums
known-enums t e = ground arith

enums-known : (t : TxType) → t ≢ TxType.unknown → validate_enums t ≡ []
unfolding validate_enums
enums-known t h = ground arith

after_enums-nil :
    (f : TxFormats) (tx : Tx) (es : List TxError)
    → after_enums f tx es ≡ []
    → (es ≡ [])
      × (validate_structure_by_type tx ++ validate_gas_fees tx ++ validate_fields f tx ≡ [])
after_enums-nil f tx [] h = (refl, h)
after_enums-nil f tx (e ∷ es) h = cc

module _ (f : TxFormats) (tx : Tx) where
  IsAcceptable-of :
      tx.tx_type ≢ TxType.unknown
      → HasShape tx.tx_type tx
      → validate_gas_fees tx ≡ []
      → validate_fields f tx ≡ []
      → IsAcceptable f tx
  unfolding validate_gas_fees validate_fields
  IsAcceptable-of known shape fees fields = record {
    known = known;
    shape = shape;
    pays = ground arith;
    tips = ground arith;
    tip_below_max = ground arith;
    has_gas = ground arith;
    has_amount = ground arith;
    hash_format = ground arith;
    from_format = ground arith;
    to_format = ground arith;
    signature_format = ground arith;
  }

  gas_fees-nil : IsAcceptable f tx → validate_gas_fees tx ≡ []
  unfolding validate_gas_fees
  gas_fees-nil h = ground (arith, h.pays, h.tips, h.tip_below_max, h.has_gas)

  fields-nil : IsAcceptable f tx → validate_fields f tx ≡ []
  unfolding validate_fields
  fields-nil h = ground (
    arith, h.has_amount, h.hash_format, h.from_format, h.to_format, h.signature_format, h.has_gas,
    h.tips, h.pays,
  )

  -- The validation of a transaction finds no error exactly if its type is known, it has the fields
  -- of its type and no other, the addresses of a transfer differ, its fees, its gas limit and its
  -- amount are within their bounds, and its hash, addresses and signature have their formats.
  pub validate_transaction-IsAcceptable : (validate_transaction f tx ≡ []) ↔ IsAcceptable f tx
  unfolding validate_transaction
  validate_transaction-IsAcceptable = (
    λ e.
        let (enums, rest) = after_enums-nil f tx (validate_enums tx.tx_type) e in
        let (structure_and_fees, fields) =
          append-nil (validate_structure_by_type tx ++ validate_gas_fees tx) (validate_fields f tx)
            rest in
        let (structure, fees) =
          append-nil (validate_structure_by_type tx) (validate_gas_fees tx) structure_and_fees in
        IsAcceptable-of (known-enums tx.tx_type enums)
          ((validate_structure_by_type-HasShape tx).0 structure) fees fields,
    λ h.
        rw
          (
            enums-known tx.tx_type h.known,
            (validate_structure_by_type-HasShape tx).1 h.shape,
            gas_fees-nil h,
          )
          (fields-nil h),
  )

-- A transfer to its own sender never passes.
pub transfer_to_self :
    (f : TxFormats) (tx : Tx)
    → tx.tx_type ≡ TxType.transfer
    → tx.from_address ≡ tx.to_address
    → validate_transaction f tx ≢ []
transfer_to_self f tx t same e =
    let shape = ((validate_transaction-IsAcceptable f tx).0 e).shape in
    let fits : HasShape TxType.transfer tx = subst (λ type. HasShape type tx) t shape in fits.4 same
