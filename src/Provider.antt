-- ===== src/Provider.antt =====
-- What a storage provider promises (the abstract methods of
-- src/BachiCoin/lib_storage/base_provider.py): a map from keys to data, seen through the answers to a
-- sequence of calls.
pub mod Refined
use bachi_coin.Prelude.{Bool, true, false, Option, none, some, List, [], ◌∷◌, if◌then◌else◌}
use bachi_coin.Storage.{Text, same_text}

pub data Call {ℓ} (D : Type ℓ) : Type ℓ where
  save : Text → D → Call D
  load : Text → Call D
  delete : Text → Call D
  exists : Text → Call D
  update : Text → (D → D) → Call D

pub data Answer {ℓ} (D : Type ℓ) : Type ℓ where
  flag : Bool → Answer D
  found : Option D → Answer D

module _ {ℓ} {D : Type ℓ} where
  abbrev pub key_of : Call D → Text
  key_of (save k d) = k
  key_of (load k) = k
  key_of (delete k) = k
  key_of (exists k) = k
  key_of (update k change) = k

  abbrev pub is_some : Option D → Bool
  is_some none = false
  is_some (some _) = true

  -- The map with another value at a key.
  abbrev pub assign : Text → Option D → (Text → Option D) → Text → Option D
  assign k v m j = if same_text k j then v else m j

  abbrev pub change_found :
      Text → (D → D) → Option D → (Text → Option D) → Answer D × (Text → Option D)
  change_found k change none m = (found none, m)
  change_found k change (some d) m = (found (some (change d)), assign k (some (change d)) m)

  -- The promise of each method.
  unfoldable pub promised : Call D → (Text → Option D) → Answer D × (Text → Option D)
  promised (save k d) m = (flag true, assign k (some d) m)
  promised (load k) m = (found (m k), m)
  promised (delete k) m = (flag (is_some (m k)), assign k none m)
  promised (exists k) m = (flag (is_some (m k)), m)
  promised (update k change) m = change_found k change (m k) m

  -- The answers to a sequence of calls, by a provider with any state.
  abbrev pub answers {κ} :
      {S : Type κ} → (Call D → S → Answer D × S) → List (Call D) → S → List (Answer D)
  answers step [] s = []
  answers step (c ∷ calls) s = (step c s).0 ∷ answers step calls (step c s).1
