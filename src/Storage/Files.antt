-- ===== src/Storage/Files.antt =====
-- What the files hold after a call of the file provider.
use bachi_coin.Prelude.{
  ◌≡◌, refl, ap, true, false, Option, none, some, List, [], ◌∷◌, arith, if◌then◌else◌, Bool-cases,
  Option-cases, inl, inr, ◌⊎◌, ◌↔◌, ℕ, ◌==◌,
}
use bachi_coin.Storage.{
  Text, safe_char, same_text, get_file_path, read_file, replace_file, remove_file, save, load,
  exists, delete, update, update_loaded,
}

same_text_refl : (t : Text) → same_text t t ≡ true
same_text_refl [] = refl
same_text_refl (a ∷ t) = ground (arith, same_text_refl t)

same_text-eq : (s t : Text) → same_text s t ≡ true → s ≡ t
same_text-eq [] [] h = refl
same_text-eq (a ∷ s) (b ∷ t) h =
    let rest = same_text-eq s t (ground (arith, h)) in
    let first : a ≡ b = ground (arith, h) in cc (rest, first)
same_text-eq [] (b ∷ t) h = cc
same_text-eq (a ∷ s) [] h = cc

-- The codes of '/', '\' and '_'.
abbrev pub IsSlash : ℕ → Type 0
IsSlash c = (c ≡ 47) ⊎ ((c ≡ 92) ⊎ (c ≡ 95))

abbrev pub AreAlike : Text → Text → Type 0
AreAlike [] [] = Unit
AreAlike (a ∷ as') (b ∷ bs) = ((a ≡ b) ⊎ (IsSlash a × IsSlash b)) × AreAlike as' bs
AreAlike _ _ = ⊥

safe_char-alike :
    (a b : ℕ) → ((safe_char a == safe_char b) ≡ true) ↔ ((a ≡ b) ⊎ (IsSlash a × IsSlash b))
safe_char-alike a b = ground arith

-- Two keys have the same file exactly if they are alike.
same_file-AreAlike :
    (key other : Text)
    → (same_text (get_file_path key) (get_file_path other) ≡ true) ↔ AreAlike key other
unfolding get_file_path
same_file-AreAlike [] [] = (λ _. tt, λ _. refl)
same_file-AreAlike [] (b ∷ bs) = (λ h. cc, λ h. absurd h)
same_file-AreAlike (a ∷ as') [] = (λ h. cc, λ h. absurd h)
same_file-AreAlike (a ∷ as') (b ∷ bs) =
    let (from, to) = same_file-AreAlike as' bs in
    let (first, back) = safe_char-alike a b in
    (λ h. (first (ground (arith, h)), from (ground (arith, h))), λ h. rw (back h.0, to h.1) refl)

abbrev pub option_map {ℓ} : {D : Type ℓ} → (D → D) → Option D → Option D
option_map f none = none
option_map f (some d) = some (f d)

module _ {ℓ} {D : Type ℓ} where
  pub read_file-replace_file :
      (name other : Text) (d : D) (files : List (Text × D))
      → read_file other (replace_file name d files)
        ≡ (if same_text name other then some d else read_file other files)
  read_file-replace_file name other d [] = refl
  read_file-replace_file name other d ((n, e) ∷ files) = elim (Bool-cases (same_text n name)) [
    | inl here ↦ let same = same_text-eq n name here in rw (here, same) (ground (arith, same))
    | inr later ↦ elim (Bool-cases (same_text name other)) [
      | inl wanted ↦
          let q = ap (same_text n) (same_text-eq name other wanted) in
          ground (arith, read_file-replace_file name other d files, later, wanted, q)
      | inr unwanted ↦ ground (arith, read_file-replace_file name other d files, later, unwanted)
    ]
  ]

  pub read_file-remove_file :
      (name other : Text) (files : List (Text × D))
      → read_file other (remove_file name files)
        ≡ (if same_text name other then none else read_file other files)
  read_file-remove_file name other [] = ground arith
  read_file-remove_file name other ((n, e) ∷ files) = elim (Bool-cases (same_text n name)) [
    | inl here ↦
        let q = ap (λ t. same_text t other) (same_text-eq n name here) in
        ground (arith, read_file-remove_file name other files, here, q)
    | inr later ↦ elim (Bool-cases (same_text name other)) [
      | inl wanted ↦
          let q = ap (same_text n) (same_text-eq name other wanted) in
          ground (arith, read_file-remove_file name other files, later, wanted, q)
      | inr unwanted ↦ ground (arith, read_file-remove_file name other files, later, unwanted)
    ]
  ]

  -- After a save, a load reads the saved data if the two keys have the same file, and what it read
  -- before otherwise.
  pub load-save_file :
      (key other : Text) (d : D) (files : List (Text × D))
      → load other (save key d files).1
        ≡ (if same_text (get_file_path key) (get_file_path other) then some d else load other files)
  unfolding load save
  load-save_file key other d files =
      read_file-replace_file (get_file_path key) (get_file_path other) d files

  -- After a save, a load of a key of the same length that differs at most in having one of '/', '\'
  -- and '_' for another reads the saved data, and a load of any other key what it read before.
  pub load-save :
      (key other : Text) (d : D) (files : List (Text × D))
      → (AreAlike key other × (load other (save key d files).1 ≡ some d))
        ⊎ ((¬ AreAlike key other) × (load other (save key d files).1 ≡ load other files))
  load-save key other d files =
      let (from, to) = same_file-AreAlike key other in
      elim (Bool-cases (same_text (get_file_path key) (get_file_path other))) [
        | inl same ↦ inl (from same, rw (load-save_file key other d files, same) refl)
        | inr differ ↦ inr (
          λ h. let clash : false ≡ true = rw differ at (to h) in cc,
          rw (load-save_file key other d files, differ) refl,
        )
      ]

  -- After a delete, a load of any key reads nothing if the two keys have the same file, and what it
  -- read before otherwise.
  pub load-delete :
      (key other : Text) (files : List (Text × D))
      → load other (delete key files).1
        ≡ (if same_text (get_file_path key) (get_file_path other) then none else load other files)
  unfolding load delete exists
  load-delete key other files = elim (Option-cases (read_file (get_file_path key) files)) [
    | inl e ↦ elim (Bool-cases (same_text (get_file_path key) (get_file_path other))) [
      | inl same ↦
          let q =
            ap (λ t. read_file t files)
              (same_text-eq (get_file_path key) (get_file_path other) same) in
          ground (arith, e, same, q)
      | inr differ ↦ ground (arith, e, differ)
    ]
    | inr (d, e) ↦
        ground (arith, e, read_file-remove_file (get_file_path key) (get_file_path other) files)
  ]

  -- An update of a key with a file answers the changed data, and a load reads them afterwards; an
  -- update of a key without a file answers nothing and changes no file.
  pub load-update :
      (key : Text) (change : D → D) (files : List (Text × D))
      → let (answer, files') = update key change files in
        (answer ≡ option_map change (load key files)) × (load key files' ≡ answer)
  unfolding update update_loaded
  load-update key change files = elim (Option-cases (load key files)) [
    | inl e ↦ (ground (arith, e), ground (arith, e))
    | inr (d, e) ↦ (
      ground (arith, e),
      ground
          (arith, e, load-save_file key key (change d) files, same_text_refl (get_file_path key)),
    )
  ]
