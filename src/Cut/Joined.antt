-- ===== src/Cut/Joined.antt =====
-- tools/cut.c: the fields of a line that are printed.
use qoot.Base.{
  ℕ, suc, ◌≡◌, ◌≢◌, refl, ap, sym, ◌∙◌, ◌⊎◌, inl, inr, Bool, true, false, List, [], ◌∷◌, ◌++◌,
  append-nil, append_assoc, Bytes, All, ne→==, eq→==, if◌then◌else◌, Bool-cases,
}
use qoot.Cut.{in_ranges, shown, cut_fields_line}

-- Fields with the delimiter between them.
abbrev pub joined : ℕ → List Bytes → Bytes
joined delim [] = []
joined delim (field ∷ []) = field
joined delim (field ∷ next ∷ later) = field ++ delim ∷ joined delim (next ∷ later)

-- The fields whose number, counted from `n` on, lies in a range.
unfoldable pub selected : List (ℕ × ℕ) → ℕ → List Bytes → List Bytes
selected ranges n [] = []
selected ranges n (field ∷ later) =
    let rest = selected ranges (suc n) later in if in_ranges n ranges then field ∷ rest else rest

abbrev pub Without : ℕ → Bytes → Type 0
Without delim = All (λ c. c ≢ delim)

-- What the loop prints for fields, where `first` says whether none has been printed.
unfoldable pub printed : ℕ → Bool → List Bytes → Bytes
printed delim first [] = []
printed delim first (field ∷ later) = shown delim first field ++ printed delim false later

printed-joined : (delim : ℕ) (fields : List Bytes) → printed delim true fields ≡ joined delim fields
unfolding printed shown
printed-joined delim [] = refl
printed-joined delim (field ∷ []) = append-nil field
printed-joined delim (field ∷ next ∷ later) =
    ap (λ (t : Bytes). field ++ delim ∷ t) (printed-joined delim (next ∷ later))

module _ (delim : ℕ) (ranges : List (ℕ × ℕ)) where
  -- The loop on the rest of a field.
  inside :
      (field start p : Bytes) (n : ℕ) (first : Bool)
      → Without delim field
      → cut_fields_line delim ranges (field ++ p) start n first
        ≡ cut_fields_line delim ranges p (start ++ field) n first
  unfolding cut_fields_line
  inside [] start p n first h =
      ap (λ (t : Bytes). cut_fields_line delim ranges p t n first) (sym (append-nil start))
  inside (c ∷ field) start p n first h = rw (ne→== c delim h.0) (
      inside field (start ++ c ∷ []) p n first h.1
      ∙ ap (λ (t : Bytes). cut_fields_line delim ranges p t n first)
          (append_assoc start (c ∷ []) field))

  -- A field and the end of the line.
  last_field :
      (field : Bytes) (n : ℕ) (first : Bool)
      → Without delim field
      → cut_fields_line delim ranges field [] n first
        ≡ printed delim first (selected ranges n (field ∷ []))
  unfolding cut_fields_line selected printed
  last_field field n first h =
      ap (λ (t : Bytes). cut_fields_line delim ranges t [] n first) (sym (append-nil field))
      ∙ inside field [] [] n first h
      ∙ at_end (Bool-cases (in_ranges n ranges))
    where
      at_end :
          in_ranges n ranges ≡ true ⊎ in_ranges n ranges ≡ false
          → cut_fields_line delim ranges [] field n first
            ≡ printed delim first (selected ranges n (field ∷ []))
      at_end (inl e) = rw e (sym (append-nil (shown delim first field)))
      at_end (inr e) = rw e refl

  each_field :
      (field : Bytes) (later : List Bytes) (n : ℕ) (first : Bool)
      → All (Without delim) (field ∷ later)
      → cut_fields_line delim ranges (joined delim (field ∷ later)) [] n first
        ≡ printed delim first (selected ranges n (field ∷ later))
  unfolding cut_fields_line selected printed
  each_field field [] n first h = last_field field n first h.0
  each_field field (next ∷ later) n first h =
      inside field [] (delim ∷ joined delim (next ∷ later)) n first h.0
      ∙ rw (eq→== delim delim refl)
          (at_delim (λ o. each_field next later (suc n) o h.1) (Bool-cases (in_ranges n ranges)))
    where
      at_delim :
          ((o : Bool)
            → cut_fields_line delim ranges (joined delim (next ∷ later)) [] (suc n) o
              ≡ printed delim o (selected ranges (suc n) (next ∷ later)))
          → in_ranges n ranges ≡ true ⊎ in_ranges n ranges ≡ false
          → (let rest =
                cut_fields_line delim ranges
                  (joined delim (next ∷ later))
                  []
                  (suc n)
                  (if in_ranges n ranges then false else first) in
              if in_ranges n ranges then shown delim first field ++ rest else rest)
            ≡ printed delim first (selected ranges n (field ∷ next ∷ later))
      at_delim ih (inl e) = rw e (ap (λ (t : Bytes). shown delim first field ++ t) (ih false))
      at_delim ih (inr e) = rw e (ih first)

  -- Of fields without the delimiter, put together with it, the loop prints those whose number lies in a
  -- range, in their order and with the delimiter between them.
  pub cut_fields_line-joined :
      (field : Bytes) (later : List Bytes)
      → All (Without delim) (field ∷ later)
      → cut_fields_line delim ranges (joined delim (field ∷ later)) [] 1 true
        ≡ joined delim (selected ranges 1 (field ∷ later))
  cut_fields_line-joined field later h =
      each_field field later 1 true h ∙ printed-joined delim (selected ranges 1 (field ∷ later))
