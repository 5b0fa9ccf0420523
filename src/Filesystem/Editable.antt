-- ===== src/Filesystem/Editable.antt =====
-- wings/filesystem.py: which files `detect_mime` gives the type of a text that can be edited.
use pywings.Prelude.{
  ℕ, ◌≡◌, refl, ◌⊎◌, inl, inr, Bool, true, false, not, ◌&&◌, ◌||◌, Option, some, List, [], ◌∷◌,
  take, Text, lit, text_eq, has_char, lower, Bool-cases, All, if◌then◌else◌,
}
use pywings.Filesystem.{Disk, file, node_at}
use pywings.Filesystem.Paths.{FilePath}
use pywings.Filesystem.Copying.{name_of, stem_suffix}
use pywings.Filesystem.Mime.{
  among, text_extensions, special_text_files, binary_extensions, text_plain, text_type, text_types,
  guessed, sample_type, file_type, detect_mime,
}

abbrev pub editable_types : List Text
editable_types =
    text_plain
    ∷ lit "application/x-yaml"
    ∷ lit "application/json"
    ∷ lit "text/html"
    ∷ lit "application/xml"
    ∷ lit "application/x-sh"
    ∷ lit "application/javascript"
    ∷ lit "application/typescript"
    ∷ lit "text/css"
    ∷ []

pub record IsEditable (mime : Text) : Type 0 where
  pub listed : among editable_types mime ≡ true

-- The name is that of a text.
abbrev pub is_text_name : Text → Bool
is_text_name name =
    among special_text_files (lower name) || among text_extensions (lower (stem_suffix name).1)

-- The name is that of a text, or the name is not that of a binary and the first bytes have no zero.
abbrev pub is_text : Text → List ℕ → Bool
is_text name content =
    is_text_name name
    || (not (among binary_extensions (lower (stem_suffix name).1))
        && not (has_char 0 (take 1024 content)))

choice-IsEditable :
    (b : Bool) (x y : Text) → IsEditable x → IsEditable y → IsEditable (if b then x else y)
choice-IsEditable true x y h k = h
choice-IsEditable false x y h k = k

text_plain-IsEditable : IsEditable text_plain
unfolding among text_eq
text_plain-IsEditable = record { listed = refl }

text_type-IsEditable :
    (table : List (List Text × Text))
    → All (λ (suffixes, mime). IsEditable mime) table
    → (suffix : Text) → IsEditable (text_type table suffix)
unfolding text_type
text_type-IsEditable [] tt suffix = text_plain-IsEditable
text_type-IsEditable ((suffixes, mime) ∷ rest) (h, hs) suffix =
    choice-IsEditable (among suffixes suffix) mime (text_type rest suffix) h
      (text_type-IsEditable rest hs suffix)

text_types-IsEditable : All (λ (suffixes, mime). IsEditable mime) text_types
unfolding among text_eq
text_types-IsEditable = (
  record { listed = refl },
  (
    record { listed = refl },
    (
      record { listed = refl },
      (
        record { listed = refl },
        (
          record { listed = refl },
          (record { listed = refl }, (record { listed = refl }, (record { listed = refl }, tt))),
        ),
      ),
    ),
  ),
)

module _ (guess_type : Text → Option Text) where
  abbrev pub Verdict : Text → List ℕ → Text → Type 0
  Verdict name content mime =
      ((is_text name content ≡ true) × IsEditable mime)
      ⊎ ((is_text name content ≡ false) × (mime ≡ guessed guess_type name))

  sample_type-cases :
      (name : Text) (sample : List ℕ)
      → ((has_char 0 sample ≡ false) × IsEditable (sample_type guess_type name sample))
        ⊎ ((has_char 0 sample ≡ true)
            × (sample_type guess_type name sample ≡ guessed guess_type name))
  unfolding sample_type has_char
  sample_type-cases name [] = inl (refl, text_plain-IsEditable)
  sample_type-cases name (c ∷ s) = elim (Bool-cases (has_char 0 (c ∷ s))) [
    | inl e ↦ inr (e, rw (e) refl)
    | inr e ↦ inl (e, rw (e) text_plain-IsEditable)
  ]

  file_type-Verdict :
      (name : Text) (content : List ℕ) → Verdict name content (file_type guess_type name content)
  unfolding file_type
  file_type-Verdict name content = elim (Bool-cases (among special_text_files (lower name))) [
    | inl e ↦ rw (e, file_type) (inl (refl, text_plain-IsEditable))
    | inr e ↦ elim (Bool-cases (among text_extensions (lower (stem_suffix name).1))) [
      | inl f ↦
          rw (e, f, file_type) (inl (refl, text_type-IsEditable text_types text_types-IsEditable _))
      | inr f ↦ elim (Bool-cases (among binary_extensions (lower (stem_suffix name).1))) [
        | inl g ↦ rw (e, f, g, file_type) (inr (refl, refl))
        | inr g ↦ elim (sample_type-cases name (take 1024 content)) [
          | inl (h, t) ↦ rw (e, f, g, h, file_type) (inl (refl, t))
          | inr (h, t) ↦ rw (e, f, g, h, file_type) (inr (refl, t))
        ]
      ]
    ]
  ]

  -- A file whose name is that of a text (a special name or an extension of texts, in lower case), or
  -- whose name has no extension of binaries and whose first 1024 bytes have no zero, gets one of the
  -- types of texts; every other file gets the type that is guessed from its name, or octet-stream.
  pub detect_mime-Verdict :
      (target : FilePath) (content : List ℕ) (d : Disk)
      → node_at target d ≡ some (file content)
      → Verdict (name_of target) content (detect_mime guess_type target d)
  unfolding detect_mime
  detect_mime-Verdict target content d e =
      rw (e, detect_mime) (file_type-Verdict (name_of target) content)
