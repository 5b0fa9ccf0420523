-- ===== src/Sftp/Handles.antt =====
-- wings/sftp.py: `PteroSFTPHandle`, reads and writes at an offset of an open file.
use mathlib.Core.List.{append_assoc}
use pywings.Prelude.{
  ℕ, zero, suc, ◌+◌, ◌≡◌, refl, ap, sym, ◌∙◌, List, [], ◌∷◌, ◌++◌, length, take, drop, arith,
  length-append,
}

-- file_obj.seek(offset) and file_obj.read(length)
unfoldable pub read : ℕ → ℕ → List ℕ → List ℕ
read offset size content = take size (drop offset content)

-- The content up to an offset, with zeros where it is shorter.
unfoldable pub padded : ℕ → List ℕ → List ℕ
padded zero content = []
padded (suc n) [] = 0 ∷ padded n []
padded (suc n) (c ∷ content) = c ∷ padded n content

-- file_obj.seek(offset) and file_obj.write(bytes)
unfoldable pub write : ℕ → List ℕ → List ℕ → List ℕ
write offset [] content = content
write offset (b ∷ bytes) content =
    padded offset content ++ ((b ∷ bytes) ++ drop (offset + length (b ∷ bytes)) content)

length-padded : (n : ℕ) (content : List ℕ) → length (padded n content) ≡ n
unfolding padded
length-padded zero content = refl
length-padded (suc n) [] = omega (arith, length-padded n [])
length-padded (suc n) (c ∷ content) = omega (arith, length-padded n content)

drop-prefix : (n : ℕ) (a s : List ℕ) → length a ≡ n → drop n (a ++ s) ≡ s
drop-prefix zero [] s h = refl
drop-prefix zero (c ∷ a) s h = absurd (omega (arith, h))
drop-prefix (suc n) [] s h = absurd (omega (arith, h))
drop-prefix (suc n) (c ∷ a) s h = drop-prefix n a s (omega (arith, h))

take-prefix : (n : ℕ) (a s : List ℕ) → length a ≡ n → take n (a ++ s) ≡ a
take-prefix zero [] s h = refl
take-prefix zero (c ∷ a) s h = absurd (omega (arith, h))
take-prefix (suc n) [] s h = absurd (omega (arith, h))
take-prefix (suc n) (c ∷ a) s h = ap (λ t. c ∷ t) (take-prefix n a s (omega (arith, h)))

-- What a write of some bytes does: a read at the offset gives them back; before the offset the file has
-- its old bytes, then zeros up to the offset where it was shorter; and behind the bytes it is as it was.
pub read-write :
    (offset b : ℕ) (bytes content : List ℕ)
    → let written = write offset (b ∷ bytes) content in
      (read offset (length (b ∷ bytes)) written ≡ b ∷ bytes)
      × (take offset written ≡ padded offset content)
      × (drop (offset + length (b ∷ bytes)) written ≡ drop (offset + length (b ∷ bytes)) content)
unfolding read write
read-write offset b bytes content =
    let front = padded offset content in
    let behind = drop (offset + length (b ∷ bytes)) content in
    let size = length-padded offset content in
    (
      ap (take (length (b ∷ bytes))) (drop-prefix offset front ((b ∷ bytes) ++ behind) size)
          ∙ take-prefix (length (b ∷ bytes)) (b ∷ bytes) behind refl,
      take-prefix offset front ((b ∷ bytes) ++ behind) size,
      ap (drop (offset + length (b ∷ bytes))) (sym (append_assoc front (b ∷ bytes) behind))
          ∙ drop-prefix (offset + length (b ∷ bytes)) (front ++ (b ∷ bytes)) behind
              (omega (arith, size, length-append front (b ∷ bytes))),
    )
