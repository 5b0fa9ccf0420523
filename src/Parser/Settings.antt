-- ===== src/Parser/Settings.antt =====
-- A value that `_update_properties` sets is read back, and the other values stay.
use mathlib.Core.Path.{subst}
use pywings.Prelude.{
  ℕ, ◌+◌, ◌≡◌, ◌≢◌, refl, ap, sym, ◌∙◌, true, false, some, List, [], ◌∷◌, ◌++◌, All, Text, length,
  arith, Bool-cases, Option-cases, inl, inr, text_eq, text_eq_iff, if◌then◌else◌,
}
use pywings.Prelude.Strip.{IsTrimmed}
use pywings.Prelude.Dict
use pywings.Prelude.Dict.{Dict, lookup-insert, lookup-insert_self}
use pywings.Json.{Json, str, nil, cons, Fields, truthy}
use pywings.Json.Printed.{text_of}
use pywings.Result.{ok}
use pywings.Processes.Watch.{Regex}
use pywings.Parser.Values.{Replacement, replacement_of}
use pywings.Parser.Properties.{
  noted, index_from, line_at, set_line, current_value, matches_if_value, replace_line,
  replace_lines, join_lines, split_lines, update_properties, position_of,
}
use pywings.Parser.Lines.{
  IsLine, split_lines-join_lines, split_lines-IsLine, set_line-IsLine, append-IsLine, has_break,
}
use pywings.Parser.Restored.{
  value_in, IsKey, key_of-line, current_value-line, index_from-set_line, index_from-append,
  position-key, line_at-set_line, line_at-other, line_at-last, line_at-append,
}

-- From one list of lines to another, the key gets the value and the others keep theirs.
pub record HasSetting (k v : Text) (ls ms : List Text) : Type 0 where
  pub gets : value_in k ms ≡ some v
  pub others : (j : Text) → j ≢ k → value_in j ms ≡ value_in j ls

pub matches_if_value-unset :
    (re : Regex) (condition : Json) (current : Text)
    → truthy condition ≡ false
    → matches_if_value re condition current ≡ ok true
unfolding matches_if_value truthy
matches_if_value-unset re (str s) current h = ground arith
matches_if_value-unset re _ current h = ground arith

module _ (k v : Text) (key : IsKey k) (trimmed : IsTrimmed v) where
  abbrev line : Text
  line = k ++ (b'=' ∷ v)

  set_line-index :
      (i : ℕ) (ls : List Text)
      → Dict.lookup k (index_from 0 ls []) ≡ some i
      → index_from 0 (set_line i line ls) [] ≡ index_from 0 ls []
  set_line-index i ls h =
      index_from-set_line i 0 line ls [] (key_of-line k v key trimmed ∙ sym (position-key k i ls h))

  -- Two keys stand in two lines.
  apart :
      (j : Text) (i m : ℕ) (ls : List Text)
      → j ≢ k
      → Dict.lookup k (index_from 0 ls []) ≡ some i
      → Dict.lookup j (index_from 0 ls []) ≡ some m
      → m ≢ i
  apart j i m ls other h e same =
      other (cc (position-key j m ls e, position-key k i ls h, ap (λ a. line_at a ls) same))

  set_line-HasSetting :
      (i : ℕ) (ls : List Text)
      → Dict.lookup k (index_from 0 ls []) ≡ some i
      → HasSetting k v ls (set_line i line ls)
  unfolding value_in
  set_line-HasSetting i ls h = record {
    gets =
        rw (set_line-index i ls h, h, line_at-set_line i line ls (position-key k i ls h))
          (ap some (current_value-line k v key trimmed));
    others = λ j other. elim (Option-cases (Dict.lookup j (index_from 0 ls []))) [
      | inl e ↦ rw (set_line-index i ls h, e) refl
      | inr (m, e) ↦
          rw (set_line-index i ls h, e)
            (ap (λ l. some (current_value l))
              (line_at-other i m line ls (apart j i m ls other h e)))
    ];
  }

  append-index :
      (ls : List Text)
      → index_from 0 (ls ++ (line ∷ [])) [] ≡ Dict.insert k (length ls) (index_from 0 ls [])
  append-index ls =
      index_from-append 0 ls line []
      ∙ ap (λ o. noted (0 + length ls) o (index_from 0 ls [])) (key_of-line k v key trimmed)
      ∙ ap (λ m. Dict.insert k m (index_from 0 ls [])) (omega arith)

  different : (j : Text) → j ≢ k → text_eq k j ≡ false
  different j other = elim (Bool-cases (text_eq k j)) [
    | inl e ↦ absurd (other (sym ((text_eq_iff k j).0 e)))
    | inr e ↦ e
  ]

  append-HasSetting : (ls : List Text) → HasSetting k v ls (ls ++ (line ∷ []))
  unfolding value_in
  append-HasSetting ls = record {
    gets =
        rw
          (
            append-index ls,
            lookup-insert_self k (length ls) (index_from 0 ls []),
            line_at-last line ls,
          )
          (ap some (current_value-line k v key trimmed));
    others = λ j other.
        let found : Dict.lookup j (Dict.insert k (length ls) (index_from 0 ls []))
            ≡ Dict.lookup j (index_from 0 ls []) =
          lookup-insert k j (length ls) (index_from 0 ls [])
          ∙ ap (λ b. if b then some (length ls) else Dict.lookup j (index_from 0 ls []))
              (different j other) in
        elim (Option-cases (Dict.lookup j (index_from 0 ls []))) [
          | inl e ↦ rw (append-index ls, found, e) refl
          | inr (m, e) ↦
              rw (append-index ls, found, e)
                (ap (λ l. some (current_value l))
                  (line_at-append m line ls (position-key j m ls e)))
        ];
  }

  -- An unconditional replacement of the key by the value.
  abbrev pub setting_of : Json → Replacement
  setting_of condition = record { match = str k; if_value = condition; replace_with = v }

  replace_line-HasSetting :
      (re : Regex) (condition : Json) (ls : List Text)
      → truthy condition ≡ false
      → (ms : List Text) × (replace_line re (index_from 0 ls []) (setting_of condition) ls ≡ ok ms)
        × HasSetting k v ls ms
        × (IsLine line → All IsLine ls → All IsLine ms)
  unfolding replace_line position_of text_of
  replace_line-HasSetting re condition ls h =
      elim (Option-cases (Dict.lookup k (index_from 0 ls []))) [
        | inl e ↦ (
          ls ++ (line ∷ []),
          rw (e, h, replace_line, position_of) refl,
          append-HasSetting ls,
          append-IsLine line ls,
        )
        | inr (i, e) ↦ (
          set_line i line ls,
          rw
              (
                e,
                matches_if_value-unset re condition (current_value (line_at i ls)) h,
                replace_line,
                position_of,
              )
              refl,
          set_line-HasSetting i ls e,
          set_line-IsLine i line ls,
        )
      ]

  -- A replacement of `_update_properties` without a condition, with a key that is trimmed and has no `=`,
  -- no `#` and no end of a line in it, and a value that is trimmed and has no end of a line: it
  -- succeeds; of the file that it gives, the last line of the key has the value; and every other key has
  -- the value that it had in the old file, or none where it had none.
  pub update_properties-HasSetting :
      (re : Regex) (conf : Fields) (env : Dict Text) (content : Text) (raw condition : Json)
      → has_break line ≡ false
      → truthy condition ≡ false
      → replacement_of conf env raw ≡ ok (setting_of condition)
      → (out : Text) × (update_properties re conf env content (cons raw nil) ≡ ok out)
        × HasSetting k v (split_lines content) (split_lines out)
  unfolding update_properties replace_lines
  update_properties-HasSetting re conf env content raw condition whole h e =
      let (ms, f, set, lines) = replace_line-HasSetting re condition (split_lines content) h in
      (
        join_lines ms,
        rw (e, f, update_properties, replace_lines) refl,
        subst (HasSetting k v (split_lines content))
            (sym (split_lines-join_lines ms (lines whole (split_lines-IsLine content)))) set,
      )
