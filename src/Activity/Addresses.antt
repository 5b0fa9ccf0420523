-- ===== src/Activity/Addresses.antt =====
-- wings/activity.py: `_sanitize_ip`, the address of an event as `record` keeps it.
use pywings.Prelude.{
  ℕ, suc, ◌==◌, ◌≡◌, refl, inl, inr, Bool, true, false, ◌&&◌, Option, none, some, [], ◌∷◌, Text,
  lit, is_empty, has_char, starts_with, lstrip, strip, split, Bool-cases, if◌then◌else◌,
}
use pywings.Prelude.Strip.{IsTrimmed, strip_trimmed}

abbrev pub local_address : Text
local_address = lit "127.0.0.1"

-- s.count(c)
unfoldable pub count_char : ℕ → Text → ℕ
count_char c [] = 0
count_char c (d ∷ s) = let rest = count_char c s in if c == d then suc rest else rest

-- The address without its brackets or its port.
unfoldable pub bare_address : Text → Text
bare_address raw =
    if starts_with raw (lit "[") && has_char b']' raw
    then lstrip (λ c. c == b'[') (split b']' raw).0
    else if count_char b':' raw == 1
    then (split b':' raw).0
    else raw

-- `is_address` says that ipaddress.ip_address takes the text.
module _ (is_address : Text → Bool) where
  unfoldable pub checked : Text → Text
  checked raw = if is_address raw then raw else local_address

  unfoldable pub sanitize_ip : Option Text → Text
  sanitize_ip none = local_address
  sanitize_ip (some ip) = if is_empty ip then local_address else checked (bare_address (strip ip))

  checked-valid : (raw : Text) → is_address local_address ≡ true → is_address (checked raw) ≡ true
  unfolding checked
  checked-valid raw h = elim (Bool-cases (is_address raw)) [
    | inl e ↦ rw (e, checked) e
    | inr e ↦ rw (e, checked) h
  ]

  -- Whatever the address of an event was, the one that is kept is an address.
  pub sanitize_ip-valid :
      (ip : Option Text) → is_address local_address ≡ true → is_address (sanitize_ip ip) ≡ true
  unfolding sanitize_ip
  sanitize_ip-valid none h = h
  sanitize_ip-valid (some []) h = h
  sanitize_ip-valid (some (c ∷ s)) h = checked-valid (bare_address (strip (c ∷ s))) h

  -- An address that has no white space at its ends, no bracket in front and not just one colon, as
  -- those of version 4 and 6 have it, is kept as it is.
  pub sanitize_ip_fixed :
      (ip : Text)
      → is_empty ip ≡ false
      → is_address ip ≡ true
      → IsTrimmed ip
      → starts_with ip (lit "[") ≡ false
      → (count_char b':' ip == 1) ≡ false
      → sanitize_ip (some ip) ≡ ip
  unfolding sanitize_ip checked bare_address
  sanitize_ip_fixed ip e h t f g =
      rw (e, strip_trimmed ip t, f, g, h, sanitize_ip, checked, bare_address) refl
