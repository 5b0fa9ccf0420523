-- ===== src/Result.antt =====
-- The exceptions that the program's own code raises or lets through, as values.
use pywings.Prelude.{◌≡◌, refl, ◌⊎◌, inl, inr, Bool, true, false, Text}

pub data Error : Type 0 where
  value_error : Text → Error
  type_error attribute_error : Error
  os_error key_error : Error
  runtime_error filesystem_error permission_error : Text → Error

pub data Result {ℓ} (V : Type ℓ) : Type ℓ where
  err : Error → Result V
  ok : V → Result V

infixl 5 ◌>>=◌ ◌>>◌
abbrev pub ◌>>=◌ {ℓ κ} : {V : Type ℓ} {W : Type κ} (m : Result V) (k : V → Result W) → Result W
err x >>= k = err x
ok v >>= k = k v

abbrev pub ◌>>◌ {ℓ} : {W : Type ℓ} (m : Result (Unit {0})) (n : Result W) → Result W
m >> n = m >>= λ done. n

abbrev pub ensure : Bool → Error → Result (Unit {0})
ensure false x = err x
ensure true x = ok tt

-- A chain that succeeds has a first part that succeeds.
pub >>=-eq-ok {ℓ κ} :
    {V : Type ℓ} {W : Type κ} (m : Result V) (k : V → Result W) {w : W} (e : (m >>= k) ≡ ok w)
    → (v : V) × (m ≡ ok v) × (k v ≡ ok w)
>>=-eq-ok (err x) k e = cc
>>=-eq-ok (ok v) k e = (v, refl, e)

-- A property of the value of a result that is one.
unfoldable pub IfOk {ℓ κ} : {V : Type ℓ} → (V → Type κ) → Result V → Type κ
IfOk P (err x) = Unit
IfOk P (ok v) = P v

pub Result-cases {ℓ} :
    {V : Type ℓ} (r : Result V) → ((x : Error) × (r ≡ err x)) ⊎ ((v : V) × (r ≡ ok v))
Result-cases (err x) = inl (x, refl)
Result-cases (ok v) = inr (v, refl)
