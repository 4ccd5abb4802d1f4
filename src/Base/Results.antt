-- ===== src/Base/Results.antt =====
-- How a call ends: it returns, returns an error with its text, or panics.
use Prim.Native.String.{String}
use mathlib.Core.Path.{◌≡◌, refl}
use mathlib.Core.Logic.{◌≢◌, ◌⊎◌, inl, inr}
use mathlib.Core.Option.{Option, none, some}

pub data Result {ℓ} (A : Type ℓ) : Type ℓ where
  panic : Result A
  err : String → Result A
  ok : A → Result A

infixl 5 ◌>>=◌
abbrev pub ◌>>=◌ {ℓ κ} : {X : Type ℓ} {Y : Type κ} → Result X → (X → Result Y) → Result Y
panic >>= rest = panic
err text >>= rest = err text
ok x >>= rest = rest x

-- A partial operation whose failure is a panic
abbrev pub or_panic {ℓ} : {A : Type ℓ} → Option A → Result A
or_panic none = panic
or_panic (some a) = ok a

-- A partial operation whose failure is an error
abbrev pub or_err {ℓ} : {A : Type ℓ} → Option A → String → Result A
or_err none e = err e
or_err (some a) e = ok a

pub Result-cases {ℓ} :
    {A : Type ℓ} (r : Result A)
    → ((a : A) × (r ≡ ok a)) ⊎ (((e : String) × (r ≡ err e)) ⊎ (r ≡ panic))
Result-cases (ok a) = inl (a, refl)
Result-cases (err e) = inr (inl (e, refl))
Result-cases panic = inr (inr refl)

-- A chain that returned, taken apart.
pub >>=-eq-ok {ℓ κ} :
    {X : Type ℓ} {Y : Type κ} (first : Result X) (rest : X → Result Y) {y : Y}
    → (first >>= rest) ≡ ok y
    → (x : X) × (first ≡ ok x) × (rest x ≡ ok y)
>>=-eq-ok panic rest e = cc
>>=-eq-ok (err text) rest e = cc
>>=-eq-ok (ok x) rest e = (x, refl, e)

-- A chain that panicked, taken apart.
pub >>=-eq-panic {ℓ κ} :
    {X : Type ℓ} {Y : Type κ} (first : Result X) (rest : X → Result Y)
    → (first >>= rest) ≡ panic
    → (first ≡ panic) ⊎ ((x : X) × (first ≡ ok x) × (rest x ≡ panic))
>>=-eq-panic panic rest e = inl refl
>>=-eq-panic (err text) rest e = cc
>>=-eq-panic (ok x) rest e = inr (x, refl, e)

pub ok-injective {ℓ} : {A : Type ℓ} {a b : A} → ok a ≡ ok b → a ≡ b
ok-injective e = cc

pub or_err-ok {ℓ} :
    {A : Type ℓ} (o : Option A) (text : String) (a : A) → or_err o text ≡ ok a → o ≡ some a
or_err-ok none text a e = absurd (cc)
or_err-ok (some b) text a e = cc

pub or_err-panic {ℓ} : {A : Type ℓ} (o : Option A) (text : String) → or_err o text ≢ panic
or_err-panic none text e = cc
or_err-panic (some b) text e = cc

pub or_panic-ok {ℓ} : {A : Type ℓ} (o : Option A) (a : A) → or_panic o ≡ ok a → o ≡ some a
or_panic-ok none a e = absurd (cc)
or_panic-ok (some b) a e = cc

pub or_panic-panic {ℓ} : {A : Type ℓ} (o : Option A) → or_panic o ≡ panic → o ≡ none
or_panic-panic none e = refl
or_panic-panic (some b) e = absurd (cc)

-- A chain returns or fails if its parts do.
pub >>=_returns {ℓ κ} :
    {X : Type ℓ} {Y : Type κ} (first : Result X) (rest : X → Result Y)
    → first ≢ panic
    → ((x : X) → first ≡ ok x → rest x ≢ panic)
    → (first >>= rest) ≢ panic
>>=_returns panic rest h k e = h refl
>>=_returns (err text) rest h k e = cc
>>=_returns (ok x) rest h k e = k x refl e

-- A chain of steps that have no errors has none.
pub >>=_no_err {ℓ κ} :
    {X : Type ℓ} {Y : Type κ} (first : Result X) (rest : X → Result Y)
    → ((m : String) → first ≢ err m)
    → ((x : X) (m : String) → rest x ≢ err m)
    → (m : String) → (first >>= rest) ≢ err m
>>=_no_err panic rest h k m e = cc
>>=_no_err (err text) rest h k m e = h text refl
>>=_no_err (ok x) rest h k m e = k x m e

-- A chain of which the rest panics.
pub >>=_panics {ℓ κ} :
    {X : Type ℓ} {Y : Type κ} (first : Result X) (rest : X → Result Y) (x : X)
    → first ≡ ok x
    → rest x ≡ panic
    → (first >>= rest) ≡ panic
>>=_panics first rest x e h = rw e h
