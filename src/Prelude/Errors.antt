-- ===== src/Prelude/Errors.antt =====
-- Go's `(T, error)`. An error is its format string; the arguments of the format are left out.
use Prim.Native.String.{String}
use mathlib.Core.Path.{◌≡◌, refl, ap, subst}
use a4s.Prelude.Tests.{if◌then◌else◌}
use mathlib.Core.Bool.{Bool, true, false}
use mathlib.Core.Logic.{◌≢◌, ◌⊎◌, inl, inr}
use mathlib.Core.Option.{Option, none, some}

pub data Result {ℓ} (A : Type ℓ) : Type ℓ where
  ok : A → Result A
  err : String → Result A

-- `if !test { return fmt.Errorf(message) }`
unfoldable pub require : Bool → String → Result (Unit {0})
require true e = ok tt
require false e = err e

-- `if test { return fmt.Errorf(message) }`
unfoldable pub refuse : Bool → String → Result (Unit {0})
refuse true e = err e
refuse false e = ok tt

-- `x, found := ...; if !found { return fmt.Errorf(message) }`
unfoldable pub or_fail {ℓ} : {A : Type ℓ} → Option A → String → Result A
or_fail none e = err e
or_fail (some a) e = ok a

infixl 5 ◌>>=◌ ◌>>◌
-- Opening this opens `require`, `refuse` and `or_fail` too.
unfoldable pub ◌>>=◌ {ℓ κ} :
    {A : Type ℓ} {B : Type κ} (r : Result A) (next : A → Result B) → Result B
unfolding require refuse or_fail
err message >>= next = err message
ok value >>= next = next value

abbrev pub ◌>>◌ {ℓ} : {B : Type ℓ} → Result (Unit {0}) → Result B → Result B
m >> k = m >>= λ _. k

pub require-eq-ok : (b : Bool) (m : String) {u : Unit {0}} → require b m ≡ ok u → b ≡ true
unfolding require
require-eq-ok true m h = refl
require-eq-ok false m h = cc

pub refuse-eq-ok : (b : Bool) (m : String) {u : Unit {0}} → refuse b m ≡ ok u → b ≡ false
unfolding refuse
refuse-eq-ok true m h = cc
refuse-eq-ok false m h = refl

-- A chain that succeeds succeeds at its first step.
pub >>=-eq-ok {ℓ κ} :
    {B : Type κ} {A : Type ℓ} {b : B} (r : Result A) (next : A → Result B)
    → (r >>= next) ≡ ok b
    → (value : A) × (r ≡ ok value) × (next value ≡ ok b)
unfolding ◌>>=◌
>>=-eq-ok (err message) next e = cc
>>=-eq-ok (ok value) next e = (value, refl, e)

pub ok-injective {ℓ} : {A : Type ℓ} {a b : A} → ok a ≡ ok b → a ≡ b
ok-injective e = cc

pub err_ok {ℓ} : {A : Type ℓ} {message : String} {a : A} → err message ≢ ok a
err_ok e = cc

-- What holds of the value, if there is one. One rule for each way to build a result.
pub data Ensures {ℓ κ} {A : Type ℓ} (P : A → Type κ) : Result A → Type (ℓ ⊔ κ) where
  done : {a : A} → P a → Ensures P (ok a)
  failed : {e : String} → Ensures P (err e)

module _ {ℓ κ} {A : Type ℓ} {P : A → Type κ} where
  pub Ensures-ok : {r : Result A} {a : A} → Ensures P r → r ≡ ok a → P a
  Ensures-ok {a = a} (done {a = b} p) e = subst P (ok-injective e) p
  Ensures-ok failed e = cc

  pub result-Ensures : (r : Result A) → ((a : A) → r ≡ ok a → P a) → Ensures P r
  result-Ensures (ok a) h = done (h a refl)
  result-Ensures (err e) h = failed

  pub require-Ensures :
      (b : Bool) (m : String) (k : Result A)
      → (b ≡ true → Ensures P k)
      → Ensures P (require b m >> k)
  unfolding ◌>>=◌
  require-Ensures true m k h = h refl
  require-Ensures false m k h = failed

  pub refuse-Ensures :
      (b : Bool) (m : String) (k : Result A)
      → (b ≡ false → Ensures P k)
      → Ensures P (refuse b m >> k)
  unfolding ◌>>=◌
  refuse-Ensures true m k h = failed
  refuse-Ensures false m k h = h refl

  pub or_fail-Ensures {η} :
      {B : Type η} (o : Option B) (m : String) (f : B → Result A)
      → ((b : B) → o ≡ some b → Ensures P (f b))
      → Ensures P (or_fail o m >>= f)
  unfolding ◌>>=◌
  or_fail-Ensures none m f h = failed
  or_fail-Ensures (some b) m f h = h b refl

  pub bind-Ensures {η} :
      {B : Type η} (r : Result B) (f : B → Result A)
      → ((b : B) → r ≡ ok b → Ensures P (f b))
      → Ensures P (r >>= f)
  unfolding ◌>>=◌
  bind-Ensures (ok b) f h = h b refl
  bind-Ensures (err e) f h = failed

  pub if-Ensures :
      (b : Bool) (r s : Result A)
      → (b ≡ true → Ensures P r)
      → (b ≡ false → Ensures P s)
      → Ensures P (if b then r else s)
  if-Ensures true r s hr hs = hr refl
  if-Ensures false r s hr hs = hs refl

pub Result-cases {ℓ} :
    {A : Type ℓ} (r : Result A) → ((e : String) × (r ≡ err e)) ⊎ ((a : A) × (r ≡ ok a))
Result-cases (ok a) = inr (a, refl)
Result-cases (err e) = inl (e, refl)

-- A step that succeeds goes on with its value.
pub bind-ok {ℓ κ} :
    {A : Type ℓ} {B : Type κ} (r : Result A) (next : A → Result B) {a : A}
    → r ≡ ok a
    → (r >>= next) ≡ next a
unfolding ◌>>=◌
bind-ok (ok b) next h = ap next (ok-injective h)
bind-ok (err e) next h = cc
