-- ===== src/Common/Calls.antt =====
-- What a Rust call does: it returns a value, returns an error, or panics (an index or a range out
-- of bounds). `do` stops at the first error or panic, as `?` does.
use mathlib.Core.Path.{◌≡◌, refl}
use mathlib.Core.Logic.{◌≢◌}
use mathlib.Core.Bool.{Bool, true, false}
use meshquill.Common.Tests.{if◌then◌else◌}

pub data Outcome {ℓ} (E : Type 0) (A : Type ℓ) : Type ℓ where
  ok : A → Outcome E A
  err : E → Outcome E A
  panic : Outcome E A

infixl 5 ◌>>=◌ ◌>>◌
abbrev pub ◌>>=◌ {ℓ κ} :
    {E : Type 0} {A : Type ℓ} {B : Type κ} → Outcome E A → (A → Outcome E B) → Outcome E B
ok a >>= f = f a
err e >>= f = err e
panic >>= f = panic

abbrev pub ◌>>◌ {ℓ} : {E : Type 0} {B : Type ℓ} → Outcome E (Unit {0}) → Outcome E B → Outcome E B
m >> k = m >>= λ _. k

-- `if failing { return Err(e) }`.
abbrev pub reject_if : {E : Type 0} → Bool → E → Outcome E (Unit {0})
reject_if true e = err e
reject_if false e = ok tt

-- `result.map_err(|_| e)`.
abbrev pub map_err {ℓ} : {D E : Type 0} {A : Type ℓ} → E → Outcome D A → Outcome E A
map_err e (ok a) = ok a
map_err e (err d) = err e
map_err e panic = panic

-- The call does not panic. One rule for each way to build a call.
pub record NoPanic {ℓ} {E : Type 0} {A : Type ℓ} (m : Outcome E A) : Type ℓ where
  pub ne : m ≢ panic

module _ {ℓ} {E : Type 0} {A : Type ℓ} where
  pub NoPanic-ok : (a : A) → NoPanic {E = E} (ok a)
  NoPanic-ok a = record { ne = λ p. cc }

  pub NoPanic-err : (e : E) → NoPanic {A = A} (err e)
  NoPanic-err e = record { ne = λ p. cc }

  pub NoPanic-if :
      (b : Bool) (m n : Outcome E A)
      → (b ≡ true → NoPanic m)
      → (b ≡ false → NoPanic n)
      → NoPanic (if b then m else n)
  NoPanic-if true m n hm hn = hm refl
  NoPanic-if false m n hm hn = hn refl

pub NoPanic-reject_if : {E : Type 0} (b : Bool) (e : E) → NoPanic (reject_if b e)
NoPanic-reject_if true e = NoPanic-err e
NoPanic-reject_if false e = NoPanic-ok tt

pub NoPanic-map_err {ℓ} :
    {D E : Type 0} {A : Type ℓ} (e : E) (m : Outcome D A) → NoPanic m → NoPanic (map_err e m)
NoPanic-map_err e (ok a) h = NoPanic-ok a
NoPanic-map_err e (err d) h = NoPanic-err e
NoPanic-map_err e panic h = absurd (h.ne refl)

-- What follows a call may use that the call returned.
pub NoPanic-bind {ℓ κ} :
    {E : Type 0} {A : Type ℓ} {B : Type κ} (m : Outcome E A) (f : A → Outcome E B)
    → NoPanic m
    → ((a : A) → m ≡ ok a → NoPanic (f a))
    → NoPanic (m >>= f)
NoPanic-bind (ok a) f hm hf = hf a refl
NoPanic-bind (err e) f hm hf = NoPanic-err e
NoPanic-bind panic f hm hf = absurd (hm.ne refl)

-- Inversion of a call that returned.
pub >>=-eq-ok {ℓ κ} :
    {E : Type 0} {A : Type ℓ} {B : Type κ} (call : Outcome E A) (next : A → Outcome E B) {out : B}
    → (call >>= next) ≡ ok out
    → (value : A) × (call ≡ ok value) × (next value ≡ ok out)
>>=-eq-ok panic next e = cc
>>=-eq-ok (err reason) next e = cc
>>=-eq-ok (ok value) next e = (value, refl, e)

pub >>=_assoc {ℓ κ ν} :
    {E : Type 0} {A : Type ℓ} {B : Type κ} {C : Type ν} (m : Outcome E A) (f : A → Outcome E B)
    (g : B → Outcome E C)
    → (m >>= λ a. f a >>= g) ≡ ((m >>= f) >>= g)
>>=_assoc (ok a) f g = refl
>>=_assoc (err e) f g = refl
>>=_assoc panic f g = refl

pub reject_if-eq-ok :
    {E : Type 0} (b : Bool) (e : E) {u : Unit {0}} → reject_if b e ≡ ok u → b ≡ false
reject_if-eq-ok true e h = cc
reject_if-eq-ok false e h = refl

pub ruleset no_panic =
    (NoPanic-ok, NoPanic-err, NoPanic-if, NoPanic-reject_if, NoPanic-map_err, NoPanic-bind)
