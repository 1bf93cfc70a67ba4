-- ===== src/Base/Results.antt =====
-- The result of a fallible call: Go's pair of a value and an error.
use mathlib.Core.Path.{◌≡◌, refl, ap, subst}

pub data Result {ℓ κ} (E : Type ℓ) (A : Type κ) : Type (ℓ ⊔ κ) where
  ok : A → Result E A
  err : E → Result E A

infixl 5 ◌>>=◌
abbrev pub ◌>>=◌ {ℓ κ ι} :
    {E : Type ℓ} {A : Type κ} {B : Type ι} → Result E A → (A → Result E B) → Result E B
ok a >>= f = f a
err e >>= f = err e

pub result_cases {ℓ κ ι μ} :
    {E : Type ℓ} {A : Type κ} {B : Type ι} (P : B → Type μ) (r : Result E A) {g : E → B} {f : A → B}
    → ((e : E) → r ≡ err e → P (g e))
    → ((a : A) → r ≡ ok a → P (f a))
    → P (elim r [ err e ↦ g e | ok a ↦ f a ])
result_cases P (err e) g h = g e refl
result_cases P (ok a) g h = h a refl

-- The value of a call that succeeds has the property.
pub data OnOk {ℓ κ ι} {E : Type ℓ} {A : Type κ} (P : A → Type ι)
    : Result E A → Type (ℓ ⊔ κ ⊔ ι) where
  failed : (e : E) → OnOk P (err e)
  done : (a : A) → P a → OnOk P (ok a)

pub on_ok_cases {ℓ κ ι μ ν} :
    {E : Type ℓ} {A : Type κ} {B : Type ι} {P : A → Type ν} (Q : B → Type μ) {r : Result E A}
    {g : E → B} {f : A → B}
    → OnOk P r
    → ((e : E) → Q (g e))
    → ((a : A) → P a → Q (f a))
    → Q (elim r [ err e ↦ g e | ok a ↦ f a ])
on_ok_cases Q (failed e) h k = h e
on_ok_cases Q (done a p) h k = k a p

pub OnOk-bind {ℓ κ ι μ ν} :
    {E : Type ℓ} {A : Type κ} {B : Type ι} {P : A → Type μ} {Q : B → Type ν} {r : Result E A}
    {f : A → Result E B}
    → OnOk P r
    → ((a : A) → P a → OnOk Q (f a))
    → OnOk Q (r >>= f)
OnOk-bind (failed e) k = failed e
OnOk-bind (done a p) k = k a p

-- A call that is known to succeed.
pub OnOk-when {ℓ κ ι} :
    {E : Type ℓ} {A : Type κ} (P : A → Type ι) (r : Result E A)
    → ((a : A) → r ≡ ok a → P a)
    → OnOk P r
OnOk-when P (err e) k = failed e
OnOk-when P (ok a) k = done a (k a refl)

value_or {ℓ κ} : {E : Type ℓ} {A : Type κ} → A → Result E A → A
value_or d (err e) = d
value_or d (ok a) = a

pub OnOk-value {ℓ κ ι} :
    {E : Type ℓ} {A : Type κ} (P : A → Type ι) (a : A) {r : Result E A} → OnOk P r → r ≡ ok a → P a
unfolding value_or
OnOk-value P a (failed e) q = absurd (cc q)
OnOk-value P a (done b p) q = subst P (ap (value_or b) q) p
