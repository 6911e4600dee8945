-- ===== src/Outcome.antt =====
-- What a handler does: it goes on with a value, returns early and changes nothing, or runs into
-- behaviour that C++ leaves undefined (an empty optional or a null pointer is dereferenced).
use bb_monitor.Base.{Option, none, some, ◌≡◌, refl}

pub data Outcome {ℓ} (A : Type ℓ) : Type ℓ where
  ok : A → Outcome A
  skipped : Outcome A
  undefined : Outcome A

infixl 5 ◌>>=◌
abbrev pub ◌>>=◌ {ℓ κ} : {A : Type ℓ} {B : Type κ} → Outcome A → (A → Outcome B) → Outcome B
ok a >>= f = f a
skipped >>= f = skipped
undefined >>= f = undefined

-- `if (!x) return;`
abbrev pub need {ℓ} : {A : Type ℓ} → Option A → Outcome A
need none = skipped
need (some a) = ok a

-- `*x`
abbrev pub deref {ℓ} : {A : Type ℓ} → Option A → Outcome A
deref none = undefined
deref (some a) = ok a

-- A handler that returned early has left the state as it was.
abbrev pub or_unchanged {ℓ} : {S : Type ℓ} → S → Outcome S → Outcome S
or_unchanged s (ok t) = ok t
or_unchanged s skipped = ok s
or_unchanged s undefined = undefined

pub bind-eq-ok {ℓ κ} :
    {A : Type ℓ} {B : Type κ} (m : Outcome A) (f : A → Outcome B) {b : B}
    → (m >>= f) ≡ ok b
    → (a : A) × (m ≡ ok a) × (f a ≡ ok b)
bind-eq-ok (ok a) f h = (a, refl, h)
bind-eq-ok skipped f h = cc
bind-eq-ok undefined f h = cc
