-- ===== src/Prelude/Calls.antt =====
-- Calls that act on a state of any type and can fail: the state stays what it became when `?`
-- returns early.
use mathlib.Core.Path.{◌≡◌, ap}
use wapo.Prelude.Result.{Result, ok, err}

abbrev pub Call : Type 0 → Type 0 → Type 0 → Type 0
Call E W A = W → Result E A × W

-- What follows a call: the next one, with its result, or the error.
abbrev pub continue : {E W A B : Type 0} → Result E A → (A → Call E W B) → Call E W B
continue (ok a) f w = f a w
continue (err e) f w = (err e, w)

infixl 5 ◌>>=◌ ◌>>◌
abbrev pub ◌>>=◌ : {E W A B : Type 0} → Call E W A → (A → Call E W B) → Call E W B
◌>>=◌ m f w = continue (m w).0 f (m w).1

abbrev pub ◌>>◌ : {E W A B : Type 0} → Call E W A → Call E W B → Call E W B
m >> k = m >>= λ _. k

abbrev pub return : {E W A : Type 0} → A → Call E W A
return a w = (ok a, w)

abbrev pub fail : {E W A : Type 0} → E → Call E W A
fail e w = (err e, w)

pub bind-ok :
    {E W A B : Type 0} (m : Call E W A) (f : A → Call E W B) (w : W) (a : A)
    → (m w).0 ≡ ok a
    → (m >>= f) w ≡ f a (m w).1
bind-ok m f w a h = ap (λ r. continue r f (m w).1) h

pub bind-err :
    {E W A B : Type 0} (m : Call E W A) (f : A → Call E W B) (w : W) (e : E)
    → (m w).0 ≡ err e
    → (m >>= f) w ≡ (err e, (m w).1)
bind-err m f w e h = ap (λ r. continue r f (m w).1) h
