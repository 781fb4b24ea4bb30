-- ===== src/Env/Codec/Enums.antt =====
-- args_stack.rs, the codecs of `bool`, `OcallError`, `()` and the log level.
use wapo.Prelude.{
  ℕ, ◌%◌, ◌<◌, ◌≤◌, ◌≡◌, refl, Bool, true, false, arith, ◌==◌, if◌then◌else◌, u32_mod, some,
}
use wapo.Prelude.Result.{ok, err, ◌>>=◌, ok_or}
use wapo.Env.{OcallResult, OcallError, invalid_encoding, to_code, try_from_code, reserved}
use wapo.Env.Codec.Interface.{I32Convertible}
use wapo.Env.Codec.Ints.{unsigned_from_i32}

unfoldable pub bool_to_i32 : Bool → ℕ
bool_to_i32 false = 0
bool_to_i32 true = 1

unfoldable pub bool_from_i32 : ℕ → OcallResult Bool
bool_from_i32 i = if i == 0 then ok false else if i == 1 then ok true else err invalid_encoding

unfoldable pub unit_from_i32 : ℕ → OcallResult (Unit {0})
unit_from_i32 i = if i == 0 then ok tt else err invalid_encoding

unfoldable pub error_from_i32 : ℕ → OcallResult OcallError
unfolding unsigned_from_i32
error_from_i32 i = do code ← unsigned_from_i32 255 i; ok_or (try_from_code code) invalid_encoding

pub data Level : Type 0 where
  error warn info debug trace : Level

unfoldable pub level_to_i32 : Level → ℕ
level_to_i32 error = 1
level_to_i32 warn = 2
level_to_i32 info = 3
level_to_i32 debug = 4
level_to_i32 trace = 5

unfoldable pub level_from_i32 : ℕ → OcallResult Level
level_from_i32 i =
    if i == 1
    then ok error
    else if i == 2
    then ok warn
    else if i == 3
    then ok info
    else if i == 4
    then ok debug
    else if i == 5
    then ok trace
    else err invalid_encoding

-- `reserved n` stands for a variant of the enum.
abbrev pub IsVariant : OcallError → Type 0
IsVariant (reserved n) = (19 ≤ n) × (n ≤ 255)
IsVariant _ = Unit

try_from_code-to_code : (e : OcallError) → IsVariant e → try_from_code (to_code e) ≡ some e
unfolding try_from_code to_code
try_from_code-to_code (reserved n) h = ground arith
try_from_code-to_code _ h = refl

to_code-le : (e : OcallError) → IsVariant e → to_code e ≤ 255
unfolding to_code
to_code-le (reserved n) h = h.1
to_code-le _ h = omega arith

to_code-try_from_code : (n : ℕ) (e : OcallError) → try_from_code n ≡ some e → to_code e ≡ n
unfolding try_from_code to_code
to_code-try_from_code n e h = ground arith

pub bool_lt : (b : Bool) → Unit {0} → bool_to_i32 b < u32_mod
unfolding bool_to_i32
bool_lt b h = ground arith

pub bool_decode : (b : Bool) → Unit {0} → bool_from_i32 (bool_to_i32 b) ≡ ok b
unfolding bool_to_i32 bool_from_i32
bool_decode true h = refl
bool_decode false h = refl

pub bool_encode : (i : ℕ) (b : Bool) → i < u32_mod → bool_from_i32 i ≡ ok b → bool_to_i32 b ≡ i
unfolding bool_to_i32 bool_from_i32
bool_encode i b h e = ground arith

pub unit_lt : (u : Unit {0}) → Unit {0} → 0 < u32_mod
unit_lt u h = omega arith

pub unit_decode : (u : Unit {0}) → Unit {0} → unit_from_i32 0 ≡ ok u
unfolding unit_from_i32
unit_decode u h = refl

pub unit_encode : (i : ℕ) (u : Unit {0}) → i < u32_mod → unit_from_i32 i ≡ ok u → ◌≡◌ {A = ℕ} 0 i
unfolding unit_from_i32
unit_encode i u h e = ground arith

pub error_lt : (e : OcallError) → IsVariant e → to_code e < u32_mod
error_lt e h = omega (arith, to_code-le e h)

pub error_decode : (e : OcallError) → IsVariant e → error_from_i32 (to_code e) ≡ ok e
unfolding error_from_i32
error_decode e h = ground (arith, to_code-le e h, try_from_code-to_code e h)

pub error_encode : (i : ℕ) (e : OcallError) → i < u32_mod → error_from_i32 i ≡ ok e → to_code e ≡ i
unfolding error_from_i32
error_encode i e h eq = ground (arith, to_code-try_from_code (i % 256) e)

pub level_lt : (l : Level) → Unit {0} → level_to_i32 l < u32_mod
unfolding level_to_i32
level_lt l h = ground arith

pub level_decode : (l : Level) → Unit {0} → level_from_i32 (level_to_i32 l) ≡ ok l
unfolding level_to_i32 level_from_i32
level_decode error h = refl
level_decode _ h = refl

pub level_encode : (i : ℕ) (l : Level) → i < u32_mod → level_from_i32 i ≡ ok l → level_to_i32 l ≡ i
unfolding level_to_i32 level_from_i32
level_encode i l h e = ground arith

abbrev pub bool_codec : I32Convertible Bool
bool_codec = record {
  Valid = λ b. Unit;
  to_i32 = bool_to_i32;
  from_i32 = bool_from_i32;
  to_i32-lt = bool_lt;
  from_i32-to_i32 = bool_decode;
  to_i32-from_i32 = bool_encode;
}

abbrev pub unit_codec : I32Convertible (Unit {0})
unit_codec = record {
  Valid = λ u. Unit;
  to_i32 = λ u. 0;
  from_i32 = unit_from_i32;
  to_i32-lt = unit_lt;
  from_i32-to_i32 = unit_decode;
  to_i32-from_i32 = unit_encode;
}

abbrev pub error_codec : I32Convertible OcallError
error_codec = record {
  Valid = IsVariant;
  to_i32 = to_code;
  from_i32 = error_from_i32;
  to_i32-lt = error_lt;
  from_i32-to_i32 = error_decode;
  to_i32-from_i32 = error_encode;
}

abbrev pub level_codec : I32Convertible Level
level_codec = record {
  Valid = λ l. Unit;
  to_i32 = level_to_i32;
  from_i32 = level_from_i32;
  to_i32-lt = level_lt;
  from_i32-to_i32 = level_decode;
  to_i32-from_i32 = level_encode;
}
