-- ===== src/Env/Codec/Ints.antt =====
-- args_stack.rs, `impl_codec_i!`, `impl_codec_u!` and `impl_codec!`: the integer types up to 32 bits.
-- A value of a type of w bits is its bit pattern, below 2 ^ w.
use wapo.Prelude.{
  ℕ, ◌+◌, ◌-◌, ◌*◌, ◌%◌, ◌<◌, ◌≡◌, refl, Bool, arith, ltb, ◌||◌, if◌then◌else◌, u32_mod,
}
use wapo.Prelude.Result.{ok, err}
use wapo.Env.{OcallResult, invalid_encoding}
use wapo.Env.Codec.Interface.{I32Convertible}

-- `a < b` of two `i32` values, from their bit patterns.
abbrev lt_i32 : ℕ → ℕ → Bool
lt_i32 a b = ltb ((a + 0x8000_0000) % u32_mod) ((b + 0x8000_0000) % u32_mod)

-- `*self as i32` of a signed type with the range [-half, half).
unfoldable pub sign_extend : ℕ → ℕ → ℕ
sign_extend half v = if ltb v half then v else v + (u32_mod - 2 * half)

-- `impl_codec_i!`: the comparison is between `i32` values, and `i as Self` keeps the low bits.
unfoldable pub signed_from_i32 : ℕ → ℕ → OcallResult ℕ
signed_from_i32 half i =
    if lt_i32 (half - 1) i || lt_i32 i (u32_mod - half)
    then err invalid_encoding
    else ok (i % (2 * half))

-- `impl_codec_u!` of a type with the largest value `top`: the comparison is between `u32` values.
unfoldable pub unsigned_from_i32 : ℕ → ℕ → OcallResult ℕ
unsigned_from_i32 top i = if ltb top i then err invalid_encoding else ok (i % (top + 1))

pub i8_lt : (v : ℕ) → v < 256 → sign_extend 128 v < u32_mod
unfolding sign_extend
i8_lt v h = ground arith

pub i8_decode : (v : ℕ) → v < 256 → signed_from_i32 128 (sign_extend 128 v) ≡ ok v
unfolding sign_extend signed_from_i32
i8_decode v h = ground arith

pub i8_encode : (i v : ℕ) → i < u32_mod → signed_from_i32 128 i ≡ ok v → sign_extend 128 v ≡ i
unfolding sign_extend signed_from_i32
i8_encode i v h e = ground arith

pub i16_lt : (v : ℕ) → v < 65536 → sign_extend 32768 v < u32_mod
unfolding sign_extend
i16_lt v h = ground arith

pub i16_decode : (v : ℕ) → v < 65536 → signed_from_i32 32768 (sign_extend 32768 v) ≡ ok v
unfolding sign_extend signed_from_i32
i16_decode v h = ground arith

pub i16_encode : (i v : ℕ) → i < u32_mod → signed_from_i32 32768 i ≡ ok v → sign_extend 32768 v ≡ i
unfolding sign_extend signed_from_i32
i16_encode i v h e = ground arith

pub u8_decode : (v : ℕ) → v < 256 → unsigned_from_i32 255 v ≡ ok v
unfolding unsigned_from_i32
u8_decode v h = ground arith

pub u8_encode : (i v : ℕ) → i < u32_mod → unsigned_from_i32 255 i ≡ ok v → v ≡ i
unfolding unsigned_from_i32
u8_encode i v h e = ground arith

pub u16_decode : (v : ℕ) → v < 65536 → unsigned_from_i32 65535 v ≡ ok v
unfolding unsigned_from_i32
u16_decode v h = ground arith

pub u16_encode : (i v : ℕ) → i < u32_mod → unsigned_from_i32 65535 i ≡ ok v → v ≡ i
unfolding unsigned_from_i32
u16_encode i v h e = ground arith

pub u8_lt : (v : ℕ) → v < 256 → v < u32_mod
u8_lt v h = omega arith

pub u16_lt : (v : ℕ) → v < 65536 → v < u32_mod
u16_lt v h = omega arith

pub u32_encode : (i v : ℕ) → i < u32_mod → ◌≡◌ {A = OcallResult ℕ} (ok i) (ok v) → v ≡ i
u32_encode i v h e = ground arith

abbrev pub i8_codec : I32Convertible ℕ
i8_codec = record {
  Valid = λ v. v < 256;
  to_i32 = sign_extend 128;
  from_i32 = signed_from_i32 128;
  to_i32-lt = i8_lt;
  from_i32-to_i32 = i8_decode;
  to_i32-from_i32 = i8_encode;
}

abbrev pub i16_codec : I32Convertible ℕ
i16_codec = record {
  Valid = λ v. v < 65536;
  to_i32 = sign_extend 32768;
  from_i32 = signed_from_i32 32768;
  to_i32-lt = i16_lt;
  from_i32-to_i32 = i16_decode;
  to_i32-from_i32 = i16_encode;
}

abbrev pub u8_codec : I32Convertible ℕ
u8_codec = record {
  Valid = λ v. v < 256;
  to_i32 = λ v. v;
  from_i32 = unsigned_from_i32 255;
  to_i32-lt = u8_lt;
  from_i32-to_i32 = u8_decode;
  to_i32-from_i32 = u8_encode;
}

abbrev pub u16_codec : I32Convertible ℕ
u16_codec = record {
  Valid = λ v. v < 65536;
  to_i32 = λ v. v;
  from_i32 = unsigned_from_i32 65535;
  to_i32-lt = u16_lt;
  from_i32-to_i32 = u16_decode;
  to_i32-from_i32 = u16_encode;
}

-- `impl_codec!`, of `i32` and `u32` alike: the bit pattern is kept.
abbrev pub u32_codec : I32Convertible ℕ
u32_codec = record {
  Valid = λ v. v < u32_mod;
  to_i32 = λ v. v;
  from_i32 = ok;
  to_i32-lt = λ v h. h;
  from_i32-to_i32 = λ v h. refl;
  to_i32-from_i32 = u32_encode;
}
