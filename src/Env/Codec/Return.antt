-- ===== src/Env/Codec/Return.antt =====
-- args_stack.rs, `RetEncode` and `RetDecode` for `Result<A, B>`: a tag in the high word, and the
-- value of either side in the low word.
use Prim.Native.Nat.{bit_and, bit_or}
use wapo.Prelude.{
  ℕ, ◌*◌, ◌/◌, ◌^◌, ◌<◌, ◌≡◌, ◌==◌, arith, Option, none, some, if◌then◌else◌, u64_mod,
}
use wapo.Prelude.Bits.{or_fields, and_mask}
use wapo.Prelude.Result.{Result, ok, err}
use wapo.Env.{OcallResult}
use wapo.Env.Codec.Interface.{I32Convertible}

-- `Ok(A::from_i32(val).expect(..))` and the like: `none` is the panic.
abbrev pub expected : {A C : Type 0} → OcallResult A → (A → C) → Option C
expected (ok a) side = some (side a)
expected (err e) side = none

module _ {A B : Type 0} (a : I32Convertible A) (b : I32Convertible B) where
  -- `((tp as u32 as i64) << 32) | (val as u32 as i64)`.
  unfoldable pub encode_ret : Result B A → ℕ
  encode_ret (ok v) = bit_or (0 * 2 ^ 32) (a.to_i32 v)
  encode_ret (err e) = bit_or (1 * 2 ^ 32) (b.to_i32 e)

  unfoldable pub decode_ret : ℕ → Option (Result B A)
  decode_ret encoded =
      let tp = bit_and (encoded / 2 ^ 32) 0xffff_ffff in
      let val = bit_and encoded 0xffff_ffff in
      if tp == 0 then expected (a.from_i32 val) ok else expected (b.from_i32 val) err

  -- The result holds a value of its Rust type.
  abbrev pub ValidResult : Result B A → Type 0
  ValidResult (ok v) = a.Valid v
  ValidResult (err e) = b.Valid e

  -- Decoding what the other side encoded gives the result back, for a result whose value or error
  -- is one of its Rust type; and the encoding is a 64-bit pattern.
  pub decode_ret-encode_ret :
      (r : Result B A)
      → ValidResult r
      → (decode_ret (encode_ret r) ≡ some r) × (encode_ret r < u64_mod)
  unfolding encode_ret decode_ret
  decode_ret-encode_ret (ok v) h =
      let lt = a.to_i32-lt v h in
      let joined = or_fields 32 0 (a.to_i32 v) lt in
      (
        ground (
          arith,
          joined,
          and_mask 32 (bit_or (0 * 2 ^ 32) (a.to_i32 v) / 2 ^ 32),
          and_mask 32 (bit_or (0 * 2 ^ 32) (a.to_i32 v)),
          a.from_i32-to_i32 v h,
        ),
        omega (arith, joined),
      )
  decode_ret-encode_ret (err e) h =
      let lt = b.to_i32-lt e h in
      let joined = or_fields 32 1 (b.to_i32 e) lt in
      (
        ground (
          arith,
          joined,
          and_mask 32 (bit_or (1 * 2 ^ 32) (b.to_i32 e) / 2 ^ 32),
          and_mask 32 (bit_or (1 * 2 ^ 32) (b.to_i32 e)),
          b.from_i32-to_i32 e h,
        ),
        omega (arith, joined),
      )
