-- ===== src/Env/Int64.antt =====
-- args_stack.rs, `impl_codec64!`: an `i64` or `u64` argument travels as two `i32` words. The values are
-- bit patterns below 2 ^ 64, and what is said here holds for both types.
use Prim.Native.Nat.{bit_and}
use wapo.Prelude.{
  ℕ, ◌+◌, ◌-◌, ◌*◌, ◌/◌, ◌%◌, ◌^◌, ◌<◌, ◌≡◌, ◌↔◌, ap, ltb, arith, if◌then◌else◌, u32_mod, u64_mod,
}
use wapo.Prelude.Bits.{and_mask, and_high, and-zero}

-- `as Self` of an `i32`: the sign is extended to 64 bits.
unfoldable pub extend_i32 : ℕ → ℕ
extend_i32 w = if ltb w 0x8000_0000 then w else w + (u64_mod - u32_mod)

-- The words `(low, high)` that `encode_arg` pushes.
unfoldable pub encode_i64 : ℕ → ℕ × ℕ
encode_i64 v = (bit_and v 0xffff_ffff, bit_and (v / 2 ^ 32) 0xffff_ffff)

-- `decode_arg`, which joins the words by `&`.
unfoldable pub decode_i64 : ℕ × ℕ → ℕ
unfolding extend_i32
decode_i64 (low, high) = bit_and (extend_i32 high * 2 ^ 32 % u64_mod) (extend_i32 low)

high_word : (high : ℕ) → high < u32_mod → extend_i32 high * 2 ^ 32 % u64_mod ≡ high * 2 ^ 32
unfolding extend_i32
high_word high h = ground arith

-- `high & low` as it stands in the source, from the words.
joined :
    (low high : ℕ)
    → low < u32_mod
    → high < u32_mod
    → decode_i64 (low, high) ≡ (if ltb low 0x8000_0000 then 0 else high * 2 ^ 32)
unfolding decode_i64
joined low high hl hh =
    let e : low + (u64_mod - u32_mod) ≡ 0xffff_ffff * 2 ^ 32 + low = omega arith in
    ground (
      arith,
      high_word high hh,
      and_high 32 high 0 low hl,
      and-zero high,
      ap (bit_and (high * 2 ^ 32)) e,
      and_high 32 high 0xffff_ffff low hl,
      and_mask 32 high,
    )

-- What the host reads for an argument `v` of the guest: zero if bit 31 of `v` is clear, and the high
-- word with the low word cleared if it is set.
decode_i64-encode_i64 :
    (v : ℕ)
    → v < u64_mod
    → decode_i64 (encode_i64 v) ≡ (if ltb (v % 2 ^ 32) 0x8000_0000 then 0 else v / 2 ^ 32 * 2 ^ 32)
unfolding encode_i64
decode_i64-encode_i64 v h =
    let lo = and_mask 32 v in
    let hi = and_mask 32 (v / 2 ^ 32) in
    rw (lo, hi)
      (ground (arith, joined (v % 2 ^ 32) (v / 2 ^ 32 % 2 ^ 32) (omega arith) (omega arith)))

-- The round trip fails for every 64-bit argument but zero.
pub decode_i64-lossy : (v : ℕ) → v < u64_mod → (decode_i64 (encode_i64 v) ≡ v) ↔ (v ≡ 0)
decode_i64-lossy v h = ground (arith, decode_i64-encode_i64 v h)
