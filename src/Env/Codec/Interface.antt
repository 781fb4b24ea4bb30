-- ===== src/Env/Codec/Interface.antt =====
-- args_stack.rs, the trait `I32Convertible`: its two functions, and the laws that its
-- implementations keep.
use wapo.Prelude.{ℕ, ◌<◌, ◌≡◌, u32_mod}
use wapo.Prelude.Result.{ok}
use wapo.Env.{OcallResult}

-- `Valid a` says that `a` stands for a value of the Rust type.
pub record I32Convertible (A : Type 0) : Type 1 where
  pub Valid : A → Type 0
  pub to_i32 : A → ℕ
  pub from_i32 : ℕ → OcallResult A
  pub to_i32-lt : (a : A) → Valid a → to_i32 a < u32_mod
  pub from_i32-to_i32 : (a : A) → Valid a → from_i32 (to_i32 a) ≡ ok a
  pub to_i32-from_i32 : (i : ℕ) (a : A) → i < u32_mod → from_i32 i ≡ ok a → to_i32 a ≡ i
