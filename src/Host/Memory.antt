-- ===== src/Host/Memory.antt =====
-- wapo-host/src/linear_memory.rs: the memories of the guests, and the pool that they are taken from. A
-- byte is a number; sizes are in bytes.
pub mod Isolation
pub mod Supply
use wapo.Prelude.{
  ℕ, zero, suc, ◌-◌, ◌==◌, ltb, if◌then◌else◌, List, [], ◌∷◌, ◌++◌, Option, none, some, Bool, true,
  false, not, ◌&&◌, ◌||◌, length, take, replicate, min,
}
use wapo.Prelude.Result.{Result, ok, err}

pub data MemoryError : Type 0 where
  unsupported_type reserved_unsupported reserved_too_large guard_unsupported : MemoryError
  out_of_memory limit_exceeded : MemoryError

-- `MemoryPool`.
pub record MemoryPool : Type 0 where
  pub limit : ℕ
  pub pool : Option (List (List ℕ))

-- `Memory`; `pooled` says whether it has a pool to go back to.
pub record Memory : Type 0 where
  pub limit : ℕ
  pub memory : List ℕ
  pub pooled : Bool

unfoldable pub new_pool : ℕ → ℕ → MemoryPool
new_pool limit pool_size = record {
  limit = limit;
  pool = if ltb 0 pool_size then some (replicate pool_size (replicate limit 0)) else none;
}

-- `Vec::resize(new_len, 0)`.
unfoldable pub resize : ℕ → List ℕ → List ℕ
resize new_len v = take new_len v ++ replicate (new_len - length v) 0

abbrev pub is_some {ℓ} : {A : Type ℓ} → Option A → Bool
is_some none = false
is_some (some a) = true

-- `unwrap_or(default)`.
abbrev pub unwrap_or {ℓ} : {A : Type ℓ} → A → Option A → A
unwrap_or d none = d
unwrap_or d (some a) = a

-- `pool.pop()`: the last memory of the pool.
unfoldable pub pop : List (List ℕ) → Option (List ℕ × List (List ℕ))
pop [] = none
pop (m ∷ ms) = elim (pop ms) [ none ↦ some (m, []) | some (l, rest) ↦ some (l, m ∷ rest) ]

-- `new_memory`, after its guards.
unfoldable pub take_memory : ℕ → ℕ → MemoryPool → Result MemoryError Memory × MemoryPool
unfolding resize pop
take_memory limit minimum p = elim p.pool [
  | none ↦ (ok (record { limit = limit; memory = replicate minimum 0; pooled = false }), p)
  | some ms ↦ elim (pop ms) [
    | none ↦ (err out_of_memory, p)
    | some (m, rest) ↦ (
      ok (record { limit = limit; memory = resize minimum []; pooled = true }),
      record p { pool = some rest },
    )
  ]
]

-- The request of wasmtime: the kind of the memory and the sizes.
pub record Request : Type 0 where
  pub is_64 : Bool
  pub is_shared : Bool
  pub minimum : ℕ
  pub maximum : Option ℕ
  pub reserved_size : Option ℕ
  pub guard_size : ℕ

unfoldable pub new_memory : Request → MemoryPool → Result MemoryError Memory × MemoryPool
unfolding take_memory
new_memory r p =
    if r.is_64 || r.is_shared
    then (err unsupported_type, p)
    else if not (is_some p.pool) && is_some r.reserved_size
    then (err reserved_unsupported, p)
    else if is_some p.pool && ltb p.limit (unwrap_or 0 r.reserved_size)
    then (err reserved_too_large, p)
    else if not (r.guard_size == 0)
    then (err guard_unsupported, p)
    else take_memory (min (unwrap_or p.limit r.maximum) p.limit) r.minimum p

-- `grow_to`.
unfoldable pub grow_to : ℕ → Memory → Result MemoryError (Unit {0}) × Memory
unfolding resize
grow_to new_size m =
    if ltb m.limit new_size
    then (err limit_exceeded, m)
    else if ltb (length m.memory) new_size
    then (ok tt, record m { memory = resize new_size m.memory })
    else (ok tt, m)

-- `drop` of a memory.
unfoldable pub drop_memory : Memory → MemoryPool → MemoryPool
drop_memory m p =
    if m.pooled
    then record p { pool = elim p.pool [ none ↦ none | some ms ↦ some (ms ++ m.memory ∷ []) ] }
    else p
