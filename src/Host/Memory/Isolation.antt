-- ===== src/Host/Memory/Isolation.antt =====
-- A guest starts with zeroed memory, whatever its predecessor left in the pool, and keeps what it wrote.
use mathlib.Core.List.{append-nil}
use wapo.Prelude.{
  ℕ, zero, suc, ◌+◌, ◌-◌, ◌≤◌, ◌≡◌, refl, sym, ap, ◌∙◌, arith, ◌==◌, ltb, if◌then◌else◌, List, [],
  ◌∷◌, ◌++◌, not, ◌&&◌, ◌||◌, length, take, replicate, length-append, Bool-cases, Option-cases, inl,
  inr,
}
use wapo.Prelude.Result.{Result, ok, err}
use wapo.Host.Memory.{
  MemoryPool, Memory, MemoryError, Request, resize, pop, take_memory, new_memory, grow_to, is_some,
  unwrap_or,
}

length-replicate : (n x : ℕ) → length (replicate n x) ≡ n
length-replicate zero x = refl
length-replicate (suc n) x = ap suc (length-replicate n x)

take-all : (n : ℕ) (v : List ℕ) → length v ≤ n → take n v ≡ v
take-all zero [] h = refl
take-all (suc n) [] h = refl
take-all zero (x ∷ v) h = absurd (omega (arith, h))
take-all (suc n) (x ∷ v) h = ap (λ l. x ∷ l) (take-all n v (omega (arith, h)))

taken-zero :
    (limit minimum : ℕ) (p : MemoryPool) (m : Memory)
    → (take_memory limit minimum p).0 ≡ ok m
    → m.memory ≡ replicate minimum 0
unfolding take_memory resize
taken-zero limit minimum p m = elim (Option-cases p.pool) [
  | inl e ↦ rw (take_memory, e) (λ h. cc)
  | inr (ms, e) ↦ elim (Option-cases (pop ms)) [
    | inl f ↦ rw (take_memory, e, f) (λ h. cc)
    | inr ((x, rest), f) ↦
        rw (take_memory, e, f)
          (λ h.
            let first : resize minimum [] ≡ replicate minimum 0 =
              ap (λ l. l ++ replicate (minimum - 0) 0) (take-all minimum [] (omega arith))
              ∙ ap (λ n. replicate n 0) (omega arith) in
            ap (λ (r : Result MemoryError Memory). elim r [ ok y ↦ y.memory | err z ↦ [] ]) (sym h)
            ∙ first)
  ]
]

-- A memory that `new_memory` grants has exactly the minimum size that was asked for, and every byte of
-- it is zero, whatever the memories in the pool hold.
pub new_memory-zero :
    (r : Request) (p : MemoryPool) (m : Memory)
    → (new_memory r p).0 ≡ ok m
    → m.memory ≡ replicate r.minimum 0
unfolding new_memory
new_memory-zero r p m = elim (Bool-cases (r.is_64 || r.is_shared)) [
  | inl a ↦ rw (new_memory, a) (λ h. cc)
  | inr a ↦ elim (Bool-cases (not (is_some p.pool) && is_some r.reserved_size)) [
    | inl b ↦ rw (new_memory, a, b) (λ h. cc)
    | inr b ↦ elim (Bool-cases (is_some p.pool && ltb p.limit (unwrap_or 0 r.reserved_size))) [
      | inl c ↦ rw (new_memory, a, b, c) (λ h. cc)
      | inr c ↦ elim (Bool-cases (not (r.guard_size == 0))) [
        | inl d ↦ rw (new_memory, a, b, c, d) (λ h. cc)
        | inr d ↦ rw (new_memory, a, b, c, d) (taken-zero _ r.minimum p m)
      ]
    ]
  ]
]

-- Growing a memory that is within its limit keeps the bytes that were there, appends only zeros, stays
-- within the limit, and fails exactly beyond it.
grow_to-extends :
    (new_size : ℕ) (m : Memory)
    → length m.memory ≤ m.limit
    → ((grow_to new_size m).1.memory
        ≡ m.memory ++ replicate (length (grow_to new_size m).1.memory - length m.memory) 0)
      × (length (grow_to new_size m).1.memory ≤ m.limit)
      × ((grow_to new_size m).1.limit ≡ m.limit)
      × ((grow_to new_size m).0
          ≡ (if ltb m.limit new_size then err MemoryError.limit_exceeded else ok tt))
unfolding grow_to resize
grow_to-extends new_size m h =
    let no_gap : 0 ≡ length m.memory - length m.memory = omega arith in
    let same : m.memory ≡ m.memory ++ replicate (length m.memory - length m.memory) 0 =
      sym (append-nil m.memory) ∙ ap (λ n. m.memory ++ replicate n 0) no_gap in
    elim (Bool-cases (ltb m.limit new_size)) [
      | inl a ↦ rw (grow_to, a) (same, h, refl, refl)
      | inr a ↦ elim (Bool-cases (ltb (length m.memory) new_size)) [
        | inr b ↦ rw (grow_to, a, b) (same, h, refl, refl)
        | inl b ↦
            let grown : resize new_size m.memory
                ≡ m.memory ++ replicate (new_size - length m.memory) 0 =
              ap (λ l. l ++ replicate (new_size - length m.memory) 0)
                (take-all new_size m.memory (ground arith)) in
            let enough : length m.memory + (new_size - length m.memory) ≡ new_size = ground arith in
            let size : length (resize new_size m.memory) ≡ new_size =
              ap length grown
              ∙ length-append m.memory _
              ∙ ap (λ n. length m.memory + n) (length-replicate (new_size - length m.memory) 0)
              ∙ enough in
            rw (grow_to, a, b)
              (
                grown ∙ ap (λ n. m.memory ++ replicate (n - length m.memory) 0) (sym size),
                ground (arith, size),
                refl,
                refl,
              )
      ]
    ]
