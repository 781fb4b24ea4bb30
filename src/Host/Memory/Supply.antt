-- ===== src/Host/Memory/Supply.antt =====
-- The memories of a pool are never lost and never shared out twice.
use wapo.Prelude.{
  ℕ, zero, suc, ◌+◌, ◌≤◌, ◌≡◌, refl, sym, ap, subst, ◌∙◌, arith, ◌==◌, ltb, List, [], ◌∷◌, ◌++◌,
  none, some, true, not, ◌&&◌, ◌||◌, length, replicate, length-append, Bool-cases, Option-cases,
  inl, inr, All, All-append,
}
use wapo.Prelude.Result.{Result, ok, err}
use wapo.Host.Memory.{
  MemoryPool, Memory, MemoryError, Request, new_pool, pop, take_memory, new_memory, grow_to,
  drop_memory, is_some, unwrap_or,
}

-- The pool, and the memories that guests hold.
pub record Supply : Type 0 where
  pub pool : MemoryPool
  pub live : List Memory

pub data SupplyStep (s : Supply) : Supply → Type 0 where
  grants :
      (r : Request) (m : Memory) (p : MemoryPool)
      → new_memory r s.pool ≡ (ok m, p)
      → SupplyStep s (record { pool = p; live = m ∷ s.live })
  grows :
      (before after : List Memory) (m : Memory) (new_size : ℕ)
      → s.live ≡ before ++ m ∷ after
      → SupplyStep s (record s { live = before ++ (grow_to new_size m).1 ∷ after })
  drops :
      (before after : List Memory) (m : Memory)
      → s.live ≡ before ++ m ∷ after
      → SupplyStep s (record { pool = drop_memory m s.pool; live = before ++ after })

pub data SupplySteps (s : Supply) : Supply → Type 0 where
  here : SupplySteps s s
  next : {t u : Supply} → SupplySteps s t → SupplyStep t u → SupplySteps s u

-- `n` memories are in the pool or with guests, all of which give theirs back.
pub record IsConserved (n : ℕ) (s : Supply) : Type 0 where
  pub kept : (ms : List (List ℕ)) × (s.pool.pool ≡ some ms) × (length ms + length s.live ≡ n)
  pub pooled : All (λ m. m.pooled ≡ true) s.live

length-pop :
    (ms rest : List (List ℕ)) (m : List ℕ) → pop ms ≡ some (m, rest) → length ms ≡ suc (length rest)
unfolding pop
length-pop [] rest m e = cc
length-pop (x ∷ xs) rest m e = elim (Option-cases (pop xs)) [
  | inl p ↦
      elim xs
          as (λ l.
            pop l ≡ none → pop (x ∷ l) ≡ some (m, rest) → length (x ∷ l) ≡ suc (length rest)) [
              | [] ↦ λ q f. let same : [] ≡ rest = ground arith in ap (λ l. suc (length l)) same
              | y ∷ ys ↦ λ q f. ground (arith, pop-some y ys)
            ]
        p e
  | inr ((y, l), p) ↦
      let same : x ∷ l ≡ rest = ground arith in
      ap suc (length-pop xs l y p ∙ refl) ∙ ap (λ k. suc (length k)) same
]
  where
    pop-some : (y : List ℕ) (ys : List (List ℕ)) → pop (y ∷ ys) ≡ none → ⊥
    pop-some y ys = elim (Option-cases (pop ys)) [
      | inl q ↦ rw (pop, q) (λ h. cc)
      | inr (z, q) ↦ rw (pop, q) (λ h. cc)
    ]

-- What a grant takes from a pool.
Grants : MemoryPool → Result MemoryError Memory × MemoryPool → Type 0
Grants p out =
    (m : Memory) (p' : MemoryPool) (ms : List (List ℕ))
    → p.pool ≡ some ms
    → out ≡ (ok m, p')
    → (m.pooled ≡ true)
      × ((rest : List (List ℕ)) × (p'.pool ≡ some rest) × (length ms ≡ suc (length rest)))

take_memory-Grants : (limit minimum : ℕ) (p : MemoryPool) → Grants p (take_memory limit minimum p)
unfolding take_memory Grants
take_memory-Grants limit minimum p m p' ms = elim (Option-cases (pop ms)) [
  | inl f ↦ λ e. rw (take_memory, e, f) (λ h. cc)
  | inr ((x, rest), f) ↦ λ e.
      rw (take_memory, e, f)
        (λ h. (
          ap
              (λ (o : Result MemoryError Memory × MemoryPool). elim o.0 [
                | ok y ↦ y.pooled
                | err z ↦ true
              ])
              (sym h),
          (
            rest,
            ap (λ (o : Result MemoryError Memory × MemoryPool). o.1.pool) (sym h),
            length-pop ms rest x f,
          ),
        ))
]

new_memory-Grants : (r : Request) (p : MemoryPool) → Grants p (new_memory r p)
unfolding new_memory Grants
new_memory-Grants r p m p' ms q = elim (Bool-cases (r.is_64 || r.is_shared)) [
  | inl a ↦ rw (new_memory, a) (λ h. cc)
  | inr a ↦ elim (Bool-cases (not (is_some p.pool) && is_some r.reserved_size)) [
    | inl b ↦ rw (new_memory, a, b) (λ h. cc)
    | inr b ↦ elim (Bool-cases (is_some p.pool && ltb p.limit (unwrap_or 0 r.reserved_size))) [
      | inl c ↦ rw (new_memory, a, b, c) (λ h. cc)
      | inr c ↦ elim (Bool-cases (not (r.guard_size == 0))) [
        | inl d ↦ rw (new_memory, a, b, c, d) (λ h. cc)
        | inr d ↦ rw (new_memory, a, b, c, d) (take_memory-Grants _ r.minimum p m p' ms q)
      ]
    ]
  ]
]

grow_to-pooled : (n : ℕ) (m : Memory) → (grow_to n m).1.pooled ≡ m.pooled
unfolding grow_to
grow_to-pooled n m = ground arith

All-split {ℓ} :
    {A : Type ℓ} (P : A → Type 0) (before after : List A) (x : A)
    → All P (before ++ x ∷ after)
    → All P before × P x × All P after
All-split P [] after x h = (tt, h.0, h.1)
All-split P (y ∷ ys) after x h = let (a, b, c) = All-split P ys after x h.1 in ((h.0, a), b, c)

SupplyStep-IsConserved : (n : ℕ) {s t : Supply} → SupplyStep s t → IsConserved n s → IsConserved n t
unfolding Grants drop_memory
SupplyStep-IsConserved n {s} (grants r m p e) v =
    let (ms, q, l) = v.kept in
    let (b, (rest, f, k)) = new_memory-Grants r s.pool m p ms q e in
    record { kept = (rest, f, omega (arith, l, k)); pooled = (b, v.pooled) }
SupplyStep-IsConserved n {s} (grows before after m new_size e) v =
    let (ms, q, l) = v.kept in
    let P = λ (x : Memory). x.pooled ≡ true in
    let (a, b, c) = All-split P before after m (subst (All P) e v.pooled) in
    let m' = (grow_to new_size m).1 in
    record {
      kept = (
        ms,
        q,
        omega (
          arith,
          l,
          ap length e,
          length-append before (m ∷ after),
          length-append before (m' ∷ after),
        ),
      );
      pooled = All-append P before (m' ∷ after) a (grow_to-pooled new_size m ∙ b, c);
    }
SupplyStep-IsConserved n {s} (drops before after m e) v =
    let (ms, q, l) = v.kept in
    let P = λ (x : Memory). x.pooled ≡ true in
    let (a, b, c) = All-split P before after m (subst (All P) e v.pooled) in
    record {
      kept = (
        ms ++ m.memory ∷ [],
        rw (b, drop_memory, q) refl,
        omega (
          arith,
          l,
          ap length e,
          length-append before (m ∷ after),
          length-append before after,
          length-append ms (m.memory ∷ []),
        ),
      );
      pooled = All-append P before after a c;
    }

SupplySteps-IsConserved :
    (n : ℕ) {s t : Supply} → SupplySteps s t → IsConserved n s → IsConserved n t
SupplySteps-IsConserved n here v = v
SupplySteps-IsConserved n (next st x) v =
    SupplyStep-IsConserved n x (SupplySteps-IsConserved n st v)

length-replicate {ℓ} : {A : Type ℓ} (n : ℕ) (x : A) → length (replicate n x) ≡ n
length-replicate zero x = refl
length-replicate (suc n) x = ap suc (length-replicate n x)

-- No guest holds a memory yet.
abbrev pub new_supply : ℕ → ℕ → Supply
new_supply limit pool_size = record { pool = new_pool limit pool_size; live = [] }

-- However memories are granted, grown and dropped, the memories of a pool of `pool_size > 0` that wait
-- in it and those that guests hold are together always `pool_size`, and all of the latter go back.
pub pool-IsConserved :
    (limit pool_size : ℕ) (s : Supply)
    → 1 ≤ pool_size
    → SupplySteps (new_supply limit pool_size) s
    → IsConserved pool_size s
unfolding new_pool
pool-IsConserved limit pool_size s pos st =
    let zeroed : List ℕ = replicate limit 0 in
    let some_pool : ltb 0 pool_size ≡ true = ground arith in
    SupplySteps-IsConserved pool_size st (record {
      kept = (
        replicate pool_size zeroed,
        rw some_pool refl,
        omega (arith, length-replicate pool_size zeroed),
      );
      pooled = tt;
    })
