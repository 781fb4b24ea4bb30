-- ===== src/Worker/Locks/Exclusion.antt =====
-- The locks exclude one another, and their number is bounded.
use wapo.Prelude.{
  ℕ, ◌≤◌, ◌≡◌, ◌≢◌, refl, sym, subst, ap, ap₂, ◌∙◌, arith, ltb, ◌==◌, ==_iff, List, [], ◌∷◌, true,
  false, length, All, Bool-cases, inl, inr,
}
use wapo.Worker.Locks.{
  same_path, contains, remove_lock, try_lock, unlock, Sets, Event, starts, locks, unlocks,
  lock_step, run,
}

same_path-eq : (p q : List ℕ) → same_path p q ≡ true → p ≡ q
unfolding same_path
same_path-eq [] [] h = refl
same_path-eq [] (y ∷ ys) h = cc
same_path-eq (x ∷ xs) [] h = cc
same_path-eq (x ∷ xs) (y ∷ ys) h = elim (Bool-cases (x == y)) [
  | inl e ↦ ap₂ (λ a b. a ∷ b) ((==_iff x y).0 e) (same_path-eq xs ys (ground arith))
  | inr e ↦ ground arith
]

same_path_refl : (p : List ℕ) → same_path p p ≡ true
unfolding same_path
same_path_refl [] = refl
same_path_refl (x ∷ xs) = ground (arith, (==_iff x x).1 refl, same_path_refl xs)

contains-remove_lock :
    (p q : List ℕ) (s : List (List ℕ))
    → q ≢ p
    → contains p s ≡ true
    → contains p (remove_lock q s) ≡ true
unfolding contains remove_lock
contains-remove_lock p q [] d h = cc
contains-remove_lock p q (x ∷ xs) d h = elim (Bool-cases (same_path x q)) [
  | inl e ↦ elim (Bool-cases (same_path x p)) [
    | inl f ↦ absurd (d (sym (same_path-eq x q e) ∙ same_path-eq x p f))
    | inr f ↦ ground arith
  ]
  | inr e ↦ ground (arith, contains-remove_lock p q xs d)
]

-- An event that leaves the lock of a path to the instance that has it.
abbrev pub Spares : ℕ → List ℕ → Event → Type 0
Spares i p e = (e ≢ starts i) × (e ≢ unlocks i p)

contains-try_lock :
    (p q : List ℕ) (s : List (List ℕ)) → contains p s ≡ true → contains p (try_lock q s).1 ≡ true
unfolding try_lock contains
contains-try_lock p q s h = ground arith

contains-lock_step :
    (i : ℕ) (p : List ℕ) (e : Event) (sets : Sets)
    → Spares i p e
    → contains p (sets i) ≡ true
    → contains p (lock_step e sets i) ≡ true
unfolding lock_step try_lock unlock contains
contains-lock_step i p (starts j) sets d h = elim (Bool-cases (j == i)) [
  | inl q ↦ absurd (d.0 (ap starts ((==_iff j i).0 q)))
  | inr q ↦ rw q h
]
contains-lock_step i p (locks j path) sets d h = elim (Bool-cases (j == i)) [
  | inl q ↦
      let same : j ≡ i = (==_iff j i).0 q in
      let mine : contains p (sets j) ≡ true =
        subst (λ k. contains p (sets k) ≡ true) (sym same) h in
      rw q (contains-try_lock p path (sets j) mine)
  | inr q ↦ rw q h
]
contains-lock_step i p (unlocks j path) sets d h = elim (Bool-cases (j == i)) [
  | inl q ↦
      let same : j ≡ i = (==_iff j i).0 q in
      let mine : contains p (sets j) ≡ true =
        subst (λ k. contains p (sets k) ≡ true) (sym same) h in
      rw q (contains-remove_lock p path (sets j) (λ r. d.1 (ap₂ unlocks same r)) mine)
  | inr q ↦ rw q h
]

contains-run :
    (i : ℕ) (p : List ℕ) (es : List Event) (sets : Sets)
    → All (Spares i p) es
    → contains p (sets i) ≡ true
    → contains p (run es sets i) ≡ true
unfolding run
contains-run i p [] sets d h = h
contains-run i p (e ∷ es) sets d h =
    contains-run i p es (lock_step e sets) d.1 (contains-lock_step i p e sets d.0 h)

try_lock-contains :
    (p : List ℕ) (s : List (List ℕ)) → contains p s ≡ true → (try_lock p s).0 ≡ false
unfolding try_lock
try_lock-contains p s h = ground arith

locked :
    (p : List ℕ) (s : List (List ℕ)) → (try_lock p s).0 ≡ true → contains p (try_lock p s).1 ≡ true
unfolding try_lock contains
locked p s h = ground (arith, same_path_refl p)

-- A path that is not too long can be locked in a set that is empty.
try_lock-empty : (p : List ℕ) → length p ≤ 64 → (try_lock p []).0 ≡ true
unfolding try_lock contains
try_lock-empty p h = ground (arith, h)

-- Once a `try_lock` of a path of at most 64 bytes succeeded in an instance, every later `try_lock` of it
-- in that instance fails, whatever all instances lock and unlock in between, until that instance
-- unlocks the path or is started anew; but in an instance that is started after that, it succeeds.
pub try_lock-per_instance :
    (i j : ℕ) (p : List ℕ) (sets : Sets) (es : List Event)
    → length p ≤ 64
    → (try_lock p (sets i)).0 ≡ true
    → All (Spares i p) es
    → let later : Sets = run es (lock_step (locks i p) sets) in
      ((try_lock p (later i)).0 ≡ false) × ((try_lock p (lock_step (starts j) later j)).0 ≡ true)
unfolding lock_step
try_lock-per_instance i j p sets es short h d =
    let later : Sets = run es (lock_step (locks i p) sets) in
    let mine : (i == i) ≡ true = (==_iff i i).1 refl in
    let new : (j == j) ≡ true = (==_iff j j).1 refl in
    let taken : contains p (lock_step (locks i p) sets i) ≡ true = rw mine (locked p (sets i) h) in
    (
      try_lock-contains p (later i) (contains-run i p es (lock_step (locks i p) sets) d taken),
      rw new (try_lock-empty p short),
    )

-- No path stands twice in the list.
abbrev pub Distinct : List (List ℕ) → Type 0
Distinct [] = Unit
Distinct (p ∷ ps) = (contains p ps ≡ false) × Distinct ps

-- The paths are distinct and short, and there are at most 65 of them.
pub record IsValid (s : List (List ℕ)) : Type 0 where
  pub count : length s ≤ 65
  pub short : All (λ p. length p ≤ 64) s
  pub distinct : Distinct s

contains-remove_lock-false :
    (p q : List ℕ) (s : List (List ℕ)) → contains p s ≡ false → contains p (remove_lock q s) ≡ false
unfolding contains remove_lock
contains-remove_lock-false p q [] h = refl
contains-remove_lock-false p q (x ∷ xs) h = ground (arith, contains-remove_lock-false p q xs)

remove_lock-IsValid : (q : List ℕ) (s : List (List ℕ)) → IsValid s → IsValid (remove_lock q s)
unfolding remove_lock
remove_lock-IsValid q s v = record {
  count = omega (arith, v.count, length-remove_lock q s);
  short = short-remove_lock q s v.short;
  distinct = distinct-remove_lock q s v.distinct;
}
  where
    length-remove_lock : (q : List ℕ) (s : List (List ℕ)) → length (remove_lock q s) ≤ length s
    length-remove_lock q [] = omega arith
    length-remove_lock q (x ∷ xs) = ground (arith, length-remove_lock q xs)

    short-remove_lock :
        (q : List ℕ) (s : List (List ℕ))
        → All (λ p. length p ≤ 64) s
        → All (λ p. length p ≤ 64) (remove_lock q s)
    short-remove_lock q [] h = tt
    short-remove_lock q (x ∷ xs) h = elim (Bool-cases (same_path x q)) [
      | inl e ↦ rw (e, remove_lock) h.1
      | inr e ↦ rw (e, remove_lock) (h.0, short-remove_lock q xs h.1)
    ]

    distinct-remove_lock :
        (q : List ℕ) (s : List (List ℕ)) → Distinct s → Distinct (remove_lock q s)
    distinct-remove_lock q [] h = tt
    distinct-remove_lock q (x ∷ xs) h = elim (Bool-cases (same_path x q)) [
      | inl e ↦ rw (e, remove_lock) h.1
      | inr e ↦
          rw (e, remove_lock) (contains-remove_lock-false x q xs h.0, distinct-remove_lock q xs h.1)
    ]

try_lock-IsValid : (p : List ℕ) (s : List (List ℕ)) → IsValid s → IsValid (try_lock p s).1
unfolding try_lock
try_lock-IsValid p s v = elim (Bool-cases (ltb 64 (length p))) [
  | inl e ↦ rw (try_lock, e) v
  | inr e ↦ elim (Bool-cases (ltb 64 (length s))) [
    | inl f ↦ rw (try_lock, e, f) v
    | inr f ↦ elim (Bool-cases (contains p s)) [
      | inl g ↦ rw (try_lock, e, f, g) v
      | inr g ↦
          rw (try_lock, e, f, g)
            (record {
              count = ground arith;
              short = (ground arith, v.short);
              distinct = (g, v.distinct);
            })
    ]
  ]
]

-- From valid sets of locks, whatever the instances do, each set stays valid: at most 65 locks, none
-- twice, none of more than 64 bytes.
lock_step-IsValid :
    (e : Event) (sets : Sets)
    → ((i : ℕ) → IsValid (sets i))
    → (i : ℕ) → IsValid (lock_step e sets i)
unfolding lock_step unlock
lock_step-IsValid (starts j) sets v i = elim (Bool-cases (j == i)) [
  | inl q ↦ rw q (record { count = omega arith; short = tt; distinct = tt })
  | inr q ↦ rw q (v i)
]
lock_step-IsValid (locks j p) sets v i = elim (Bool-cases (j == i)) [
  | inl q ↦ rw q (try_lock-IsValid p (sets j) (v j))
  | inr q ↦ rw q (v i)
]
lock_step-IsValid (unlocks j p) sets v i = elim (Bool-cases (j == i)) [
  | inl q ↦ rw q (remove_lock-IsValid p (sets j) (v j))
  | inr q ↦ rw q (v i)
]
