-- ===== src/Host/Wakers/Arcs.antt =====
-- The reference counts (`Arc`) of wapo-host/src/runtime/async_context.rs. An allocation is known by its
-- position in a list; it is free once its count is zero, and positions are not used again.
use wapo.Prelude.{
  ℕ, zero, suc, ◌+◌, ◌-◌, ◌<◌, ◌==◌, ltb, ◌≡◌, refl, sym, subst, inl, inr, if◌then◌else◌, List, [],
  ◌∷◌, ◌++◌, Option, none, some, Bool, ◌&&◌, length, set, get_elem?, Bool-cases, arith,
}

pub record Arc {ℓ} (A : Type ℓ) : Type ℓ where
  pub value : A
  pub refs : ℕ

abbrev pub one_if : Bool → ℕ
one_if b = if b then 1 else 0

module _ {ℓ} {A : Type ℓ} where
  -- `Arc::new`, at the position `length l`.
  unfoldable pub new_arc : A → List (Arc A) → List (Arc A)
  new_arc a l = l ++ record { value = a; refs = 1 } ∷ []

  unfoldable pub clone_arc : ℕ → List (Arc A) → List (Arc A)
  clone_arc p l = elim (get_elem? l p) [
    | none ↦ l
    | some r ↦ set l p (record r { refs = r.refs + 1 })
  ]

  -- A clone is dropped; with the last one goes the value.
  unfoldable pub drop_arc : ℕ → List (Arc A) → Option A × List (Arc A)
  drop_arc p l = elim (get_elem? l p) [
    | none ↦ (none, l)
    | some r ↦
        (if r.refs == 1 then some r.value else none, set l p (record r { refs = r.refs - 1 }))
  ]

  -- The number of clones at a position.
  abbrev pub refs_at : List (Arc A) → ℕ → ℕ
  refs_at [] x = 0
  refs_at (r ∷ l) zero = r.refs
  refs_at (r ∷ l) (suc x) = refs_at l x

  -- How many values that pass a test are not free.
  abbrev pub alive : (A → Bool) → List (Arc A) → ℕ
  alive test [] = 0
  alive test (r ∷ l) = one_if (ltb 0 r.refs && test r.value) + alive test l

  -- What a drop frees.
  abbrev pub freed : (A → Bool) → Option A → ℕ
  freed test none = 0
  freed test (some a) = one_if (test a)

  pub refs_at-get :
      (l : List (Arc A)) (p : ℕ)
      → 0 < refs_at l p
      → (r : Arc A) × (get_elem? l p ≡ some r) × (r.refs ≡ refs_at l p)
  refs_at-get [] p h = elim h [ ]
  refs_at-get (r ∷ l) zero h = (r, refl, refl)
  refs_at-get (r ∷ l) (suc p) h = refs_at-get l p h

  pub refs_at-set :
      (l : List (Arc A)) (p x : ℕ) (r v : Arc A)
      → get_elem? l p ≡ some r
      → refs_at (set l p v) x ≡ (if p == x then v.refs else refs_at l x)
  refs_at-set [] p x r v e = cc
  refs_at-set (s ∷ l) zero zero r v e = refl
  refs_at-set (s ∷ l) zero (suc x) r v e = ground arith
  refs_at-set (s ∷ l) (suc p) zero r v e = ground arith
  refs_at-set (s ∷ l) (suc p) (suc x) r v e = ground (arith, refs_at-set l p x r v e)

  pub alive-set :
      (test : A → Bool) (l : List (Arc A)) (p : ℕ) (r v : Arc A)
      → get_elem? l p ≡ some r
      → alive test (set l p v) + one_if (ltb 0 r.refs && test r.value)
        ≡ alive test l + one_if (ltb 0 v.refs && test v.value)
  alive-set test [] p r v e = cc
  alive-set test (s ∷ l) zero r v e = ground arith
  alive-set test (s ∷ l) (suc p) r v e = omega (arith, alive-set test l p r v e)

  pub refs_at-snoc :
      (l : List (Arc A)) (x : ℕ) (v : Arc A)
      → refs_at (l ++ v ∷ []) x ≡ (if length l == x then v.refs else refs_at l x)
  refs_at-snoc [] zero v = refl
  refs_at-snoc [] (suc x) v = ground arith
  refs_at-snoc (s ∷ l) zero v = ground arith
  refs_at-snoc (s ∷ l) (suc x) v = ground (arith, refs_at-snoc l x v)

  pub alive-snoc :
      (test : A → Bool) (l : List (Arc A)) (v : Arc A)
      → alive test (l ++ v ∷ []) ≡ alive test l + one_if (ltb 0 v.refs && test v.value)
  alive-snoc test [] v = omega arith
  alive-snoc test (s ∷ l) v = omega (arith, alive-snoc test l v)

  pub refs_at-length : (l : List (Arc A)) → refs_at l (length l) ≡ 0
  refs_at-length [] = refl
  refs_at-length (s ∷ l) = refs_at-length l

  pub refs_at-new :
      (a : A) (l : List (Arc A)) (x : ℕ)
      → refs_at (new_arc a l) x ≡ refs_at l x + one_if (length l == x)
  unfolding new_arc
  refs_at-new a l x =
      let fresh = refs_at-length l in
      elim (Bool-cases (length l == x)) [
        | inl e ↦
            let same : length l ≡ x = ground arith in
            let zero_at : refs_at l x ≡ 0 = subst (λ y. refs_at l y ≡ 0) same fresh in
            ground (arith, refs_at-snoc l x (record { value = a; refs = 1 }))
        | inr e ↦ ground (arith, refs_at-snoc l x (record { value = a; refs = 1 }))
      ]

  pub alive-new :
      (test : A → Bool) (a : A) (l : List (Arc A))
      → alive test (new_arc a l) ≡ alive test l + one_if (test a)
  unfolding new_arc
  alive-new test a l = alive-snoc test l (record { value = a; refs = 1 })

  module _ (p : ℕ) (l : List (Arc A)) (held : 0 < refs_at l p) where
    pub refs_at-clone : (x : ℕ) → refs_at (clone_arc p l) x ≡ refs_at l x + one_if (p == x)
    unfolding clone_arc
    refs_at-clone x =
        let (r, e, n) = refs_at-get l p held in
        let more = record r { refs = r.refs + 1 } in
        elim (Bool-cases (p == x)) [
          | inl q ↦
              let same : p ≡ x = ground arith in
              let at : refs_at l x ≡ r.refs = sym (subst (λ y. r.refs ≡ refs_at l y) same n) in
              (ground (arith, refs_at-set l p x r more e))
          | inr q ↦ (ground (arith, refs_at-set l p x r more e))
        ]

    pub alive-clone : (test : A → Bool) → alive test (clone_arc p l) ≡ alive test l
    unfolding clone_arc
    alive-clone test =
        let (r, e, n) = refs_at-get l p held in
        (ground (arith, alive-set test l p r (record r { refs = r.refs + 1 }) e))

    pub refs_at-drop : (x : ℕ) → refs_at (drop_arc p l).1 x + one_if (p == x) ≡ refs_at l x
    unfolding drop_arc
    refs_at-drop x =
        let (r, e, n) = refs_at-get l p held in
        let less = record r { refs = r.refs - 1 } in
        elim (Bool-cases (p == x)) [
          | inl q ↦
              let same : p ≡ x = ground arith in
              let at : refs_at l x ≡ r.refs = sym (subst (λ y. r.refs ≡ refs_at l y) same n) in
              (ground (arith, refs_at-set l p x r less e))
          | inr q ↦ (ground (arith, refs_at-set l p x r less e))
        ]

    pub alive-drop :
        (test : A → Bool) → alive test (drop_arc p l).1 + freed test (drop_arc p l).0 ≡ alive test l
    unfolding drop_arc
    alive-drop test =
        let (r, e, n) = refs_at-get l p held in
        (ground (arith, alive-set test l p r (record r { refs = r.refs - 1 }) e))
