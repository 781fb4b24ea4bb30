-- ===== src/Host/Resources/Slots.antt =====
-- What `push` does to the table.
use wapo.Prelude.{
  ℕ, zero, suc, ◌+◌, ◌≤◌, ◌<◌, ◌≡◌, ◌≢◌, refl, sym, ap, subst, ◌∙◌, arith, leb, List, [], ◌∷◌, ◌++◌,
  Option, none, some, length, set, get_elem?, Bool-cases, inl, inr, length-set, get_elem?-set_self,
  get_elem?-set_ne, get_elem?-lt, get_elem?-length, get_elem?-snoc_self, get_elem?-snoc_ne,
  length-append, true,
}
use wapo.Prelude.Result.{ok}
use wapo.Host.Resources.{Resource, first_vacant, push_at, push, resource_id_max, i32_max}

first_vacant-slot :
    (i j : ℕ) (t : List (Option Resource))
    → first_vacant i t ≡ some j
    → (k : ℕ) × (j ≡ i + k) × (get_elem? t k ≡ some none)
unfolding first_vacant
first_vacant-slot i j [] e = cc
first_vacant-slot i j (none ∷ t) e = (0, ground arith, refl)
first_vacant-slot i j (some r ∷ t) e =
    let (k, p, q) = first_vacant-slot (suc i) j t e in (suc k, omega (arith, p), q)

first_vacant-none :
    (i k : ℕ) (t : List (Option Resource)) → first_vacant i t ≡ none → get_elem? t k ≢ some none
unfolding first_vacant
first_vacant-none i k [] e h = cc
first_vacant-none i k (none ∷ t) e h = cc
first_vacant-none i zero (some r ∷ t) e h = cc
first_vacant-none i (suc k) (some r ∷ t) e h = first_vacant-none (suc i) k t e h

-- The table after a push: the slot of the id was vacant or is new, holds the resource, and no other
-- slot has changed.
pub record Pushed (r : Resource) (id : ℕ) (t t' : List (Option Resource)) : Type 0 where
  pub small : id < resource_id_max
  pub unused : (x : Resource) → get_elem? t id ≢ some (some x)
  pub stored : get_elem? t' id ≡ some (some r)
  pub others : (j : ℕ) → j ≢ id → get_elem? t' j ≡ get_elem? t j
  pub bounded : length t' ≤ resource_id_max

push_at-Pushed :
    (o : Option ℕ) (r : Resource) (id : ℕ) (t t' : List (Option Resource))
    → length t ≤ resource_id_max
    → ((j : ℕ) → o ≡ some j → get_elem? t j ≡ some none)
    → push_at o r t ≡ (ok id, t')
    → Pushed r id t t'
unfolding push_at
push_at-Pushed (some i) r id t t' b v e =
    let here = v i refl in
    let lt = get_elem?-lt t i none here in
    let fits : leb i i32_max ≡ true = ground arith in
    let step : push_at (some i) r t ≡ (ok i, set t i (some r)) = rw (push_at, fits) in
    let same = sym step ∙ e in
    let p : i ≡ id = cc in
    let q : set t i (some r) ≡ t' = cc in
    subst (λ k. Pushed r k t t') p
      (subst (Pushed r i t) q (record {
        small = omega arith;
        unused = λ x h. cc (here, h);
        stored = get_elem?-set_self t i (some r) lt;
        others = λ j h. get_elem?-set_ne t i j (some r) (λ x. h (sym x));
        bounded = omega (arith, length-set t i (some r));
      }))
push_at-Pushed none r id t t' b v e = elim (Bool-cases (leb resource_id_max (length t))) [
  | inl f ↦ ground arith
  | inr f ↦
      let p : length t ≡ id = ground arith in
      let q : t ++ some r ∷ [] ≡ t' = ground arith in
      subst (λ k. Pushed r k t t') p
        (subst (Pushed r (length t) t) q (record {
          small = ground arith;
          unused = λ x h. cc (get_elem?-length t (length t) (omega arith), h);
          stored = get_elem?-snoc_self t (some r);
          others = λ j h. get_elem?-snoc_ne t (some r) j h;
          bounded = ground (arith, length-append t (some r ∷ []));
        }))
]

-- A push into a table of at most 8192 slots that answers an id gives the resource a slot that held
-- none, leaves all other slots as they were, and keeps the table within 8192 slots.
pub push-Pushed :
    (r : Resource) (id : ℕ) (t t' : List (Option Resource))
    → length t ≤ resource_id_max
    → push r t ≡ (ok id, t')
    → Pushed r id t t'
unfolding push
push-Pushed r id t t' b e =
    push_at-Pushed (first_vacant 0 t) r id t t' b
      (λ j h. let (k, p, q) = first_vacant-slot 0 j t h in ap (get_elem? t) (omega (arith, p)) ∙ q)
      e
