-- ===== src/Guest/Wakers/Free.antt =====
-- The cached ids are vacant and distinct, whatever is interned and dropped; and interning takes a
-- vacant id.
use wapo.Prelude.{
  ℕ, suc, ◌+◌, ◌<◌, ◌≡◌, ◌≢◌, sym, ap, ◌∙◌, arith, List, [], ◌∷◌, ◌++◌, Option, none, some, length,
  set, get_elem?, All, All-append, All-map, ◌==◌, if◌then◌else◌, Bool-cases, inl, inr, ltb, leb,
  get_elem?-set_ne, get_elem?-set_self, get_elem?-length, get_elem?-snoc_self, get_elem?-snoc_ne,
  get_elem?-lt, guarded, ltb→lt, subst, Option-cases,
}
use wapo.Guest.Wakers.{
  Wakers, maybe_cache_waker_id, collect_vacant, place_waker, intern_waker, drop_waker, wake_waker,
  pop_front, max_n_wakers, max_cache_waker_ids,
}

abbrev pub Vacant : List (Option ℕ) → ℕ → Type 0
Vacant wakers id = get_elem? wakers id ≡ some none

-- The ids of a list differ from `id`; and from one another.
abbrev pub Differs : ℕ → List ℕ → Type 0
Differs id = All (λ j. j ≢ id)

abbrev pub Distinct : List ℕ → Type 0
Distinct [] = Unit
Distinct (x ∷ xs) = Differs x xs × Distinct xs

pub record IsFree (g : Wakers) : Type 0 where
  pub vacant : All (Vacant g.wakers) g.cached
  pub distinct : Distinct g.cached

Distinct-snoc : (x : ℕ) (xs : List ℕ) → Differs x xs → Distinct xs → Distinct (xs ++ x ∷ [])
Distinct-snoc x [] d h = (tt, tt)
Distinct-snoc x (y ∷ ys) d h =
    (All-append (λ j. j ≢ y) ys (x ∷ []) h.0 ((λ e. d.0 (sym e)), tt), Distinct-snoc x ys d.1 h.1)

-- A slot that is in use differs from every vacant one.
pub used-Differs :
    (wakers : List (Option ℕ)) (id w : ℕ) (ids : List ℕ)
    → get_elem? wakers id ≡ some (some w)
    → All (Vacant wakers) ids
    → Differs id ids
used-Differs wakers id w [] e v = tt
used-Differs wakers id w (j ∷ ids) e v =
    (λ h. cc (ap (get_elem? wakers) h, v.0), used-Differs wakers id w ids e v.1)

Vacant-set :
    (wakers : List (Option ℕ)) (id : ℕ) (v : Option ℕ) (ids : List ℕ)
    → Differs id ids
    → All (Vacant wakers) ids
    → All (Vacant (set wakers id v)) ids
Vacant-set wakers id v [] d h = tt
Vacant-set wakers id v (j ∷ ids) d h =
    (get_elem?-set_ne wakers id j v (λ e. d.0 (sym e)) ∙ h.0, Vacant-set wakers id v ids d.1 h.1)

-- The scan: every id that it adds is vacant, and larger than those before it.
collect_vacant-IsFree :
    (full ws : List (Option ℕ)) (id : ℕ) (ids : List ℕ)
    → ((i : ℕ) → get_elem? full (id + i) ≡ get_elem? ws i)
    → All (λ j. j < id) ids
    → All (Vacant full) ids
    → Distinct ids
    → All (Vacant full) (collect_vacant id ws ids) × Distinct (collect_vacant id ws ids)
unfolding collect_vacant
collect_vacant-IsFree full [] id ids at lt v d = (v, d)
collect_vacant-IsFree full (some w ∷ ws) id ids at lt v d =
    collect_vacant-IsFree full ws (suc id) ids (λ i. ap (get_elem? full) (omega arith) ∙ at (suc i))
      (All-map _ _ ids (λ j h. omega arith) lt) v d
collect_vacant-IsFree full (none ∷ ws) id ids at lt v d =
    let here : Vacant full id = ap (get_elem? full) (omega arith) ∙ at 0 in
    let v' = All-append (Vacant full) ids (id ∷ []) v (here, tt) in
    let d' = Distinct-snoc id ids (All-map _ _ ids (λ j h. omega arith) lt) d in
    let lt' : All (λ j. j < suc id) (ids ++ id ∷ []) =
      All-append (λ j. j < suc id) ids (id ∷ []) (All-map _ _ ids (λ j h. omega arith) lt)
        (omega arith) in
    let rest =
      collect_vacant-IsFree full ws (suc id) (ids ++ id ∷ [])
        (λ i. ap (get_elem? full) (omega arith) ∙ at (suc i)) lt' v' d' in
    elim (Bool-cases (leb max_cache_waker_ids (length ids + 1))) [
      | inl e ↦ rw e (v', d')
      | inr e ↦ rw e rest
    ]

-- The ids from which `get_free_waker_id` pops are free.
abbrev pub candidates : Wakers → List ℕ
candidates g = if length g.cached == 0 then collect_vacant 0 g.wakers [] else g.cached

candidates-IsFree :
    (g : Wakers) → IsFree g → All (Vacant g.wakers) (candidates g) × Distinct (candidates g)
candidates-IsFree g f = elim (Bool-cases (length g.cached == 0)) [
  | inl e ↦ rw e (
      collect_vacant-IsFree g.wakers g.wakers 0 [] (λ i. ap (get_elem? g.wakers) (omega arith)) tt
        tt tt)
  | inr e ↦ rw e (f.vacant, f.distinct)
]

-- What interning does to the table: a slot that no waker used holds the new one, and the others are
-- as before.
pub record Interned (waker id : ℕ) (g g' : Wakers) : Type 0 where
  pub unused : (w : ℕ) → get_elem? g.wakers id ≢ some (some w)
  pub stored : get_elem? g'.wakers id ≡ some (some waker)
  pub others : (j : ℕ) → j ≢ id → get_elem? g'.wakers j ≡ get_elem? g.wakers j
  pub free : IsFree g'

place_waker-Interned :
    (waker id : ℕ) (g g' : Wakers) (ids : List ℕ)
    → All (Vacant g.wakers) ids
    → Distinct ids
    → place_waker waker g.wakers (pop_front ids) ≡ some (id, g')
    → Interned waker id g g'
unfolding place_waker
place_waker-Interned waker id g g' [] v d e =
    let ws = g.wakers in
    let made = guarded (ltb (length ws) max_n_wakers) _ _ e in
    subst (λ p. Interned waker p.0 g p.1) made.1
      (record {
        unused = λ w h. cc (get_elem?-length ws (length ws) (omega arith), h);
        stored = get_elem?-snoc_self ws (some waker);
        others = λ j h. get_elem?-snoc_ne ws (some waker) j h;
        free = record { vacant = tt; distinct = tt };
      })
place_waker-Interned waker id g g' (i ∷ ids) v d e =
    let ws = g.wakers in
    let made = guarded (ltb i (length ws)) _ _ e in
    subst (λ p. Interned waker p.0 g p.1) made.1
      (record {
        unused = λ w h. cc (v.0, h);
        stored = get_elem?-set_self ws i (some waker) (ltb→lt i (length ws) made.0);
        others = λ j h. get_elem?-set_ne ws i j (some waker) (λ e. h (sym e));
        free = record { vacant = Vacant-set ws i (some waker) ids d.0 v.1; distinct = d.1 };
      })

-- Interning from a table whose cached ids are free takes a slot that is not in use.
pub intern_waker-Interned :
    (waker id : ℕ) (g g' : Wakers)
    → IsFree g
    → intern_waker waker g ≡ some (id, g')
    → Interned waker id g g'
unfolding intern_waker
intern_waker-Interned waker id g g' f e =
    let c = candidates-IsFree g f in place_waker-Interned waker id g g' (candidates g) c.0 c.1 e

pub drop_waker-IsFree :
    (id w : ℕ) (g : Wakers)
    → get_elem? g.wakers id ≡ some (some w)
    → IsFree g
    → IsFree (drop_waker id g)
unfolding drop_waker maybe_cache_waker_id
drop_waker-IsFree id w g e f =
    let ws = g.wakers in
    let d = used-Differs ws id w g.cached e f.vacant in
    let v = Vacant-set ws id none g.cached d f.vacant in
    let here = get_elem?-set_self ws id none (get_elem?-lt ws id (some w) e) in
    rw (e, drop_waker)
      (elim (Bool-cases (ltb (length g.cached) max_cache_waker_ids)) [
        | inl room ↦ rw room (record {
          vacant = All-append (Vacant (set ws id none)) g.cached (id ∷ []) v (here, tt);
          distinct = Distinct-snoc id g.cached d f.distinct;
        })
        | inr full ↦ rw full (record { vacant = v; distinct = f.distinct })
      ])

pub drop_waker-others :
    (id j : ℕ) (g : Wakers) → j ≢ id → get_elem? (drop_waker id g).wakers j ≡ get_elem? g.wakers j
unfolding drop_waker
drop_waker-others id j g h = elim (Option-cases (get_elem? g.wakers id)) [
  | inl e ↦ rw (e, drop_waker)
  | inr (w, e) ↦ rw (e, drop_waker) (get_elem?-set_ne g.wakers id j none (λ p. h (sym p)))
]

pub wake_waker-slot :
    (id w : ℕ) (g : Wakers) → get_elem? g.wakers id ≡ some (some w) → wake_waker id g ≡ some w
unfolding wake_waker
wake_waker-slot id w g e = rw (e, wake_waker)
