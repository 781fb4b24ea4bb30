-- ===== src/Host/Wakers/Counted.antt =====
-- The accounts of the wakers of wapo-host/src/runtime/async_context.rs: every clone has an owner, and a
-- guest waker that has no clone left has told the guest so.
use wapo.Prelude.{
  ℕ, ◌+◌, ◌-◌, ◌<◌, ◌==◌, ◌≡◌, refl, sym, subst, ◌∙◌, inl, inr, List, [], ◌∷◌, ◌++◌, Option, none,
  some, length, get_elem?, Option-cases, Bool-cases, arith,
}
use wapo.Prelude.Int.{ℤ, pos, negsuc}
use wapo.Host.TaskSet.{TaskSet, push_task, wake_task, drop_guest_waker}
use wapo.Host.Wakers.Arcs.{
  Arc, refs_at, alive, one_if, refs_at-new, alive-new, refs_at-clone, alive-clone, refs_at-drop,
  alive-drop, drop_arc,
}
use wapo.Host.Wakers.{
  Store, WakerData, from_id, clone_guest, drop_guest, relay_waker, wake_relay, clone_waker,
  wake_by_ref_waker, drop_waker, wake_waker, Use, clone, wake, wake_by_ref, drop, run_uses, Polls,
  get_task_cx,
}

-- One more of `p`, and one less.
abbrev pub bump : ℕ → (ℕ → ℕ) → ℕ → ℕ
bump p f x = f x + one_if (p == x)

abbrev pub unbump : ℕ → (ℕ → ℕ) → ℕ → ℕ
unbump p f x = f x - one_if (p == x)

-- How many drop events there are for a guest waker.
abbrev pub drops : ℕ → List ℤ → ℕ
drops k [] = 0
drops k (pos n ∷ es) = drops k es
drops k (negsuc n ∷ es) = one_if (n == k) + drops k es

-- How many relay wakers own a clone of the guest waker at a position.
abbrev pub uses : ℕ → List (Arc WakerData) → ℕ
uses p = alive (λ d. d.guest_waker == p)

-- The guest wakers with an id that are not free, and the drop events for it.
abbrev pub known : ℕ → Store → ℕ
known k s = alive (λ id. id == k) s.guests + drops k s.tasks.awake_wakers

-- `own` clones of guest wakers are held by functions, and `held` clones of relay wakers by functions
-- or by tokio; of each id there are `sum` guest wakers that live or whose drop is queued.
pub record Counted (own held sum : ℕ → ℕ) (s : Store) : Type 0 where
  pub guests : (x : ℕ) → refs_at s.guests x ≡ own x + uses x s.relays
  pub relays : (x : ℕ) → refs_at s.relays x ≡ held x
  pub total : (k : ℕ) → known k s ≡ sum k

drops-append :
    (k : ℕ) (es : List ℤ) (e : ℤ) → drops k (es ++ e ∷ []) ≡ drops k es + drops k (e ∷ [])
drops-append k [] (pos n) = refl
drops-append k [] (negsuc n) = omega arith
drops-append k (pos m ∷ es) e = drops-append k es e
drops-append k (negsuc m ∷ es) e = omega (arith, drops-append k es e)

wake_task-wakers :
    (task id : ℕ) (t : TaskSet) → (wake_task task id t).awake_wakers ≡ t.awake_wakers ++ pos id ∷ []
unfolding wake_task push_task
wake_task-wakers task id t = ground arith

module _ {own held sum : ℕ → ℕ} (s : Store) where
  pub from_id-Counted :
      (id : ℕ)
      → Counted own held sum s
      → Counted (bump (length s.guests) own) held (bump id sum) (from_id id s)
  unfolding from_id
  from_id-Counted id c = record {
    guests = λ x. omega (arith, c.guests x, refs_at-new id s.guests x);
    relays = c.relays;
    total = λ k. omega (arith, c.total k, alive-new (λ i. i == k) id s.guests);
  }

  pub clone_guest-Counted :
      (p : ℕ) → 0 < own p → Counted own held sum s → Counted (bump p own) held sum (clone_guest p s)
  unfolding clone_guest
  clone_guest-Counted p h c =
      let used : 0 < refs_at s.guests p = omega (arith, c.guests p) in
      record {
        guests = λ x. omega (arith, c.guests x, refs_at-clone p s.guests used x);
        relays = c.relays;
        total = λ k. omega (arith, c.total k, alive-clone p s.guests used (λ i. i == k));
      }

  pub drop_guest-Counted :
      (p : ℕ) → Counted (bump p own) held sum s → Counted own held sum (drop_guest p s)
  unfolding drop_guest drop_guest_waker
  drop_guest-Counted p c =
      let used : 0 < refs_at s.guests p = ground (arith, c.guests p) in
      let last = (drop_arc p s.guests).0 in
      record {
        guests = λ x. omega (arith, c.guests x, refs_at-drop p s.guests used x);
        relays = c.relays;
        total = λ k.
            let alive_now = alive-drop p s.guests used (λ i. i == k) in
            elim (Option-cases last) [
              | inl e ↦ ground (arith, c.total k, alive_now)
              | inr (id, e) ↦
                  ground
                    (arith, c.total k, alive_now, drops-append k s.tasks.awake_wakers (negsuc id))
            ];
      }

module _ {own held sum : ℕ → ℕ} (s : Store) where
  pub relay_waker-Counted :
      (p : ℕ)
      → Counted (bump p own) held sum s
      → Counted own (bump (length s.relays) held) sum (relay_waker p s)
  unfolding relay_waker
  relay_waker-Counted p c =
      let data_ : WakerData = record { this_task = s.this_task; guest_waker = p } in
      record {
        guests = λ x. omega (arith, c.guests x, alive-new (λ d. d.guest_waker == x) data_ s.relays);
        relays = λ x. omega (arith, c.relays x, refs_at-new data_ s.relays x);
        total = c.total;
      }

  pub clone_waker-Counted :
      (d : ℕ)
      → 0 < held d
      → Counted own held sum s
      → Counted own (bump d held) sum (clone_waker d s)
  unfolding clone_waker
  clone_waker-Counted d h c =
      let used : 0 < refs_at s.relays d = omega (arith, c.relays d) in
      record {
        guests =
            λ x. omega (arith, c.guests x, alive-clone d s.relays used (λ r. r.guest_waker == x));
        relays = λ x. omega (arith, c.relays x, refs_at-clone d s.relays used x);
        total = c.total;
      }

  wake_relay-Counted :
      (r : Option (Arc WakerData)) → Counted own held sum s → Counted own held sum (wake_relay r s)
  unfolding wake_relay
  wake_relay-Counted none c = c
  wake_relay-Counted (some r) c = elim (Option-cases (get_elem? s.guests r.value.guest_waker)) [
    | inl e ↦ rw (wake_relay, e) c
    | inr (g, e) ↦
        let task = r.value.this_task in
        rw (wake_relay, e)
          (record {
            guests = c.guests;
            relays = c.relays;
            total = λ k. ground (
              arith,
              c.total k,
              wake_task-wakers task g.value s.tasks,
              drops-append k s.tasks.awake_wakers (pos g.value),
            );
          })
  ]

  pub wake_by_ref_waker-Counted :
      (d : ℕ) → Counted own held sum s → Counted own held sum (wake_by_ref_waker d s)
  unfolding wake_by_ref_waker
  wake_by_ref_waker-Counted d c = wake_relay-Counted (get_elem? s.relays d) c

  -- The relay waker is freed, and with it the clone that it owns, or not.
  pub drop_waker-Counted :
      (d : ℕ) → Counted own (bump d held) sum s → Counted own held sum (drop_waker d s)
  unfolding drop_waker
  drop_waker-Counted d c =
      let used : 0 < refs_at s.relays d = ground (arith, c.relays d) in
      let s' = record s { relays = (drop_arc d s.relays).1 } in
      let held_now : (x : ℕ) → refs_at s'.relays x ≡ held x =
        λ x. omega (arith, c.relays x, refs_at-drop d s.relays used x) in
      elim (Option-cases (drop_arc d s.relays).0) [
        | inl e ↦
            let same : drop_waker d s ≡ s' = rw (drop_waker, e) refl in
            subst (λ t. Counted own held sum t) (sym same)
              (record {
                guests = λ x.
                    ground
                      (arith, c.guests x, alive-drop d s.relays used (λ r. r.guest_waker == x));
                relays = held_now;
                total = c.total;
              })
        | inr (r, e) ↦
            let same : drop_waker d s ≡ drop_guest r.guest_waker s' = rw (drop_waker, e) refl in
            subst (λ t. Counted own held sum t) (sym same)
              (drop_guest-Counted s' r.guest_waker (record {
                guests = λ x.
                    ground
                      (arith, c.guests x, alive-drop d s.relays used (λ r. r.guest_waker == x));
                relays = held_now;
                total = c.total;
              }))
      ]

-- The clones change from `h` to `h'` by uses of wakers that are held.
abbrev pub Walks : List Use → (ℕ → ℕ) → (ℕ → ℕ) → Type 0
Walks [] h h' = (x : ℕ) → h x ≡ h' x
Walks (clone d ∷ us) h h' = (0 < h d) × Walks us (bump d h) h'
Walks (wake d ∷ us) h h' = (0 < h d) × Walks us (unbump d h) h'
Walks (wake_by_ref d ∷ us) h h' = (0 < h d) × Walks us h h'
Walks (drop d ∷ us) h h' = (0 < h d) × Walks us (unbump d h) h'

module _ {own sum : ℕ → ℕ} where
  -- The clones counted otherwise.
  pub held_as :
      {h h' : ℕ → ℕ} (s : Store)
      → ((x : ℕ) → h x ≡ h' x)
      → Counted own h sum s
      → Counted own h' sum s
  held_as s same c = record {
    guests = c.guests;
    relays = λ x. c.relays x ∙ same x;
    total = c.total;
  }

  take_one :
      {h : ℕ → ℕ} (d : ℕ) (s : Store)
      → 0 < h d
      → Counted own h sum s
      → Counted own (bump d (unbump d h)) sum s
  take_one {h} d s p c = held_as s (λ x. back x) c
    where
      back : (x : ℕ) → h x ≡ bump d (unbump d h) x
      back x = elim (Bool-cases (d == x)) [
        | inl e ↦
            let same : d ≡ x = ground arith in
            let q : 0 < h x = subst (λ y. 0 < h y) same p in ground arith
        | inr e ↦ ground arith
      ]

  pub run_uses-Counted :
      (us : List Use) (h h' : ℕ → ℕ) (s : Store)
      → Walks us h h'
      → Counted own h sum s
      → Counted own h' sum (run_uses us s)
  unfolding run_uses wake_waker
  run_uses-Counted [] h h' s w c = held_as s w c
  run_uses-Counted (clone d ∷ us) h h' s w c =
      run_uses-Counted us (bump d h) h' (clone_waker d s) w.1 (clone_waker-Counted s d w.0 c)
  run_uses-Counted (wake d ∷ us) h h' s w c =
      let woken = wake_by_ref_waker d s in
      run_uses-Counted us (unbump d h) h' (drop_waker d woken) w.1
        (drop_waker-Counted woken d (take_one d woken w.0 (wake_by_ref_waker-Counted s d c)))
  run_uses-Counted (wake_by_ref d ∷ us) h h' s w c =
      run_uses-Counted us h h' (wake_by_ref_waker d s) w.1 (wake_by_ref_waker-Counted s d c)
  run_uses-Counted (drop d ∷ us) h h' s w c =
      run_uses-Counted us (unbump d h) h' (drop_waker d s) w.1
        (drop_waker-Counted s d (take_one d s w.0 c))

-- An object of tokio uses wakers that it holds, and the one that it is given while it is polled.
abbrev pub Behaves : {W A : Type 0} → (W → ℕ → ℕ) → Polls W A → Type 0
Behaves {W} held f = (d : ℕ) (w : W) → Walks (f d w).1 (bump d (held w)) (bump d (held (f d w).2))

module _ {W A : Type 0} (held : W → ℕ → ℕ) (own sum : ℕ → ℕ) (p : ℕ) (f : Polls W A)
    (behaves : Behaves held f) (s : Store) (w : W) where
  -- A poll uses up the guest waker that it is given.
  pub get_task_cx-Counted :
      Counted (bump p own) (held w) sum s
      → Counted own (held (get_task_cx p f (s, w)).1.1) sum (get_task_cx p f (s, w)).1.0
  unfolding get_task_cx
  get_task_cx-Counted c =
      let d = length s.relays in
      drop_waker-Counted (run_uses (f d w).1 (relay_waker p s)) d (
        run_uses-Counted (f d w).1 (bump d (held w)) (bump d (held (f d w).2)) (relay_waker p s)
          (behaves d w) (relay_waker-Counted s p c))
