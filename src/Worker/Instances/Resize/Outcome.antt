-- ===== src/Worker/Instances/Resize/Outcome.antt =====
-- What an `Ok` of a resize means for the number of instances of the app.
use wapo.Prelude.{
  ℕ, ◌+◌, ◌-◌, ◌≤◌, ◌≡◌, refl, subst, ap, sym, ◌∙◌, arith, ltb, ◌==◌, List, [], Option, none, some,
  min, length, length-append, ◌⊎◌, true, false, inl, inr, if◌then◌else◌, Bool-cases, ◌&&◌,
}
use wapo.Prelude.Result.{Result, ok, err}
use wapo.Worker.{
  WorkerState, AppState, VmHandle, Error, on_demand_not_direct, get_app, running_instances,
  available_slots,
}
use wapo.Worker.Instances.{◌>>=◌, Launch, is_nil, is_none, reserve_slot_if_needed, start_many}
use wapo.Worker.Instances.Resize.{
  option_list, reserved, resize_found, resize_reserved, resize_app_instances,
}
use wapo.Worker.Instances.Resize.Counts.{start_many-Made, get_app-set_app}
use wapo.Worker.Instances.Resize.Stops.{stop_many-Stopped}
use wapo.Worker.Instances.Resize.Capacity.{Reserves, reserve-Reserves, then_value}

-- The number that an app with `current` instances is brought to.
unfoldable pub target : ℕ → ℕ → ℕ → ℕ
target slots current count =
    if ltb current count then current + min slots (count - current) else count

-- The app at the address is there, with `n` instances.
abbrev pub HasInstances : ℕ → ℕ → WorkerState → Type 0
HasInstances address n w =
    (a : AppState) × (get_app address w.apps ≡ some a) × (length a.instances ≡ n)

-- The app is there, and it has an instance or may have one more.
abbrev Room : ℕ → AppState → WorkerState → Type 0
Room address a w =
    (get_app address w.apps ≡ some a) × ((1 ≤ length a.instances) ⊎ (1 ≤ available_slots w))

occupied :
    (a : AppState) (w : WorkerState)
    → (is_nil a.instances ≡ false) ⊎ (1 ≤ available_slots w)
    → (1 ≤ length a.instances) ⊎ (1 ≤ available_slots w)
occupied a w (inl busy) = inl (ground arith)
occupied a w (inr room) = inr room

value_of :
    {A B : Type 0} (f : A → B) (out : Result Error A × WorkerState) (v : WorkerState) (r : B)
    → (((λ _. out) >>= λ x w. (ok (f x), w)) v).0 ≡ ok r
    → (x : A) × (out.0 ≡ ok x)
value_of f (ok a, w) v r e = (a, refl)
value_of f (err x, w) v r e = cc

module _ (launch : Launch) (now : ℕ) where
  resize_found-count :
      (address count : ℕ) (t : Option ℕ) (removed : List VmHandle) (a : AppState) (w : WorkerState)
      (r : List ℕ × List VmHandle)
      → get_app address w.apps ≡ some a
      → (resize_found launch now address count t removed a w).0 ≡ ok r
      → HasInstances address
          (target (available_slots w) (length a.instances) count)
          (resize_found launch now address count t removed a w).1
  unfolding resize_found target
  resize_found-count address count t removed a w r e =
      elim (Bool-cases (ltb (length a.instances) count)) [
        | inl less ↦ elim (Bool-cases (a.manifest.on_demand && is_none t)) [
          | inl b ↦ rw (less, resize_found, b) (λ h. cc)
          | inr b ↦
              let n = min (available_slots w) (count - length a.instances) in
              let out = start_many launch n address t w in
              let (made, le, s, all) = start_many-Made launch n address t w in
              let (a', f, p, m) = s.app a e in
              rw (less, resize_found, b)
                (λ h.
                  let (x, q) = value_of (λ created. (created, removed)) out w r h in
                  (
                    a',
                    ap (λ (v : WorkerState). get_app address v.apps)
                          (then_value (λ created. (created, removed)) out w)
                        ∙ f,
                    p ∙ ap (λ k. length a.instances + k) (all x q),
                  ))
        ]
        | inr more ↦ elim (Bool-cases (length a.instances == count)) [
          | inl b ↦ rw (more, resize_found, b) (λ h. (a, e, ground arith))
          | inr b ↦
              let (a', stopped, made, s) =
                stop_many-Stopped now (length a.instances - count) a (omega arith) in
              let (tail, q, l) = s.kept in
              rw (more, resize_found, b, made)
                (λ h. (
                  a',
                  get_app-set_app address a a' w.apps e,
                  ground (arith, ap length q, length-append a'.instances tail, l),
                ))
        ]
      ]

  reserved-count :
      (address count : ℕ) (t : Option ℕ) (removed : List VmHandle) (a : AppState) (w : WorkerState)
      (r : List ℕ × List VmHandle)
      → get_app address w.apps ≡ some a
      → (resize_reserved launch now address count t removed w).0 ≡ ok r
      → HasInstances address
          (target (available_slots w) (length a.instances) count)
          (resize_reserved launch now address count t removed w).1
  unfolding resize_reserved
  reserved-count address count t removed a w r e =
      rw (e, resize_reserved) (resize_found-count address count t removed a w r e)

  -- If a resize that is no start on demand answers `Ok`, the app has the number of instances that was
  -- asked for, or, where that is more than before, all the free slots allow.
  pub resize_direct :
      (address count : ℕ) (a : AppState) (w : WorkerState) (r : List ℕ × List VmHandle)
      → get_app address w.apps ≡ some a
      → (resize_app_instances launch now address count none w).0 ≡ ok r
      → HasInstances address
          (target (available_slots w) (length a.instances) count)
          (resize_app_instances launch now address count none w).1
  unfolding resize_app_instances
  resize_direct address count a w r e h = reserved-count address count none [] a w r e h

  -- An on-demand app is not started by a resize that is no start on demand, and nothing changes.
  resize_direct_refused :
      (address count : ℕ) (a : AppState) (w : WorkerState)
      → get_app address w.apps ≡ some a
      → a.manifest.on_demand ≡ true
      → ltb (length a.instances) count ≡ true
      → resize_app_instances launch now address count none w ≡ (err on_demand_not_direct, w)
  unfolding resize_app_instances resize_reserved
  resize_direct_refused address count a w e d less = rw (e, resize_reserved, less, resize_found, d)

  on_demand_after :
      (address count t : ℕ) (a : AppState) (u : WorkerState)
      (out : Result Error (List VmHandle) × WorkerState) (r : List ℕ × List VmHandle)
      → 1 ≤ count
      → ((w : WorkerState) (x : List VmHandle) → out ≡ (ok x, w) → Room address a w)
      → (((λ _. out) >>= resize_reserved launch now address count (some t)) u).0 ≡ ok r
      → (n : ℕ) × (1 ≤ n)
        × HasInstances address n
            (((λ _. out) >>= resize_reserved launch now address count (some t)) u).1
  unfolding target
  on_demand_after address count t a u (err e, w) r c f h = cc
  on_demand_after address count t a u (ok x, w) r c f h =
      let (e, room) = f w x refl in
      (
        target (available_slots w) (length a.instances) count,
        ground arith,
        reserved-count address count (some t) x a w r e h,
      )

  -- After a reservation that succeeded the app has an instance, or there is a free slot.
  reserved-Room :
      (address : ℕ) (a : AppState) (w : WorkerState) (x : List VmHandle) (w' : WorkerState)
      (out : Result Error (Option VmHandle) × WorkerState)
      → running_instances w.apps ≤ w.args.max_instances
      → get_app address w.apps ≡ some a
      → Reserves now address w out
      → ((λ _. out) >>= λ h v. (ok (option_list h), v)) w ≡ (ok x, w')
      → Room address a w'
  unfolding Reserves available_slots
  reserved-Room address a w x w' out cap e (inl (z, p)) = rw p (λ h. cc)
  reserved-Room address a w x w' out cap e (inr (inl (b, f, p, room))) = rw p (λ h.
      let same : b ≡ a = cc in
      let q : w ≡ w' = sym (ap (λ o. o.1) p) ∙ ap (λ o. o.1) h in
      subst (Room address a) q (
        e,
        occupied a w (
            subst (λ (c : AppState). (is_nil c.instances ≡ false) ⊎ (1 ≤ available_slots w)) same
              room),
      ))
  reserved-Room address a w x w' out cap e (inr (inr (v, apps, ev, p, idle))) = rw p (λ h.
      let q : record w { apps = apps } ≡ w' = sym (ap (λ o. o.1) p) ∙ ap (λ o. o.1) h in
      subst (Room address a) q (ev.idle address a e (idle a e), inr (omega (arith, ev.frees))))

  -- If no more instances run than `max_instances` allows, and a start on demand of at least one
  -- instance answers `Ok`, then the app has an instance, even where another app's had to be stopped
  -- to make room.
  pub resize_on_demand :
      (address count t : ℕ) (a : AppState) (w : WorkerState) (r : List ℕ × List VmHandle)
      → 1 ≤ count
      → running_instances w.apps ≤ w.args.max_instances
      → get_app address w.apps ≡ some a
      → (resize_app_instances launch now address count (some t) w).0 ≡ ok r
      → (n : ℕ) × (1 ≤ n)
        × HasInstances address n (resize_app_instances launch now address count (some t) w).1
  unfolding resize_app_instances reserved
  resize_on_demand address count t a w r c cap e h =
      on_demand_after address count t a w (reserved launch now address (some t) w) r c
        (λ w' x p.
          reserved-Room address a w x w' (reserve_slot_if_needed now address w) cap e
            (reserve-Reserves now address w) p)
        h
