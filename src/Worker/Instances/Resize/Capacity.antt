-- ===== src/Worker/Instances/Resize/Capacity.antt =====
-- The limit on instances: no resize takes the worker over it.
use wapo.Prelude.{
  ℕ, ◌+◌, ◌-◌, ◌≤◌, ◌≡◌, refl, subst, ap, sym, ◌∙◌, arith, ltb, ◌==◌, List, [], ◌∷◌, Option, none,
  some, min, length, length-append, u64_max, ◌⊎◌, true, false, ltb→lt, Option-cases, inl, inr,
  Bool-cases, ◌&&◌,
}
use wapo.Prelude.Result.{Result, ok, err}
use wapo.Worker.{
  WorkerState, WorkerArgs, AppState, VmHandle, Error, app_not_found, no_available_slots, get_app,
  running_instances, available_slots,
}
use wapo.Worker.Instances.{
  ◌>>=◌, Launch, is_nil, is_none, evict, reserve_slot_if_needed, start_many,
}
use wapo.Worker.Instances.Resize.{
  option_list, first, reserved, resize_found, resize_reserved, resize_app_instances,
  try_inc_instances,
}
use wapo.Worker.Instances.Resize.Counts.{start_many-Made, running-set_app}
use wapo.Worker.Instances.Resize.Stops.{Evicted, evict-Evicted, stop_many-Stopped}

-- The limits are as they were, and no more instances run, or no more than the limit.
pub record Within (w w' : WorkerState) : Type 0 where
  pub args : w'.args ≡ w.args
  pub capacity :
      running_instances w.apps ≤ w.args.max_instances
      → running_instances w'.apps ≤ w.args.max_instances

pub Within-refl : (w : WorkerState) → Within w w
Within-refl w = record { args = refl; capacity = λ h. h }

pub Within-trans : (u v w : WorkerState) → Within u v → Within v w → Within u w
Within-trans u v w s t = record {
  args = t.args ∙ s.args;
  capacity = λ h.
      let e = ap (λ (a : WorkerArgs). a.max_instances) s.args in
      subst (λ m. running_instances w.apps ≤ m) e
        (t.capacity (subst (λ m. running_instances v.apps ≤ m) (sym e) (s.capacity h)));
}

-- The ways in which reserving a slot ends.
unfoldable pub Reserves :
    ℕ → ℕ → WorkerState → Result Error (Option VmHandle) × WorkerState → Type 0
Reserves now address w out =
    ((e : Error) × (out ≡ (err e, w)))
    ⊎ ((a : AppState) × (get_app address w.apps ≡ some a)
        × (out ≡ (ok none, w))
        × ((is_nil a.instances ≡ false) ⊎ (1 ≤ available_slots w)))
    ⊎ ((h : VmHandle) × (apps : List (ℕ × AppState)) × Evicted w.apps apps
        × (out ≡ (ok (some h), record w { apps = apps }))
        × ((a : AppState) → get_app address w.apps ≡ some a → a.instances ≡ []))

is_nil-nil {ℓ} : {A : Type ℓ} (xs : List A) → is_nil xs ≡ true → xs ≡ []
is_nil-nil [] h = refl
is_nil-nil (x ∷ xs) h = cc

pub reserve-Reserves :
    (now address : ℕ) (w : WorkerState)
    → Reserves now address w (reserve_slot_if_needed now address w)
unfolding reserve_slot_if_needed Reserves
reserve-Reserves now address w = elim (Option-cases (get_app address w.apps)) [
  | inl e ↦ inl (app_not_found, rw (e, reserve_slot_if_needed))
  | inr (a, e) ↦ elim (Bool-cases (is_nil a.instances)) [
    | inr busy ↦ inr (inl (a, e, rw (e, reserve_slot_if_needed, busy), inl busy))
    | inl idle ↦ elim (Bool-cases (ltb 0 (available_slots w))) [
      | inl room ↦
          inr (inl (a, e, rw (e, reserve_slot_if_needed, idle, room), inr (ltb→lt _ _ room)))
      | inr full ↦ elim (Option-cases (evict now w.apps)) [
        | inl p ↦ inl (no_available_slots, rw (e, reserve_slot_if_needed, idle, full, p))
        | inr ((h, apps), p) ↦ inr (
            inr (
              h,
              apps,
              evict-Evicted now w.apps apps h p,
              rw (e, reserve_slot_if_needed, idle, full, p),
              λ b f.
                  let same : a ≡ b = cc in
                  is_nil-nil b.instances
                    (subst (λ (c : AppState). is_nil c.instances ≡ true) same idle),
            ))
      ]
    ]
  ]
]

reserve-Within :
    (now address : ℕ) (w : WorkerState) → Within w (reserve_slot_if_needed now address w).1
unfolding Reserves
reserve-Within now address w = elim (reserve-Reserves now address w) [
  | inl (e, p) ↦ rw p (Within-refl w)
  | inr (inl (a, e, p, _)) ↦ rw p (Within-refl w)
  | inr (inr (h, apps, v, p, _)) ↦
      rw p (record { args = refl; capacity = λ h. omega (arith, v.frees) })
]

-- A step that only computes a value leaves the state alone.
pub then_value :
    {A B : Type 0} (f : A → B) (out : Result Error A × WorkerState) (v : WorkerState)
    → (((λ _. out) >>= λ x w. (ok (f x), w)) v).1 ≡ out.1
then_value f (ok a, w) v = refl
then_value f (err e, w) v = refl

module _ (launch : Launch) (now : ℕ) where
  start_many-Within :
      (n address : ℕ) (t : Option ℕ) (w : WorkerState)
      → n ≤ available_slots w
      → Within w (start_many launch n address t w).1
  unfolding available_slots
  start_many-Within n address t w h =
      let (made, le, s, all) = start_many-Made launch n address t w in
      record { args = s.args; capacity = λ c. omega (arith, s.total) }

  resize_found-Within :
      (address count : ℕ) (t : Option ℕ) (removed : List VmHandle) (a : AppState) (w : WorkerState)
      → get_app address w.apps ≡ some a
      → Within w (resize_found launch now address count t removed a w).1
  unfolding resize_found
  resize_found-Within address count t removed a w e =
      elim (Bool-cases (ltb (length a.instances) count)) [
        | inl less ↦ elim (Bool-cases (a.manifest.on_demand && is_none t)) [
          | inl b ↦ rw (less, resize_found, b) (Within-refl w)
          | inr b ↦
              let n = min (available_slots w) (count - length a.instances) in
              rw (less, resize_found, b)
                (subst (Within w)
                  (sym (
                    then_value (λ created. (created, removed)) (start_many launch n address t w) w))
                  (start_many-Within n address t w (omega arith)))
        ]
        | inr more ↦ elim (Bool-cases (length a.instances == count)) [
          | inl b ↦ rw (more, resize_found, b) (Within-refl w)
          | inr b ↦
              let (a', stopped, made, s) =
                stop_many-Stopped now (length a.instances - count) a (omega arith) in
              let (tail, q, l) = s.kept in
              rw (more, resize_found, b, made)
                (record {
                  args = refl;
                  capacity = λ h. omega (
                    arith,
                    running-set_app address a a' w.apps e,
                    ap length q,
                    length-append a'.instances tail,
                  );
                })
        ]
      ]

  reserved-Within :
      (address : ℕ) (t : Option ℕ) (w : WorkerState) → Within w (reserved launch now address t w).1
  unfolding reserved
  reserved-Within address none w = Within-refl w
  reserved-Within address (some t) w =
      subst (Within w) (sym (then_value option_list (reserve_slot_if_needed now address w) w))
        (reserve-Within now address w)

  resize_after :
      (address count : ℕ) (t : Option ℕ) (u : WorkerState)
      (out : Result Error (List VmHandle) × WorkerState)
      → Within u out.1
      → Within u (((λ _. out) >>= resize_reserved launch now address count t) u).1
  unfolding resize_reserved
  resize_after address count t u (err e, w) h = h
  resize_after address count t u (ok removed, w) h = elim (Option-cases (get_app address w.apps)) [
    | inl e ↦ rw (e, resize_reserved) h
    | inr (a, e) ↦
        rw (e, resize_reserved)
          (Within-trans u w _ h (resize_found-Within address count t removed a w e))
  ]

  -- Whatever a call of `resize_app_instances` answers, it leaves the limits of the worker as they are,
  -- and if no more instances ran than `max_instances` before it, then no more run after it.
  pub resize_app_instances-Within :
      (address count : ℕ) (t : Option ℕ) (w : WorkerState)
      → Within w (resize_app_instances launch now address count t w).1
  unfolding resize_app_instances
  resize_app_instances-Within address count t w =
      resize_after address count t w (reserved launch now address t w) (reserved-Within address t w)

  pub try_inc_instances-Within :
      (address : ℕ) (w : WorkerState) → Within w (try_inc_instances launch now address w).1
  unfolding try_inc_instances
  try_inc_instances-Within address w = elim (Option-cases (get_app address w.apps)) [
    | inl e ↦ rw (e, try_inc_instances) (Within-refl w)
    | inr (a, e) ↦ elim (Bool-cases (length a.instances == u64_max)) [
      | inl b ↦ rw (e, try_inc_instances, b) (Within-refl w)
      | inr b ↦
          let t = some w.args.on_demand_connection_timeout in
          rw (e, try_inc_instances, b)
            (subst (Within w)
              (sym (
                then_value (λ p. first p.0)
                  (resize_app_instances launch now address (length a.instances + 1) t w) w))
              (resize_app_instances-Within address (length a.instances + 1) t w))
    ]
  ]
