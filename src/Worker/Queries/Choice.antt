-- ===== src/Worker/Queries/Choice.antt =====
-- The instance that a query is sent to.
use wapo.Prelude.{
  if◌then◌else◌, Bool, ℕ, ◌≤◌, ◌≡◌, refl, sym, ap, ap₂, subst, ◌∙◌, List, [], ◌∷◌, some, none, true,
  false, ltb, arith, Bool-cases, inl, inr, length,
}
use wapo.Prelude.Result.{Result, ok, err}
use wapo.Worker.{
  WorkerState, AppState, Instance, Error, VmHandle, get_app, set_app, running_instances,
  on_going_query_inc, query_too_large,
}
use wapo.Worker.Instances.{◌>>=◌, Launch, is_nil}
use wapo.Worker.Instances.Resize.{resize_app_instances}
use wapo.Worker.Instances.Resize.Counts.{get_app-set_app, running-set_app}
use wapo.Worker.Instances.Resize.Outcome.{HasInstances, resize_on_demand}
use wapo.Worker.Queries.{
  QueryGuard, begin_query, or_drop, start_for_query, prepare_instance_for_query, first_instance,
  choose_instance,
}

-- The guard of a query that shares the instances of the app.
abbrev shared : ℕ → QueryGuard
shared address = record { address = address; reuse = true; instance_id = none }

first_instance-some :
    (m : List (ℕ × Instance)) → 1 ≤ length m → (i : Instance) × (first_instance m ≡ some i)
unfolding first_instance
first_instance-some [] h = absurd (omega (arith, h))
first_instance-some ((k, i) ∷ m) h = (i, refl)

choose-HasInstances :
    (address n : ℕ) (w : WorkerState)
    → 1 ≤ n
    → HasInstances address n w
    → (h : VmHandle) × (choose_instance (shared address) w ≡ ok h)
unfolding choose_instance
choose-HasInstances address n w pos (a, e, l) =
    let (i, f) = first_instance-some a.instances (omega (arith, l)) in
    (i.vm_handle, rw (e, choose_instance, f) refl)

-- An `Ok` that is not dropped comes from an `Ok` of the resize.
or_drop-then :
    (now address : ℕ) (out : Result Error (List ℕ × List VmHandle) × WorkerState) (v : WorkerState)
    (g : QueryGuard)
    → (or_drop now (shared address) (λ u. (((λ _. out) >>= λ r w. (ok (shared address), w)) u)) v).0
      ≡ ok g
    → (r : List ℕ × List VmHandle) × (out.0 ≡ ok r)
      × (g ≡ shared address)
      × ((or_drop now
            (shared address)
            (λ u. (((λ _. out) >>= λ r w. (ok (shared address), w)) u))
            v).1
          ≡ out.1)
unfolding or_drop
or_drop-then now address (ok r, w) v g e = (r, refl, cc, refl)
or_drop-then now address (err x, w) v g e = cc

begin_query-shared :
    (address query_size : ℕ) (w : WorkerState) (a : AppState) (idle : Bool)
    → get_app address w.apps ≡ some a
    → a.reuse_instance ≡ true
    → a.manifest.on_demand ≡ true
    → ltb a.manifest.max_query_size query_size ≡ false
    → is_nil a.instances ≡ idle
    → begin_query address query_size w ≡ (
      ok (idle, shared address),
      record w { apps = set_app address (on_going_query_inc a) w.apps },
    )
unfolding begin_query
begin_query-shared address query_size w a true e reuse demand small p =
    rw (e, begin_query, small, reuse, p, demand)
begin_query-shared address query_size w a false e reuse demand small p =
    rw (e, begin_query, small, reuse, p)

begin_query-large :
    (address query_size : ℕ) (w : WorkerState) (a : AppState)
    → get_app address w.apps ≡ some a
    → ltb a.manifest.max_query_size query_size ≡ true
    → begin_query address query_size w ≡ (err query_too_large, w)
unfolding begin_query
begin_query-large address query_size w a e large = rw (e, begin_query, large)

-- The guard that was prepared finds an instance.
abbrev Finds : Result Error QueryGuard × WorkerState → Type 0
Finds out = (g : QueryGuard) → out.0 ≡ ok g → (h : VmHandle) × (choose_instance g out.1 ≡ ok h)

module _ (launch : Launch) (now : ℕ) where
  then_prepare :
      ℕ → Result Error (Bool × QueryGuard) × WorkerState → Result Error QueryGuard × WorkerState
  then_prepare now out =
      ((λ _. out) >>= λ p.
      if p.0 then or_drop now p.1 (start_for_query launch now p.1) else (λ v. (ok p.1, v)))
        out.1

  start-Finds :
      (address : ℕ) (b : AppState) (w : WorkerState)
      → running_instances w.apps ≤ w.args.max_instances
      → get_app address w.apps ≡ some b
      → Finds (or_drop now (shared address) (start_for_query launch now (shared address)) w)
  unfolding start_for_query or_drop
  start-Finds address b w cap f g h =
      let t = w.args.on_demand_connection_timeout in
      let out = resize_app_instances launch now address 1 (some t) w in
      let (r, p, q, s) = or_drop-then now address out w g h in
      let (n, pos, has) = resize_on_demand launch now address 1 t b w r (omega arith) cap f p in
      let (x, c) = choose-HasInstances address n out.1 pos has in (x, ap₂ choose_instance q s ∙ c)

  prepare-Finds :
      (address query_size : ℕ) (w : WorkerState) (a : AppState)
      → running_instances w.apps ≤ w.args.max_instances
      → get_app address w.apps ≡ some a
      → a.reuse_instance ≡ true
      → a.manifest.on_demand ≡ true
      → Finds (prepare_instance_for_query launch now address query_size w)
  unfolding prepare_instance_for_query then_prepare on_going_query_inc
  prepare-Finds address query_size w a cap e reuse demand =
      let b = on_going_query_inc a in
      let w' : WorkerState = record w { apps = set_app address b w.apps } in
      let f = get_app-set_app address a b w.apps e in
      let cap' : running_instances w'.apps ≤ w.args.max_instances =
        omega (arith, running-set_app address a b w.apps e) in
      let from : (out : Result Error (Bool × QueryGuard) × WorkerState)
          → begin_query address query_size w ≡ out
          → Finds (then_prepare now out)
          → Finds (prepare_instance_for_query launch now address query_size w) =
        λ out p. subst (λ o. Finds (then_prepare now o)) (sym p) in
      elim (Bool-cases (ltb a.manifest.max_query_size query_size)) [
        | inl large ↦ from _ (begin_query-large address query_size w a e large) (λ g h. cc)
        | inr small ↦ elim (Bool-cases (is_nil a.instances)) [
          | inl idle ↦
              from _ (begin_query-shared address query_size w a true e reuse demand small idle)
                (start-Finds address b w' cap' f)
          | inr busy ↦
              from _ (begin_query-shared address query_size w a false e reuse demand small busy)
                (λ g h.
                  let q : g ≡ shared address = cc in
                  let (x, c) =
                    choose-HasInstances address (length a.instances) w' (ground arith)
                      (b, f, refl) in
                  (x, ap (λ k. choose_instance k w') q ∙ c))
        ]
      ]

  -- If no more instances run than `max_instances` allows, and `prepare_instance_for_query` answers
  -- `Ok` for an on-demand app that reuses its instances, then `query` finds an instance to send to.
  pub prepare-choose :
      (address query_size : ℕ) (w : WorkerState) (a : AppState) (g : QueryGuard)
      → running_instances w.apps ≤ w.args.max_instances
      → get_app address w.apps ≡ some a
      → a.reuse_instance ≡ true
      → a.manifest.on_demand ≡ true
      → (prepare_instance_for_query launch now address query_size w).0 ≡ ok g
      → (h : VmHandle) × (choose_instance g
            (prepare_instance_for_query launch now address query_size w).1
          ≡ ok h)
  prepare-choose address query_size w a g cap e reuse demand h =
      prepare-Finds address query_size w a cap e reuse demand g h
