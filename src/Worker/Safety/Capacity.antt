-- ===== src/Worker/Safety/Capacity.antt =====
-- No sequence of steps takes the worker over its limit on instances.
use wapo.Prelude.{
  ℕ, ◌≤◌, ◌≡◌, refl, ap, subst, sym, arith, List, [], ◌∷◌, Option, none, some, Bool, not, ltb,
  length, length-append, Option-cases, Bool-cases, inl, inr,
}
use wapo.Prelude.Result.{ok, Result-cases}
use wapo.Worker.{
  WorkerState, WorkerArgs, AppState, AppManifest, Instance, get_app, set_app, remove_app,
  running_instances, on_going_query_inc,
}
use wapo.Worker.Instances.{Launch, is_nil, is_none}
use wapo.Worker.Instances.Resize.Counts.{running-set_app}
use wapo.Worker.Instances.Resize.Capacity.{
  Within, Within-refl, Within-trans, resize_app_instances-Within, try_inc_instances-Within,
}
use wapo.Worker.Apps.{
  insert_app, new_app, take_out_app, remove_instance, instance_stopped, init, app_metrics_signed,
  bump_metrics_sn, set_bench_app,
}
use wapo.Worker.Apps.Cleanup.{remove_instance-Split}
use wapo.Worker.Queries.{begin_query, end_found, end_query}
use wapo.Worker.Safety.{
  WorkerStep, enters, takes_out, resizes, increments, begins, ends, stopped, inits, reports,
  benches, WorkerSteps, here, next,
}

-- Within the limit, for an app that is changed and has no more instances than before.
changed-Within :
    (address : ℕ) (a b : AppState) (w : WorkerState)
    → get_app address w.apps ≡ some a
    → length b.instances ≤ length a.instances
    → Within w (record w { apps = set_app address b w.apps })
changed-Within address a b w e h = record {
  args = refl;
  capacity = λ c. omega (arith, running-set_app address a b w.apps e);
}

same-Within : (w w' : WorkerState) → w'.args ≡ w.args → w'.apps ≡ w.apps → Within w w'
same-Within w w' p q = record { args = p; capacity = λ c. omega (arith, ap running_instances q) }

running-remove_app :
    (k : ℕ) (m : List (ℕ × AppState)) → running_instances (remove_app k m) ≤ running_instances m
unfolding running_instances remove_app
running-remove_app k [] = omega arith
running-remove_app k ((j, a) ∷ m) = ground (arith, running-remove_app k m)

shorter :
    (sn : ℕ) (m left : List (ℕ × Instance)) (i : Instance)
    → remove_instance sn m ≡ some (i, left)
    → length left ≤ length m
shorter sn m left i e =
    let (before, after, p, q) = remove_instance-Split sn m left i e in
    omega (
      arith,
      ap length p,
      ap length q,
      length-append before after,
      length-append before ((sn, i) ∷ after),
    )

insert_app-Within :
    (now session address : ℕ) (m : AppManifest) (auto reuse : Bool) (w : WorkerState)
    → Within w (insert_app now session address m auto reuse w).1
unfolding insert_app new_app running_instances
insert_app-Within now session address m auto reuse w =
    elim (Bool-cases (not (is_none (get_app address w.apps)))) [
      | inl e ↦ rw (insert_app, e) (Within-refl w)
      | inr e ↦ rw (insert_app, e) (record { args = refl; capacity = λ c. omega (arith, c) })
    ]

take_out_app-Within : (address : ℕ) (w : WorkerState) → Within w (take_out_app address w).1
unfolding take_out_app
take_out_app-Within address w = elim (Option-cases (get_app address w.apps)) [
  | inl e ↦ rw (take_out_app, e) (Within-refl w)
  | inr (a, e) ↦
      rw (take_out_app, e)
        (record { args = refl; capacity = λ c. omega (arith, running-remove_app address w.apps) })
]

begin_query-Within : (address size : ℕ) (w : WorkerState) → Within w (begin_query address size w).1
unfolding begin_query on_going_query_inc
begin_query-Within address size w = elim (Option-cases (get_app address w.apps)) [
  | inl e ↦ rw (begin_query, e) (Within-refl w)
  | inr (a, e) ↦ elim (Bool-cases (ltb a.manifest.max_query_size size)) [
    | inl b ↦ rw (begin_query, e, b) (Within-refl w)
    | inr b ↦ rw (begin_query, e, b) (changed-Within address a _ w e (omega arith))
  ]
]

-- A query that ends leaves no more instances.
end_found-shorter :
    (now : ℕ) (id : Option ℕ) (a b : AppState)
    → end_found now id a ≡ ok b
    → length b.instances ≤ length a.instances
unfolding end_found
end_found-shorter now none a b e = ground arith
end_found-shorter now (some sn) a b e = elim (Option-cases (remove_instance sn a.instances)) [
  | inl p ↦ ground arith
  | inr ((i, left), p) ↦ ground (arith, shorter sn a.instances left i p)
]

end_query-Within :
    (now address : ℕ) (id : Option ℕ) (w : WorkerState) → Within w (end_query now address id w).1
unfolding end_query
end_query-Within now address id w = elim (Option-cases (get_app address w.apps)) [
  | inl e ↦ rw (end_query, e) (Within-refl w)
  | inr (a, e) ↦ elim (Result-cases (end_found now id a)) [
    | inl (x, p) ↦ rw (end_query, e, p) (Within-refl w)
    | inr (b, p) ↦
        rw (end_query, e, p) (changed-Within address a b w e (end_found-shorter now id a b p))
  ]
]

instance_stopped-Within :
    (now address sn : ℕ) (w : WorkerState) → Within w (instance_stopped now address sn w)
unfolding instance_stopped
instance_stopped-Within now address sn w = elim (Option-cases (get_app address w.apps)) [
  | inl e ↦ rw (instance_stopped, e) (Within-refl w)
  | inr (a, e) ↦ elim (Option-cases (remove_instance sn a.instances)) [
    | inl p ↦ rw (instance_stopped, e, p) (Within-refl w)
    | inr ((i, left), p) ↦
        rw (instance_stopped, e, p)
          (changed-Within address a _ w e (shorter sn a.instances left i p))
  ]
]

init-Within : (session : ℕ) (w : WorkerState) → Within w (init session w).1
unfolding init
init-Within session w = elim (Bool-cases (not (is_nil w.apps))) [
  | inl e ↦ rw (init, e) (Within-refl w)
  | inr e ↦ rw (init, e) (same-Within w _ refl refl)
]

module _ (launch : Launch) where
  WorkerStep-Within : {v w : WorkerState} → WorkerStep launch v w → Within v w
  unfolding app_metrics_signed bump_metrics_sn set_bench_app
  WorkerStep-Within {v} (enters now session address m auto reuse) =
      insert_app-Within now session address m auto reuse v
  WorkerStep-Within {v} (takes_out address) = take_out_app-Within address v
  WorkerStep-Within {v} (resizes now address count t) =
      resize_app_instances-Within launch now address count t v
  WorkerStep-Within {v} (increments now address) = try_inc_instances-Within launch now address v
  WorkerStep-Within {v} (begins address size) = begin_query-Within address size v
  WorkerStep-Within {v} (ends now address id) = end_query-Within now address id v
  WorkerStep-Within {v} (stopped now address sn) = instance_stopped-Within now address sn v
  WorkerStep-Within {v} (inits session) = init-Within session v
  WorkerStep-Within {v} (reports now address) = same-Within v _ refl refl
  WorkerStep-Within {v} (benches address n) = same-Within v _ refl refl

  WorkerSteps-Within : {v w : WorkerState} → WorkerSteps launch v w → Within v w
  WorkerSteps-Within {v} here = Within-refl v
  WorkerSteps-Within {v} (next s t) =
      Within-trans v _ _ (WorkerSteps-Within s) (WorkerStep-Within t)

  -- Whatever happens to a worker that starts with no app, its limits stay what they were, and no more
  -- instances run than `max_instances`.
  pub steps_capacity :
      (v w : WorkerState)
      → v.apps ≡ []
      → WorkerSteps launch v w
      → (w.args ≡ v.args) × (running_instances w.apps ≤ w.args.max_instances)
  unfolding running_instances
  steps_capacity v w e s =
      let r = WorkerSteps-Within s in
      let none_run : running_instances v.apps ≤ v.args.max_instances =
        omega (arith, ap running_instances e) in
      (
        r.args,
        subst (λ (a : WorkerArgs). running_instances w.apps ≤ a.max_instances) (sym r.args)
            (r.capacity none_run),
      )
