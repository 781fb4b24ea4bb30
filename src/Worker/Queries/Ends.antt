-- ===== src/Worker/Queries/Ends.antt =====
-- What is left of a query once its guard is dropped.
use mathlib.Core.List.{Perm, append-nil, perm_middle}
use mathlib.Core.List.Perm
use wapo.Metrics.Total.{merge_all-perm}
use wapo.Prelude.{
  if◌then◌else◌, ℕ, suc, ◌-◌, ◌≡◌, refl, ap, subst, ◌∙◌, List, [], ◌∷◌, ◌++◌, some, none, false,
  ◌&&◌, ltb, arith, Bool-cases, inl, inr, ◌==◌,
}
use wapo.Metrics.{Metrics, merge, merge_all, to_metrics}
use wapo.Worker.{
  WorkerState, AppState, Instance, get_app, set_app, instance_metrics, app_metrics,
  on_going_query_inc, on_going_query_dec,
}
use wapo.Worker.Instances.Resize.Counts.{get_app-set_app}
use wapo.Worker.Apps.{remove_instance}
use wapo.Worker.Apps.Cleanup.{remove_instance-Split, app_metrics-Split}
use wapo.Worker.Queries.{begin_query, end_found, end_query}

merge_all-snoc :
    (init m : Metrics) (ms : List Metrics)
    → merge_all init (ms ++ m ∷ []) ≡ merge (merge_all init ms) m
unfolding merge_all
merge_all-snoc init m [] = refl
merge_all-snoc init m (x ∷ ms) = merge_all-snoc (merge init x) m ms

-- When a guard that has an instance of its own is dropped and the instance is still listed, the
-- app's metrics lose what that run had used, and the count of queries stays as it was.
pub end_query-loses :
    (now address sn : ℕ) (w : WorkerState) (a : AppState) (i : Instance)
    (left : List (ℕ × Instance))
    → get_app address w.apps ≡ some a
    → remove_instance sn a.instances ≡ some (i, left)
    → (a' : AppState) × (get_app address (end_query now address (some sn) w).1.apps ≡ some a')
      × (app_metrics now a ≡ merge (app_metrics now a') (to_metrics now i.vm_handle.meter))
      × (a'.on_going_queries ≡ a.on_going_queries)
unfolding end_query end_found app_metrics
end_query-loses now address sn w a i left e r =
    let a' : AppState = record a { instances = left } in
    let m = to_metrics now i.vm_handle.meter in
    let ms = instance_metrics now left in
    let last : Perm (m ∷ ms) (ms ++ m ∷ []) =
      Perm.symm (subst (λ l. Perm (ms ++ m ∷ []) (m ∷ l)) (append-nil ms) (perm_middle ms [])) in
    (
      a',
      rw (e, end_query, r) (get_app-set_app address a a' w.apps e),
      app_metrics-Split now sn a i left (remove_instance-Split sn a.instances left i r)
          ∙ merge_all-perm a.hist_metrics (m ∷ ms) (ms ++ m ∷ []) last
          ∙ merge_all-snoc a.hist_metrics m ms,
      refl,
    )

begin_query-state :
    (address query_size : ℕ) (w : WorkerState) (a : AppState)
    → get_app address w.apps ≡ some a
    → ltb a.manifest.max_query_size query_size ≡ false
    → (begin_query address query_size w).1
      ≡ record w { apps = set_app address (on_going_query_inc a) w.apps }
unfolding begin_query
begin_query-state address query_size w a e small = rw (e, begin_query, small)

-- The app once the last of its queries, or another one, has ended.
abbrev ended : ℕ → ℕ → AppState → AppState
ended now rest a = record a {
  on_going_queries = rest;
  last_query_done = now;
  instances = if rest == 0 && a.manifest.on_demand then [] else a.instances;
}

end_query-none :
    (now address rest : ℕ) (w : WorkerState) (a : AppState)
    → get_app address w.apps ≡ some a
    → a.on_going_queries ≡ suc rest
    → get_app address (end_query now address none w).1.apps ≡ some (ended now rest a)
unfolding end_query end_found on_going_query_dec
end_query-none now address rest w a e more =
    let some_left : (a.on_going_queries == 0) ≡ false = ground (arith, more) in
    let same : a.on_going_queries - 1 ≡ rest = omega (arith, more) in
    elim (Bool-cases (rest == 0 && a.manifest.on_demand)) [
      | inl c ↦
          rw (e, end_query, end_found, some_left, same, c) (get_app-set_app address a _ w.apps e)
      | inr c ↦
          rw (e, end_query, end_found, some_left, same, c) (get_app-set_app address a _ w.apps e)
    ]

-- A query that needs no instance of its own leaves the count of queries as it was, and stops the
-- instances of an on-demand app if no other query is on-going.
end_query-begin_query :
    (now address query_size : ℕ) (w : WorkerState) (a : AppState)
    → get_app address w.apps ≡ some a
    → ltb a.manifest.max_query_size query_size ≡ false
    → (a' : AppState) × (get_app address
          (end_query now address none (begin_query address query_size w).1).1.apps
        ≡ some a')
      × (a'.on_going_queries ≡ a.on_going_queries)
      × (a'.instances
          ≡ (if a.on_going_queries == 0 && a.manifest.on_demand then [] else a.instances))
unfolding on_going_query_inc
end_query-begin_query now address query_size w a e small =
    let b = on_going_query_inc a in
    let f = get_app-set_app address a b w.apps e in
    (
      ended now a.on_going_queries b,
      ap (λ (v : WorkerState). get_app address (end_query now address none v).1.apps)
            (begin_query-state address query_size w a e small)
          ∙ end_query-none now address a.on_going_queries
              (record w { apps = set_app address b w.apps }) b f (omega arith),
      refl,
      refl,
    )
