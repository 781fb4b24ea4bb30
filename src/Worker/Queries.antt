-- ===== src/Worker/Queries.antt =====
-- wapod/src/state.rs: serving a query, from `prepare_instance_for_query` to the drop of its guard.
pub mod Ends
pub mod Choice
use wapo.Prelude.{
  ℕ, ltb, ◌==◌, if◌then◌else◌, List, [], ◌∷◌, Option, none, some, Bool, true, false, not, ◌&&◌,
  ◌||◌,
}
use wapo.Prelude.Result.{Result, ok, err}
use wapo.Worker.{
  WorkerState, AppState, AppManifest, Instance, VmHandle, Error, app_not_found, query_too_large,
  instance_not_found, get_app, set_app, on_going_query_inc, on_going_query_dec,
}
use wapo.Worker.Instances.{M, ◌>>=◌, Launch, is_nil}
use wapo.Worker.Instances.Resize.{resize_app_instances, try_inc_instances}
use wapo.Worker.Apps.{remove_instance}

-- `QueryGuard`, less its handle of the worker.
pub record QueryGuard : Type 0 where
  pub address : ℕ
  pub reuse : Bool
  pub instance_id : Option ℕ

-- The first block of `prepare_instance_for_query`: whether an instance has to be started, and the
-- guard.
unfoldable pub begin_query : ℕ → ℕ → M (Bool × QueryGuard)
unfolding on_going_query_inc
begin_query address query_size w = elim (get_app address w.apps) [
  | none ↦ (err app_not_found, w)
  | some app ↦
      if ltb app.manifest.max_query_size query_size
      then (err query_too_large, w)
      else let start_needed =
          not app.reuse_instance || (is_nil app.instances && app.manifest.on_demand) in
        let guard : QueryGuard = record {
          address = address;
          reuse = app.reuse_instance;
          instance_id = none;
        } in
        (
          ok (start_needed, guard),
          record w { apps = set_app address (on_going_query_inc app) w.apps },
        )
]

-- The match of `end_query`, once the app is found.
unfoldable pub end_found : ℕ → Option ℕ → AppState → Result Error AppState
unfolding on_going_query_dec
end_found now (some id) app = elim (remove_instance id app.instances) [
  | none ↦ err instance_not_found
  | some (i, left) ↦ ok (record app { instances = left })
]
end_found now none app =
    let (rest, app') = on_going_query_dec now app in
    if rest == 0 && app.manifest.on_demand then ok (record app' { instances = [] }) else ok app'

-- `Worker::end_query`, which the drop of a guard calls.
unfoldable pub end_query : ℕ → ℕ → Option ℕ → M Unit
unfolding end_found
end_query now address instance_id w = elim (get_app address w.apps) [
  | none ↦ (err app_not_found, w)
  | some app ↦ elim (end_found now instance_id app) [
    | err e ↦ (err e, w)
    | ok app' ↦ (ok tt, record w { apps = set_app address app' w.apps })
  ]
]

-- `drop` of a guard, whose errors are only logged.
unfoldable pub drop_guard : ℕ → QueryGuard → WorkerState → WorkerState
drop_guard now g w = (end_query now g.address g.instance_id w).1

-- The early return by `?` of `prepare_instance_for_query` drops the guard.
unfoldable pub or_drop : {A : Type 0} → ℕ → QueryGuard → M A → M A
or_drop now g m w =
    let (r, w') = m w in elim r [ ok a ↦ (ok a, w') | err e ↦ (err e, drop_guard now g w') ]

module _ (launch : Launch) (now : ℕ) where
  -- What `prepare_instance_for_query` does if an instance has to be started.
  unfoldable pub start_for_query : QueryGuard → M QueryGuard
  start_for_query g w =
      if g.reuse
      then (do
        r ← resize_app_instances launch now g.address 1 (some w.args.on_demand_connection_timeout)
        λ v. (ok g, v))
          w
      else (do
        info ← try_inc_instances launch now g.address
        λ v. (ok (record g { instance_id = info }), v))
          w

  -- `prepare_instance_for_query`, while nobody else takes the lock between its parts and every
  -- instance it starts comes up.
  unfoldable pub prepare_instance_for_query : ℕ → ℕ → M QueryGuard
  unfolding begin_query
  prepare_instance_for_query address query_size = do
    (start_needed, g) ← begin_query address query_size
    if start_needed then or_drop now g (start_for_query g) else (λ v. (ok g, v))

-- `instances.get(&id)`.
unfoldable pub get_instance : ℕ → List (ℕ × Instance) → Option Instance
get_instance sn [] = none
get_instance sn ((k, i) ∷ m) = if k == sn then some i else get_instance sn m

-- `instances.values().next()`.
unfoldable pub first_instance : List (ℕ × Instance) → Option Instance
first_instance [] = none
first_instance ((k, i) ∷ m) = some i

-- The block of `Worker::query` that chooses the instance to which the query is sent.
unfoldable pub choose_instance : QueryGuard → WorkerState → Result Error VmHandle
unfolding get_instance first_instance
choose_instance g w = elim (get_app g.address w.apps) [
  | none ↦ err app_not_found
  | some app ↦
      let found : Option Instance = elim g.instance_id [
        | some id ↦ get_instance id app.instances
        | none ↦ first_instance app.instances
      ] in
      elim found [ none ↦ err instance_not_found | some i ↦ ok i.vm_handle ]
]
