-- ===== src/Worker/Apps.antt =====
-- wapod/src/state.rs: deploying and removing apps, the clean-up after an instance that stopped, and
-- the session of the worker. A part of a method that holds the lock is one function.
pub mod Cleanup
pub mod Deployment
pub mod Keys
pub mod Presence
use wapo.Prelude.{
  ℕ, ◌+◌, ◌*◌, ltb, ◌==◌, if◌then◌else◌, List, [], ◌∷◌, Option, none, some, Bool, false, not, ◌&&◌,
}
use wapo.Prelude.Result.{Result, ok, err}
use wapo.Metrics.{Metrics, default_metrics, merge, to_metrics}
use wapo.Worker.{
  WorkerState, AppState, AppManifest, Instance, Error, app_not_found, unsupported_version,
  on_demand_resizable, label_too_long, manifest_too_large, app_exists, apps_deployed, get_app,
  set_app, remove_app, app_metrics,
}
use wapo.Worker.Instances.{M, ◌>>=◌, Launch, is_nil, is_none}
use wapo.Worker.Instances.Resize.{resize_app_instances}

-- `MAX_MANIFEST_SIZE`.
abbrev pub max_manifest_size : ℕ
max_manifest_size = 1024 * 16

-- The first reason for which `deploy_app` refuses a manifest.
unfoldable pub refuse_manifest : AppManifest → Option Error
refuse_manifest m =
    if not (m.version == 1)
    then some unsupported_version
    else if m.resizable && m.on_demand
    then some on_demand_resizable
    else if ltb 64 m.label_len
    then some label_too_long
    else if ltb max_manifest_size m.size_hint
    then some manifest_too_large
    else none

-- The state of a new app, with the random `session`.
unfoldable pub new_app : ℕ → ℕ → ℕ → AppManifest → Bool → Bool → AppState
new_app sn session now manifest auto_restart reuse_instances = record {
  sn = sn;
  session = session;
  manifest = manifest;
  hist_metrics = default_metrics;
  instances = [];
  on_going_queries = 0;
  last_query_done = now;
  auto_restart = auto_restart;
  reuse_instance = reuse_instances;
}

-- The block of `deploy_app` that enters the app.
unfoldable pub insert_app : ℕ → ℕ → ℕ → AppManifest → Bool → Bool → M Unit
unfolding new_app
insert_app now session address manifest auto_restart reuse_instances w =
    if not (is_none (get_app address w.apps))
    then (err app_exists, w)
    else let app = new_app w.next_app_sn session now manifest auto_restart reuse_instances in
      (ok tt, record w { apps = (address, app) ∷ w.apps; next_app_sn = w.next_app_sn + 1 })

-- The end of `deploy_app`: the app that it describes in its answer.
unfoldable pub deployed : ℕ → M AppState
deployed address w = elim (get_app address w.apps) [
  | none ↦ (err app_not_found, w)
  | some app ↦ (ok app, w)
]

-- `deploy_app`, while nobody else takes the lock between its parts and every instance it starts
-- comes up. `generate_address` is the worker's `AddressGenerator`.
unfoldable pub deploy_app :
    Launch → (AppManifest → ℕ) → ℕ → ℕ → AppManifest → Bool → Bool → M AppState
unfolding refuse_manifest
deploy_app launch generate_address now session manifest auto_restart reuse_instances w =
    elim (refuse_manifest manifest) [
      | some e ↦ (err e, w)
      | none ↦
          let address = generate_address manifest in
          let start : M Unit =
            if manifest.on_demand
            then (λ v. (ok tt, v))
            else (resize_app_instances launch now address 1 none >>= λ r v. (ok tt, v)) in
          (do
            entered ← insert_app now session address manifest auto_restart reuse_instances
            started ← start
            deployed address)
            w
    ]

-- `Worker::remove_app`, but for stopping the instances of the app that it takes out.
unfoldable pub take_out_app : ℕ → M AppState
take_out_app address w = elim (get_app address w.apps) [
  | none ↦ (err app_not_found, w)
  | some app ↦ (ok app, record w { apps = remove_app address w.apps })
]

-- `BTreeMap::remove`.
unfoldable pub remove_instance : ℕ → List (ℕ × Instance) → Option (Instance × List (ℕ × Instance))
remove_instance sn [] = none
remove_instance sn ((k, i) ∷ m) =
    let rest : Option (Instance × List (ℕ × Instance)) = elim (remove_instance sn m) [
      | none ↦ none
      | some (j, l) ↦ some (j, (k, i) ∷ l)
    ] in
    if k == sn then some (i, m) else rest

-- The task that `start_app` leaves behind, once the instance has stopped.
unfoldable pub instance_stopped : ℕ → ℕ → ℕ → WorkerState → WorkerState
unfolding remove_instance
instance_stopped now address sn w = elim (get_app address w.apps) [
  | none ↦ w
  | some app ↦ elim (remove_instance sn app.instances) [
    | none ↦ w
    | some (i, left) ↦
        let hist = merge app.hist_metrics (to_metrics now i.vm_handle.meter) in
        let app' = record app { hist_metrics = hist; instances = left } in
        record w { apps = set_app address app' w.apps }
  ]
]

-- `WorkerState::init`, with the session that `SessionUpdate::new` derived.
unfoldable pub init : ℕ → M ℕ
init session w =
    if not (is_nil w.apps)
    then (err apps_deployed, w)
    else (ok session, record w { session = some session; metrics_sn = 0 })

unfoldable pub bump_metrics_sn : WorkerState → ℕ × WorkerState
bump_metrics_sn w = let sn = w.metrics_sn + 1 in (sn, record w { metrics_sn = sn })

unfoldable pub set_bench_app : Option ℕ → ℕ → WorkerState → WorkerState
set_bench_app address instances w = record w { bench_app = address; bench_instances = instances }

-- `MetricsToken`, less its random nonce.
pub record MetricsToken : Type 0 where
  pub session : ℕ
  pub sn : ℕ

-- `AppRuntimeCalls::app_metrics` of the app at the address.
unfoldable pub app_metrics_signed : ℕ → ℕ → WorkerState → (Metrics × MetricsToken) × WorkerState
unfolding bump_metrics_sn app_metrics
app_metrics_signed now address w =
    let metrics : Metrics = elim (get_app address w.apps) [
      | none ↦ default_metrics
      | some app ↦ app_metrics now app
    ] in
    let session : ℕ = elim w.session [ none ↦ 0 | some s ↦ s ] in
    let (sn, w') = bump_metrics_sn w in ((metrics, record { session = session; sn = sn }), w')
