-- ===== src/Worker/Reads.antt =====
-- The queries of `Worker` in wapod/src/state.rs that the RPC operations answer with, and `clear`.
use wapo.Prelude.{
  ℕ, zero, suc, ◌-◌, ◌/◌, List, [], ◌∷◌, Option, none, some, Bool, length, map, take,
}
use wapo.Worker.{WorkerState, AppState, VmHandle, get_app, running_instances}
use wapo.Worker.Queries.{get_instance}

-- `Worker::sender_for`.
unfoldable pub sender_for : ℕ → ℕ → WorkerState → Option VmHandle
unfolding get_instance
sender_for vmid index w = elim (get_app vmid w.apps) [
  | none ↦ none
  | some app ↦ elim (get_instance index app.instances) [ none ↦ none | some i ↦ some i.vm_handle ]
]

-- `Worker::clear`.
unfoldable pub clear : WorkerState → WorkerState
clear w = record w { apps = [] }

-- `AppInfo`, less the manifest.
pub record AppInfo : Type 0 where
  pub sn : ℕ
  pub address : ℕ
  pub session : ℕ
  pub running_instances : ℕ
  pub last_query_elapsed_secs : ℕ
  pub reuse_instances : Bool

-- `AppState::info` at the instant `now`.
unfoldable pub info : ℕ → ℕ → AppState → AppInfo
info now address a = record {
  sn = a.sn;
  address = address;
  session = a.session;
  running_instances = length a.instances;
  last_query_elapsed_secs = (now - a.last_query_done) / 1_000_000_000;
  reuse_instances = a.reuse_instance;
}

-- `Iterator::skip`.
abbrev pub skip {ℓ} : {A : Type ℓ} → ℕ → List A → List A
skip zero l = l
skip (suc n) [] = []
skip (suc n) (x ∷ l) = skip n l

-- `Worker::list`.
unfoldable pub list : ℕ → ℕ → ℕ → WorkerState → List AppInfo
unfolding info
list now start count w = map (λ e. info now e.0 e.1) (take count (skip start w.apps))

-- `Worker::num_instances_of`.
unfoldable pub num_instances_of : ℕ → WorkerState → Option ℕ
num_instances_of address w = elim (get_app address w.apps) [
  | none ↦ none
  | some app ↦ some (length app.instances)
]

-- `Worker::for_each_app`, as the apps that it calls `f` with.
unfoldable pub for_each_app : Option (List ℕ) → WorkerState → List (ℕ × AppState)
for_each_app none w = w.apps
for_each_app (some []) w = []
for_each_app (some (address ∷ addresses)) w =
    let rest = for_each_app (some addresses) w in
    elim (get_app address w.apps) [ none ↦ rest | some app ↦ (address, app) ∷ rest ]

-- The fields of `Worker::info` that the worker's state determines.
pub record WorkerInfo : Type 0 where
  pub deployed_apps : ℕ
  pub running_instances : ℕ
  pub max_instances : ℕ
  pub instance_memory_size : ℕ
  pub session : Option ℕ
  pub bench_app_address : Option ℕ
  pub bench_app_instances : ℕ

unfoldable pub worker_info : WorkerState → WorkerInfo
unfolding running_instances
worker_info w = record {
  deployed_apps = length w.apps;
  running_instances = running_instances w.apps;
  max_instances = w.args.max_instances;
  instance_memory_size = w.args.instance_memory_size;
  session = w.session;
  bench_app_address = w.bench_app;
  bench_app_instances = w.bench_instances;
}
