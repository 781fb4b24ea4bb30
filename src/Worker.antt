-- ===== src/Worker.antt =====
-- wapod/src/state.rs: the worker, its apps and their instances. Every operation here runs while the
-- worker's lock is held. An address is a 32-byte number. The apps are an association list whose
-- order, as that of a `HashMap`, means nothing; the instances of an app are listed by rising key, as
-- in a `BTreeMap`.
pub mod Instances
pub mod Apps
pub mod Queries
pub mod Locks
pub mod HostFilter
pub mod Reads
pub mod Rpc
pub mod Safety
use wapo.Prelude.{
  u64_mod, ℕ, ◌+◌, ◌-◌, ◌/◌, ◌*◌, ◌==◌, if◌then◌else◌, leb, List, [], ◌∷◌, ◌++◌, map, Option, none,
  some, Bool, length, min,
}
use wapo.Metrics.{Metrics, Meter, merge_all, to_metrics}

-- `AppManifest`, with the lengths that the worker reads in place of the texts.
pub record AppManifest : Type 0 where
  pub version : ℕ
  pub code_hash : ℕ
  pub max_query_size : ℕ
  pub on_demand : Bool
  pub resizable : Bool
  pub label_len : ℕ
  pub size_hint : ℕ

-- A handle reads its meter when it is asked; `meter` is what it reads.
pub record VmHandle : Type 0 where
  pub vm : ℕ
  pub meter : Meter

pub record Instance : Type 0 where
  pub sequence_number : ℕ
  pub vm_handle : VmHandle

pub record AppState : Type 0 where
  pub sn : ℕ
  pub session : ℕ
  pub manifest : AppManifest
  pub hist_metrics : Metrics
  pub instances : List (ℕ × Instance)
  pub on_going_queries : ℕ
  pub last_query_done : ℕ
  pub auto_restart : Bool
  pub reuse_instance : Bool

pub record WorkerArgs : Type 0 where
  pub instance_memory_size : ℕ
  pub max_instances : ℕ
  pub on_demand_connection_timeout : ℕ

-- `WorkerState`. The counters NEXT_APP_SN and NEXT_RUN_SN are statics of the program, and `launches`
-- counts the calls of `service.start`.
pub record WorkerState : Type 0 where
  pub apps : List (ℕ × AppState)
  pub args : WorkerArgs
  pub session : Option ℕ
  pub metrics_sn : ℕ
  pub bench_app : Option ℕ
  pub bench_instances : ℕ
  pub next_app_sn : ℕ
  pub next_run_sn : ℕ
  pub launches : ℕ

pub data Error : Type 0 where
  app_not_found instance_not_found instance_already_started start_failed : Error
  no_available_slots on_demand_not_direct too_many_instances query_too_large : Error
  unsupported_version on_demand_resizable label_too_long manifest_too_large : Error
  app_exists apps_deployed : Error
  -- The panic of `expect("BUG: instance not found")`.
  bug_no_instance : Error

-- `HashMap::get`.
unfoldable pub get_app : ℕ → List (ℕ × AppState) → Option AppState
get_app k [] = none
get_app k ((j, a) ∷ m) = if j == k then some a else get_app k m

-- A change through `get_mut`.
unfoldable pub set_app : ℕ → AppState → List (ℕ × AppState) → List (ℕ × AppState)
set_app k v [] = []
set_app k v ((j, a) ∷ m) = if j == k then (j, v) ∷ m else (j, a) ∷ set_app k v m

-- `HashMap::remove`.
unfoldable pub remove_app : ℕ → List (ℕ × AppState) → List (ℕ × AppState)
remove_app k [] = []
remove_app k ((j, a) ∷ m) = let rest = remove_app k m in if j == k then rest else (j, a) ∷ rest

abbrev pub instance_metrics : ℕ → List (ℕ × Instance) → List Metrics
instance_metrics now = map (λ e. to_metrics now e.1.vm_handle.meter)

-- `AppState::metrics` at the instant `now`.
unfoldable pub app_metrics : ℕ → AppState → Metrics
app_metrics now a = merge_all a.hist_metrics (instance_metrics now a.instances)

unfoldable pub on_going_query_inc : AppState → AppState
on_going_query_inc a = record a { on_going_queries = a.on_going_queries + 1 }

-- `-= 1` of a `usize` in a release build, where zero wraps around.
unfoldable pub on_going_query_dec : ℕ → AppState → ℕ × AppState
on_going_query_dec now a =
    let rest = if a.on_going_queries == 0 then u64_mod - 1 else a.on_going_queries - 1 in
    (rest, record a { on_going_queries = rest; last_query_done = now })

unfoldable pub running_instances : List (ℕ × AppState) → ℕ
running_instances [] = 0
running_instances ((k, a) ∷ m) = length a.instances + running_instances m

-- `max.saturating_sub(self.running_instances())`.
unfoldable pub available_slots : WorkerState → ℕ
unfolding running_instances
available_slots w = w.args.max_instances - running_instances w.apps

-- The 64 KiB pages of a memory, for a size far below the maximum of a u64.
unfoldable pub to_pages : ℕ → ℕ
to_pages size = (size + 65536 - 1) / 65536
