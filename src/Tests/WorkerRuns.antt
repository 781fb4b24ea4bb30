-- ===== src/Tests/WorkerRuns.antt =====
-- A worker with two apps and room for two instances, and what happens to it.
use wapo.Prelude.{ℕ, ◌≤◌, ◌≡◌, refl, arith, List, [], ◌∷◌, none, some, true, false}
use wapo.Prelude.Result.{ok}
use wapo.Metrics.{default_meter, default_metrics, merge, to_metrics}
use wapo.Worker.{
  AppManifest, VmHandle, Instance, AppState, WorkerState, get_app, set_app, running_instances,
  available_slots, app_metrics,
}
use wapo.Worker.Instances.{
  Launch, pop_last, start_app, start_many, stop_many, reserve_slot_if_needed,
}
use wapo.Worker.Instances.Resize.{resize_reserved, resize_app_instances, try_inc_instances}
use wapo.Worker.Instances.Resize.Stops.{Stopped, stop_many-Stopped}
use wapo.Worker.Instances.Resize.Outcome.{target, HasInstances, resize_on_demand, resize_direct}
use wapo.Worker.Apps.Deployment.{deploy_app-starts}
use wapo.Prelude.{min}
use wapo.Worker.Apps.{
  refuse_manifest, deploy_app, deployed, insert_app, remove_instance, instance_stopped,
}
use wapo.Worker.Apps.Cleanup.{instance_stopped-metrics}
use wapo.Worker.Queries.{
  QueryGuard, begin_query, end_query, or_drop, start_for_query, prepare_instance_for_query,
  choose_instance,
}
use wapo.Worker.Queries.Ends.{end_query-loses}
use wapo.Worker.Queries.Choice.{prepare-choose}
use wapo.Worker.Safety.{here, next, enters, resizes}
use wapo.Worker.Safety.Capacity.{steps_capacity}

-- What a run computes with.
program : Unit {0}
unfolding deploy_app deployed insert_app get_app set_app running_instances pop_last start_app
    start_many stop_many reserve_slot_if_needed resize_reserved resize_app_instances
    try_inc_instances begin_query start_for_query or_drop prepare_instance_for_query remove_instance
program = tt

abbrev pub launch : Launch
launch n code_hash = some (record { vm = n; meter = default_meter 0 })

abbrev on_demand_manifest : AppManifest
on_demand_manifest = record {
  version = 1;
  code_hash = 11;
  max_query_size = 100;
  on_demand = true;
  resizable = false;
  label_len = 4;
  size_hint = 200;
}

abbrev resizable_manifest : AppManifest
resizable_manifest = record on_demand_manifest { on_demand = false; resizable = true }

abbrev pub run_of : ℕ → ℕ × Instance
run_of sn = (
  sn,
  record {
    sequence_number = sn;
    vm_handle = record { vm = sn; meter = record (default_meter 0) { gas_consumed = 50 } };
  },
)

abbrev idle_app : AppState
idle_app = record {
  sn = 0;
  session = 5;
  manifest = on_demand_manifest;
  hist_metrics = default_metrics;
  instances = [];
  on_going_queries = 0;
  last_query_done = 0;
  auto_restart = false;
  reuse_instance = true;
}

abbrev pub busy_app : AppState
busy_app = record idle_app {
  sn = 1;
  manifest = resizable_manifest;
  instances = run_of 0 ∷ run_of 1 ∷ [];
}

abbrev empty_worker : WorkerState
empty_worker = record {
  apps = [];
  args = record {
    instance_memory_size = 65536;
    max_instances = 2;
    on_demand_connection_timeout = 30;
  };
  session = none;
  metrics_sn = 0;
  bench_app = none;
  bench_instances = 0;
  next_app_sn = 0;
  next_run_sn = 0;
  launches = 0;
}

abbrev pub worker : WorkerState
worker = record empty_worker {
  apps = (7, idle_app) ∷ (8, busy_app) ∷ [];
  next_app_sn = 2;
  next_run_sn = 2;
  launches = 2;
}

resize_on_demand_example :
    (n : ℕ) × (1 ≤ n) × HasInstances 7 n (resize_app_instances launch 10 7 1 (some 30) worker).1
unfolding program
resize_on_demand_example =
    resize_on_demand launch 10 7 1 30 idle_app worker (2 ∷ [], (run_of 1).1.vm_handle ∷ [])
      (omega arith) (omega arith) refl refl

resize_direct_example :
    HasInstances 8
      (target (available_slots worker) 2 1)
      (resize_app_instances launch 10 8 1 none worker).1
unfolding program
resize_direct_example =
    resize_direct launch 10 8 1 busy_app worker ([], (run_of 1).1.vm_handle ∷ []) refl refl

stop_many-Stopped_example :
    (a' : AppState) × (removed : List VmHandle) × (stop_many 10 1 busy_app ≡ ok (a', removed))
    × Stopped 10 1 busy_app a' removed
stop_many-Stopped_example = stop_many-Stopped 10 1 busy_app (omega arith)

abbrev started : WorkerState
started =
    (resize_app_instances launch 10 9 1 none
      (insert_app 0 5 9 resizable_manifest false true empty_worker).1).1

steps_capacity_example :
    (started.args ≡ empty_worker.args)
    × (running_instances started.apps ≤ started.args.max_instances)
steps_capacity_example =
    steps_capacity launch empty_worker started refl
      (next (next here (enters 0 5 9 resizable_manifest false true)) (resizes 10 9 1 none))

instance_stopped-metrics_example :
    (a' : AppState) × (get_app 8 (instance_stopped 10 8 0 worker).apps ≡ some a')
    × (a'.instances ≡ run_of 1 ∷ [])
    × (app_metrics 10 a' ≡ app_metrics 10 busy_app)
unfolding get_app remove_instance
instance_stopped-metrics_example =
    instance_stopped-metrics 10 8 0 worker busy_app (run_of 0).1 (run_of 1 ∷ []) refl refl

end_query-loses_example :
    (a' : AppState) × (get_app 8 (end_query 10 8 (some 0) worker).1.apps ≡ some a')
    × (app_metrics 10 busy_app
        ≡ merge (app_metrics 10 a') (to_metrics 10 (run_of 0).1.vm_handle.meter))
    × (a'.on_going_queries ≡ 0)
unfolding get_app remove_instance
end_query-loses_example =
    end_query-loses 10 8 0 worker busy_app (run_of 0).1 (run_of 1 ∷ []) refl refl

abbrev shared_guard : QueryGuard
shared_guard = record { address = 7; reuse = true; instance_id = none }

prepare-choose_example :
    (h : VmHandle) × (choose_instance shared_guard
        (prepare_instance_for_query launch 10 7 60 worker).1
      ≡ ok h)
unfolding program
prepare-choose_example =
    prepare-choose launch 10 7 60 worker idle_app shared_guard (omega arith) refl refl refl refl

abbrev first_app : AppState
first_app = record busy_app {
  sn = 0;
  instances =
      (0, record { sequence_number = 0; vm_handle = record { vm = 0; meter = default_meter 0 } })
      ∷ [];
}

deploy_app-starts_example :
    (refuse_manifest resizable_manifest ≡ none)
    × (get_app 9 empty_worker.apps ≡ none)
    × HasInstances 9
        (min (available_slots empty_worker) 1)
        (deploy_app launch (λ m. 9) 0 5 resizable_manifest false true empty_worker).1
unfolding program
deploy_app-starts_example =
    deploy_app-starts launch (λ m. 9) 0 5 resizable_manifest false true empty_worker first_app refl
      refl
