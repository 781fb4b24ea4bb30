-- ===== src/Worker/Safety.antt =====
-- wapod/src/state.rs: everything that happens to a worker, as one relation of steps. A step is what
-- one thread does while it holds the lock.
pub mod Capacity
use wapo.Prelude.{ℕ, Option, Bool}
use wapo.Worker.{WorkerState, AppManifest}
use wapo.Worker.Instances.{Launch}
use wapo.Worker.Instances.Resize.{resize_app_instances, try_inc_instances}
use wapo.Worker.Apps.{
  insert_app, take_out_app, instance_stopped, init, app_metrics_signed, set_bench_app,
}
use wapo.Worker.Queries.{begin_query, end_query}

pub data WorkerStep (launch : Launch) (w : WorkerState) : WorkerState → Type 0 where
  enters :
      (now session address : ℕ) (manifest : AppManifest) (auto_restart reuse_instances : Bool)
      → WorkerStep launch w
          (insert_app now session address manifest auto_restart reuse_instances w).1
  takes_out : (address : ℕ) → WorkerStep launch w (take_out_app address w).1
  resizes :
      (now address count : ℕ) (time_limit : Option ℕ)
      → WorkerStep launch w (resize_app_instances launch now address count time_limit w).1
  increments : (now address : ℕ) → WorkerStep launch w (try_inc_instances launch now address w).1
  begins : (address query_size : ℕ) → WorkerStep launch w (begin_query address query_size w).1
  ends :
      (now address : ℕ) (instance_id : Option ℕ)
      → WorkerStep launch w (end_query now address instance_id w).1
  stopped : (now address sn : ℕ) → WorkerStep launch w (instance_stopped now address sn w)
  inits : (session : ℕ) → WorkerStep launch w (init session w).1
  reports : (now address : ℕ) → WorkerStep launch w (app_metrics_signed now address w).1
  benches :
      (address : Option ℕ) (instances : ℕ) → WorkerStep launch w (set_bench_app address instances w)

pub data WorkerSteps (launch : Launch) (s : WorkerState) : WorkerState → Type 0 where
  here : WorkerSteps launch s s
  next :
      {v w : WorkerState} → WorkerSteps launch s v → WorkerStep launch v w → WorkerSteps launch s w
