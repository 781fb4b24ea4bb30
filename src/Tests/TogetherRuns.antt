-- ===== src/Tests/TogetherRuns.antt =====
-- The bridge with the worker that it drives, at concrete inputs.
use wapo.Prelude.{ℕ, arith, ◌≡◌, refl, [], ◌∷◌, none, some, true, false, not, ◌&&◌}
use wapo.Prelude.Result.{ok}
use wapo.Metrics.{default_meter, default_metrics}
use wapo.Worker.{WorkerState, AppState, AppManifest}
use wapo.Worker.Apps.Keys.{has_app}
use wapo.Bridge.{Services, Ticket, AppInfo, BridgeState, any}
use wapo.Bridge.Apply.{
  contains_key, without, app_deps, ticket_deps, upload_blobs, deploy_apps, apply_plan,
}
use wapo.Bridge.OnWorker.{
  Surroundings, on_worker, deploy_call, remove_call, get_running_apps, apply_plan-on_worker,
}
use wapo.Bridge.OnWorker.Convergence.{Few, update_plan-on_worker}
use wapo.Bridge.Plan.Update.{try_resolve_deps, gather_apps, with_plan, update_plan}
use wapo.Bridge.Plan.Update.Convergence.{Updates}
use wapo.Prelude.Assoc.{find}
use wapo.Worker.{get_app, set_app}
use wapo.Worker.Instances.{start_app, start_many}
use wapo.Worker.Apps.{deploy_app, take_out_app, insert_app, deployed}
use wapo.Worker.Instances.Resize.{resize_app_instances, resize_reserved}
use wapo.Worker.Reads.{list}
use wapo.Worker.Rpc.{app_deploy, app_remove, app_list}

abbrev manifest : ℕ → AppManifest
manifest a = record {
  version = 1;
  code_hash = a;
  max_query_size = 100;
  on_demand = false;
  resizable = false;
  label_len = 4;
  size_hint = 50;
}

-- No blob is missing, and the world does not change.
abbrev calm : Services AppManifest Unit
calm = record {
  info = λ e. (ok (record { max_instances = 4; session = 1 }), e);
  app_list = λ e. (ok [], e);
  app_deploy = λ app r e. (ok 0, e);
  app_remove = λ b e. (ok tt, e);
  app_remove_all = λ e. (ok tt, e);
  worker_init = λ n e. (ok n, e);
  set_bench_app = λ a n e. (ok tt, e);
  app_metrics = λ e. (ok [], e);
  query_score = λ a e. (ok 0, e);
  query_signed_score = λ a e. (ok 0, e);
  blob_exists = λ h e. (ok true, e);
  blob_put = λ h b e. (ok tt, e);
  read = λ c e. (ok none, e);
  download = λ c e. (ok true, e);
  ticket_balance = λ t e. (ok 100, e);
  worker_session = λ e. (ok none, e);
  is_working = λ e. (ok true, e);
  submit_session = λ n e. (ok tt, e);
  submit_score = λ b n e. (ok tt, e);
  submit_metrics = λ m c e. (ok tt, e);
  parse_cid = λ t. some t;
  parse_manifest = λ d. some (manifest d);
  parse_score = λ s. some s;
  address = λ app. app.code_hash;
  required_blobs = λ app. [];
}

abbrev world : Surroundings Unit
world = record {
  services = calm;
  launch = λ e n code. some (record { vm = n; meter = default_meter 0 });
  now = λ e. 10;
  app_session = λ e. 77;
  new_session = λ n a. n;
  nonce_len = λ n. 32;
  recipient = some 1;
  app_metrics = λ c. (ok [], c);
  query_score = λ a c. (ok 0, c);
  query_signed_score = λ a c. (ok 0, c);
}

abbrev old_app : ℕ → AppState
old_app a = record {
  sn = 0;
  session = 7;
  manifest = manifest a;
  hist_metrics = default_metrics;
  instances = [];
  on_going_queries = 0;
  last_query_done = 0;
  auto_restart = true;
  reuse_instance = true;
}

abbrev busy : WorkerState
busy = record {
  apps = (7, old_app 7) ∷ (9, old_app 9) ∷ [];
  args = record {
    instance_memory_size = 1000;
    max_instances = 4;
    on_demand_connection_timeout = 10;
  };
  session = some 1;
  metrics_sn = 0;
  bench_app = none;
  bench_instances = 0;
  next_app_sn = 2;
  next_run_sn = 0;
  launches = 0;
}

abbrev planned : ℕ → ℕ → AppInfo AppManifest
planned a id = record { manifest = manifest a; associated_tickets = id ∷ []; balance = 20 }

abbrev ticket : ℕ → Ticket AppManifest
ticket a = record {
  info = record { address = a; manifest_cid = a; workers = any };
  manifest = manifest a;
}

abbrev self : BridgeState AppManifest
self = record {
  worker_pubkey = 1;
  planning_state = record {
    tickets = (1, ticket 5) ∷ (2, ticket 7) ∷ [];
    ticket_balances = [];
    bench_app = none;
    all_apps = [];
    selected_apps = (5, planned 5 1) ∷ (7, planned 7 2) ∷ [];
    download_failures = [];
  };
  chain_state = record {
    tickets = [];
    worker_list_workers = [];
    bench_app_address = none;
    heartbeat_challenge = none;
  };
  config = record {
    max_apps = 2;
    metrics_interval = 60;
    gas_until_report = 1000;
    reuse_instances = true;
  };
  last_metrics_report = 0;
  init_score_reported = false;
}

abbrev after : WorkerState
after = (apply_plan (on_worker world) self (busy, tt)).1.0

apply_plan-on_worker_example :
    (((contains_key 7 self.planning_state.selected_apps && has_app 7 busy.apps)
        && not (has_app 7 after.apps))
      ≡ false)
    × (((has_app 7 after.apps && not (has_app 7 busy.apps))
          && not (contains_key 7 self.planning_state.selected_apps))
        ≡ false)
unfolding on_worker
apply_plan-on_worker_example = apply_plan-on_worker world self busy tt (refl, (refl, tt)) 7

-- The worker has the apps 7 and 9; the plan of the two tickets deploys 5 and takes 9 out.
calls_succeed : Updates (on_worker world) (Few world) self (busy, tt)
unfolding on_worker try_resolve_deps gather_apps with_plan app_deps ticket_deps upload_blobs
    deploy_apps without find deploy_call remove_call get_running_apps app_list list app_deploy
    app_remove deploy_app take_out_app insert_app deployed get_app resize_app_instances
    resize_reserved start_many start_app set_app
calls_succeed = (omega arith, ((refl, tt), tt))

update_plan-on_worker_example :
    let ended = update_plan (on_worker world) (self, (busy, tt)) in
    (ended.0 ≡ ok tt)
    × ((a : ℕ) → has_app a ended.1.1.0.apps ≡ contains_key a ended.1.0.planning_state.selected_apps)
update_plan-on_worker_example = update_plan-on_worker world self busy tt calls_succeed
