-- ===== src/Tests/BridgeRuns.antt =====
-- The bridge on a small worker, and the theorems on it applied.
use wapo.Prelude.{
  ℕ, ◌+◌, ◌≡◌, ◌⊎◌, ◌≤◌, ◌%◌, refl, List, [], ◌∷◌, none, some, Bool, true, false, not, ◌&&◌, ◌==◌,
  if◌then◌else◌, length, u128_mod, All, arith,
}
use wapo.Prelude.Assoc.{find}
use wapo.Prelude.Result.{ok}
use wapo.Bridge.{any, Ticket, AppInfo, BridgeState, Services, WorkerInfo}
use wapo.Bridge.Plan.{select_apps}
use wapo.Bridge.Plan.Selection.{Placed, select_apps-best}
use wapo.Bridge.Plan.Update.{gather_apps, update_plan}
use wapo.Bridge.Plan.Entries.{app_balance}
use wapo.Bridge.Plan.Update.Balances.{total_balance, balances, gather_apps-sums}
use wapo.Bridge.Apply.{contains_key, apply_plan}
use wapo.Bridge.Apply.Quiet.{IsWorker}
use wapo.Bridge.Apply.Safety.{apply_plan-spares}

-- A worker that is the map of its apps with their instances; an app is its own address, its
-- manifest, and needs one blob.
unfoldable drop_key : ℕ → List (ℕ × ℕ) → List (ℕ × ℕ)
drop_key b [] = []
drop_key b ((k, n) ∷ m) = if k == b then drop_key b m else (k, n) ∷ drop_key b m

abbrev Running : Type 0
Running = List (ℕ × ℕ)

abbrev small_info : WorkerInfo
small_info = record { max_instances = 4; session = 1 }

unfoldable small : Services ℕ Running
unfolding drop_key
small = record {
  info = λ w. (ok small_info, w);
  app_list = λ w. (ok w, w);
  app_deploy = λ app r w. (ok app, (app, 1) ∷ w);
  app_remove = λ b w. (ok tt, drop_key b w);
  app_remove_all = λ w. (ok tt, []);
  worker_init = λ n w. (ok n, w);
  set_bench_app = λ a n w. (ok tt, w);
  app_metrics = λ w. (ok [], w);
  query_score = λ a w. (ok 0, w);
  query_signed_score = λ a w. (ok 0, w);
  blob_exists = λ h w. (ok false, w);
  blob_put = λ h b w. (ok tt, w);
  read = λ c w. (ok (some c), w);
  download = λ c w. (ok true, w);
  ticket_balance = λ t w. (ok (t + 100), w);
  worker_session = λ w. (ok none, w);
  is_working = λ w. (ok true, w);
  submit_session = λ n w. (ok tt, w);
  submit_score = λ b n w. (ok tt, w);
  submit_metrics = λ m c w. (ok tt, w);
  parse_cid = λ t. some t;
  parse_manifest = λ d. some d;
  parse_score = λ s. some s;
  address = λ app. app;
  required_blobs = λ app. (app, app) ∷ [];
}

abbrev runs : Running → ℕ → Bool
runs w a = contains_key a w

runs-drop_key : (b : ℕ) (w : Running) (a : ℕ) → runs (drop_key b w) a ≡ runs w a && not (b == a)
unfolding contains_key drop_key
runs-drop_key b [] a = refl
runs-drop_key b ((k, n) ∷ w) a = ground (arith, runs-drop_key b w a)

small-IsWorker : IsWorker small runs
unfolding small contains_key
small-IsWorker = record {
  info_quiet = λ w a. refl;
  app_list_quiet = λ w a. refl;
  blob_exists_quiet = λ h w a. refl;
  blob_put_quiet = λ h b w a. refl;
  read_quiet = λ c w a. refl;
  deploy_keeps = λ app r w a h. ground arith;
  deploy_other = λ app r w a h. ground arith;
  remove_other = λ b w a h. ground (arith, runs-drop_key b w a);
  remove_starts_none = λ b w a h. ground (arith, runs-drop_key b w a);
}

abbrev ticket : ℕ → Ticket ℕ
ticket a = record { info = record { address = a; manifest_cid = a; workers = any }; manifest = a }

abbrev app : ℕ → ℕ → ℕ → AppInfo ℕ
app a id balance = record { manifest = a; associated_tickets = id ∷ []; balance = balance }

abbrev some_apps : List (ℕ × AppInfo ℕ)
some_apps = (5, app 5 1 30) ∷ (7, app 7 2 50) ∷ (8, app 8 3 40) ∷ []

abbrev some_tickets : List (ℕ × Ticket ℕ)
some_tickets = (1, ticket 5) ∷ (2, ticket 7) ∷ (3, ticket 5) ∷ []

abbrev bridge : BridgeState ℕ
bridge = record {
  worker_pubkey = 77;
  planning_state = record {
    tickets = some_tickets;
    ticket_balances = [];
    bench_app = none;
    all_apps = [];
    selected_apps = (5, app 5 1 30) ∷ (7, app 7 2 50) ∷ [];
    download_failures = [];
  };
  chain_state = record {
    tickets = [];
    worker_list_workers = [];
    bench_app_address = none;
    heartbeat_challenge = none;
  };
  config = record {
    max_apps = 2;
    metrics_interval = 60;
    gas_until_report = 1000;
    reuse_instances = true;
  };
  last_metrics_report = 0;
  init_score_reported = false;
}

abbrev running : Running
running = (7, 1) ∷ (9, 2) ∷ []

abbrev app_of_two : AppInfo ℕ
app_of_two = record { manifest = 5; associated_tickets = 1 ∷ 3 ∷ []; balance = 204 }

abbrev gathered : List (ℕ × AppInfo ℕ)
gathered = (5, app_of_two) ∷ (7, app 7 2 102) ∷ []

-- The two apps with the largest balances are selected.
selected_two : length (select_apps 2 some_apps) ≡ 2
unfolding select_apps
selected_two = refl

-- The plan takes 9 out and deploys 5.
plan_applied : (apply_plan small bridge running).1 ≡ (5, 1) ∷ (7, 1) ∷ []
unfolding apply_plan small find
plan_applied = refl

select_apps-best_example :
    length (select_apps 2 some_apps) ≤ 2 × All (Placed 2 3 (select_apps 2 some_apps)) some_apps
select_apps-best_example = select_apps-best 2 some_apps

apply_plan-spares_example :
    (contains_key 7 bridge.planning_state.selected_apps ≡ true
      → runs running 7 ≡ true
      → runs (apply_plan small bridge running).1 7 ≡ true)
    × (runs (apply_plan small bridge running).1 7 ≡ true
        → (runs running 7 ≡ true) ⊎ (contains_key 7 bridge.planning_state.selected_apps ≡ true))
unfolding small find contains_key apply_plan
apply_plan-spares_example =
    apply_plan-spares small runs small-IsWorker bridge running (refl, (refl, tt)) 7

-- The plan of three tickets for two apps: both run in the end, and 9 does not.
plan_updated : (update_plan small (bridge, running)).1.1 ≡ (5, 1) ∷ (7, 1) ∷ []
unfolding update_plan apply_plan small find
plan_updated = refl

gather_apps-sums_example :
    app_balance 5 gathered
    ≡ total_balance small 5
        (balances small (gather_apps small some_tickets [] (bridge, running)).1)
        some_tickets
      % u128_mod
unfolding gather_apps small find
gather_apps-sums_example = gather_apps-sums small 5 some_tickets gathered (bridge, running) refl
