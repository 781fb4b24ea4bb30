-- ===== src/Worker/Rpc.antt =====
-- wapod/src/prpc_service.rs: the operations on the worker, the checks of a query and `connect_vm`.
-- An address that does not decode is `none`; what is signed or encoded is left out of an answer.
pub mod Connect
use wapo.Prelude.{
  ℕ, zero, suc, ◌+◌, ◌*◌, ◌-◌, ◌/◌, ◌%◌, ◌^◌, ltb, leb, ◌==◌, if◌then◌else◌, List, [], ◌∷◌, Option,
  none, some, Bool, true, false, ◌||◌, length, map, take, u64_max, u64_mod,
}
use wapo.Prelude.Calls.{Call, ◌>>=◌, return, fail}
use wapo.Prelude.Result.{Result, ok, err}
use wapo.Metrics.{Metrics}
use wapo.Prices.{AppMetrics}
use wapo.Worker.{
  WorkerState, AppState, AppManifest, VmHandle, Error, get_app, app_metrics, running_instances,
}
use wapo.Worker.Instances.{M, Launch}
use wapo.Worker.Instances.Resize.{resize_app_instances}
use wapo.Worker.Apps.{deploy_app, take_out_app, init, bump_metrics_sn, set_bench_app}
use wapo.Worker.Queries.{QueryGuard, prepare_instance_for_query, get_instance, drop_guard}
use wapo.Worker.Reads.{
  sender_for, clear, AppInfo, info, list, num_instances_of, for_each_app, WorkerInfo, worker_info,
  skip,
}

pub data RpcError : Type 0 where
  worker : Error → RpcError
  salt_too_long invalid_account no_worker_session no_manifest : RpcError
  invalid_address not_found invalid_signature failed_to_decrypt : RpcError

-- `?` on an error of the worker.
abbrev pub lift : {A : Type 0} → M A → Call RpcError WorkerState A
lift m w = let (r, w') = m w in elim r [ ok a ↦ (ok a, w') | err e ↦ (err (worker e), w') ]

-- `decode_address()?`.
abbrev pub decoded : Option ℕ → Call RpcError WorkerState ℕ
decoded none = fail invalid_address
decoded (some address) = return address

-- `worker_init`, with the length of the nonce and the session that a nonce and an account give.
unfoldable pub worker_init : (ℕ → ℕ → ℕ) → ℕ → ℕ → Option ℕ → Call RpcError WorkerState ℕ
unfolding init
worker_init new_session nonce_len pnonce recipient w =
    if ltb 64 nonce_len then (err salt_too_long, w) else elim recipient [
      | none ↦ (err invalid_account, w)
      | some account ↦ lift (init (new_session pnonce account)) w
    ]

module _ (launch : Launch) (now : ℕ) where
  -- `app_deploy`, with the random session of the app.
  unfoldable pub app_deploy :
      (AppManifest → ℕ) → ℕ → Option AppManifest → Bool → Call RpcError WorkerState ℕ
  unfolding deploy_app
  app_deploy generate_address session manifest reuse_instances w = elim w.session [
    | none ↦ (err no_worker_session, w)
    | some s ↦ elim manifest [
      | none ↦ (err no_manifest, w)
      | some m ↦
          (do
            app ← lift (deploy_app launch generate_address now session m true reuse_instances)
            return app.session)
            w
    ]
  ]

  -- `Worker::resize_app_instances`, for direct calls, while every instance it starts comes up.
  unfoldable pub resize_app : ℕ → ℕ → Call RpcError WorkerState Unit
  unfolding resize_app_instances
  resize_app address count =
      lift (resize_app_instances launch now address count none) >>= λ r. return tt

  unfoldable pub app_start : Option ℕ → Call RpcError WorkerState Unit
  unfolding resize_app
  app_start address = decoded address >>= λ a. resize_app a 1

  unfoldable pub app_stop : Option ℕ → Call RpcError WorkerState Unit
  unfolding resize_app
  app_stop address = decoded address >>= λ a. resize_app a 0

  unfoldable pub app_resize : Option ℕ → ℕ → Call RpcError WorkerState ℕ
  unfolding resize_app num_instances_of
  app_resize address instances = do
    a ← decoded address
    resized ← resize_app a instances
    λ w. elim (num_instances_of a w) [ none ↦ (err not_found, w) | some n ↦ (ok n, w) ]

  -- `set_bench_app`: an address that does not decode counts as none.
  unfoldable pub set_bench : Option ℕ → ℕ → Call RpcError WorkerState Unit
  unfolding set_bench_app resize_app
  set_bench address instances w = elim address [
    | none ↦ (ok tt, set_bench_app none instances w)
    | some a ↦ resize_app a instances (set_bench_app (some a) instances w)
  ]

-- `app_remove`, but for stopping the instances of the app.
unfoldable pub app_remove : Option ℕ → Call RpcError WorkerState Unit
unfolding take_out_app
app_remove address = decoded address >>= λ a. lift (take_out_app a) >>= λ app. return tt

-- `app_remove_all`.
unfoldable pub app_remove_all : Call RpcError WorkerState Unit
unfolding clear
app_remove_all w = (ok tt, clear w)

unfoldable pub app_list : ℕ → ℕ → ℕ → WorkerState → List AppInfo
unfolding list
app_list now start count w = list now start (if ltb 0 count then count else u64_max) w

-- The metrics of an app in the answer of `app_metrics`; a duration is in nanoseconds.
unfoldable pub report : ℕ → ℕ × AppState → AppMetrics
unfolding app_metrics
report now (address, app) =
    let m = app_metrics now app in
    record {
      address = address;
      session = app.session;
      running_time_ms = (m.duration / 1_000_000) % u64_mod;
      gas_consumed = m.gas_consumed;
      network_ingress = m.net_ingress;
      network_egress = m.net_egress;
      storage_read = m.storage_read;
      storage_write = m.storage_written;
      storage_used = 0;
      memory_used = 0;
      tip = m.tip;
      starts = m.starts;
    }

-- No addresses stand for all apps.
unfoldable pub requested : List ℕ → Option (List ℕ)
requested [] = none
requested (a ∷ l) = some (a ∷ l)

-- The serial number, the session and the metrics that `app_metrics` signs. The serial
-- number is taken before the session is looked at.
unfoldable pub rpc_app_metrics :
    ℕ → Option (List ℕ) → Call RpcError WorkerState (ℕ × (ℕ × List AppMetrics))
unfolding bump_metrics_sn for_each_app report requested
rpc_app_metrics now none w = (err invalid_address, w)
rpc_app_metrics now (some addresses) w =
    let (sn, w') = bump_metrics_sn w in
    elim w'.session [
      | none ↦ (err no_worker_session, w')
      | some s ↦ (ok (sn, (s, map (report now) (for_each_app (requested addresses) w'))), w')
    ]

-- The caller of `app_query`: an empty signature and a missing one give none, and one that does not
-- decode or verify an error. `verify` is the check of a signature.
unfoldable pub query_caller : Bool → Option (Option ℕ) → (ℕ → Option ℕ) → Result RpcError (Option ℕ)
query_caller true signature verify = ok none
query_caller false none verify = err invalid_signature
query_caller false (some none) verify = ok none
query_caller false (some (some signature)) verify = elim (verify signature) [
  | none ↦ err invalid_signature
  | some caller ↦ ok (some caller)
]

-- `compat_app_version`.
unfoldable pub compat_app_version : ℕ
compat_app_version = 3 * 2 ^ 16 + 0 * 2 ^ 8 + 0

-- `Error` of the generated server, as far as `dispatch_prpc` looks at it.
pub data DispatchError : Type 0 where
  method_not_found decode_error bad_request : DispatchError

-- The status code that `dispatch_prpc` gives.
unfoldable pub dispatch_code : {A : Type 0} → Result DispatchError A → ℕ
dispatch_code (ok data_) = 200
dispatch_code (err method_not_found) = 404
dispatch_code (err decode_error) = 400
dispatch_code (err bad_request) = 400

-- What `connect_vm` answers before it connects the streams.
pub data ConnectError : Type 0 where
  bad_address no_instance no_command_sender invalid_path : ConnectError

-- `connect_vm` once the instance is prepared: the handle it sends the request to and the guard. When
-- it returns early, the guard drops.
unfoldable pub connect_prepared :
    ℕ → ℕ → Bool → Result Error QueryGuard → Call ConnectError WorkerState (VmHandle × QueryGuard)
unfolding sender_for
connect_prepared now address path_is_text (err e) w = (err no_instance, w)
connect_prepared now address path_is_text (ok guard) w = elim (sender_for address 0 w) [
  | none ↦ (err no_command_sender, drop_guard now guard w)
  | some handle ↦
      if path_is_text then (ok (handle, guard), w) else (err invalid_path, drop_guard now guard w)
]

-- `connect_vm`, up to `rocket_stream::connect`.
unfoldable pub connect_vm :
    Launch → ℕ → Option ℕ → Bool → Call ConnectError WorkerState (VmHandle × QueryGuard)
unfolding prepare_instance_for_query connect_prepared
connect_vm launch now none path_is_text w = (err bad_address, w)
connect_vm launch now (some address) path_is_text w =
    let (prepared, w') = prepare_instance_for_query launch now address 0 w in
    connect_prepared now address path_is_text prepared w'
