-- ===== src/Bridge/OnWorker.antt =====
-- The bridge of wapod-pherry/src/bridge.rs together with the worker that it drives: its calls of the
-- worker's RPC client are the operations of wapod/src/prpc_service.rs. The chain, the downloader and
-- the worker's store of blobs are a world `E` of their own, on which the other calls act; it also says
-- at which instant a call runs, what session an app gets, and which instances come up.
pub mod Convergence
use wapo.Prelude.{
  ℕ, ◌==◌, ◌≡◌, refl, sym, subst, ◌∙◌, ap, ◌⊎◌, inl, inr, List, [], map, Option, none, some, Bool,
  true, false, ◌||◌, ◌&&◌, not, Option-cases, arith,
}
use wapo.Prelude.Calls.{Call, ◌>>=◌, return}
use wapo.Prelude.Result.{Result, Result-cases, ok, err}
use wapo.Worker.{WorkerState, AppState, AppManifest}
use wapo.Worker.Instances.{M, Launch}
use wapo.Worker.Apps.{deploy_app, take_out_app}
use wapo.Worker.Apps.Keys.{has_app, deploy_app-Adds, take_out_app-keeps, take_out_app-none}
use wapo.Worker.Reads.{worker_info}
use wapo.Worker.Rpc.{
  RpcError, no_worker_session, lift, app_deploy, app_remove, app_remove_all, app_list, worker_init,
  set_bench,
}
use wapo.Bridge
use wapo.Bridge.{Error, Services, BridgeState, call_failed}
use wapo.Bridge.Plan.{collect}
use wapo.Bridge.Apply.{apply_plan, contains_key}
use wapo.Bridge.Apply.Quiet.{IsWorker}
use wapo.Bridge.Apply.Safety.{Keyed, apply_plan-spares}

abbrev pub u32_max : ℕ
u32_max = 0xffff_ffff

-- What the world outside of worker and bridge decides.
pub record Surroundings (E : Type 0) : Type 0 where
  pub services : Services AppManifest E
  pub launch : E → Launch
  pub now : E → ℕ
  pub app_session : E → ℕ
  -- The session of a worker for a nonce and an account, and the length of a nonce.
  pub new_session : ℕ → ℕ → ℕ
  pub nonce_len : ℕ → ℕ
  pub recipient : Option ℕ
  -- The calls that query an instance, and the signed metrics.
  pub app_metrics : Call Error (WorkerState × E) (List ℕ)
  pub query_score : ℕ → Call Error (WorkerState × E) ℕ
  pub query_signed_score : ℕ → Call Error (WorkerState × E) ℕ

-- What `?` leaves of the worker.
pub lift-state :
    {A B : Type 0} (m : M A) (f : A → B) (w : WorkerState)
    → ((lift m >>= λ a. return (f a)) w).1 ≡ (m w).1
lift-state m f w = elim (Result-cases (m w).0) [
  | inl (x, r) ↦ ground arith
  | inr (x, r) ↦ ground arith
]

-- `Spared` as equations of the three tests.
spared_tests :
    (selected before after : Bool)
    → (selected ≡ true → before ≡ true → after ≡ true)
    → (after ≡ true → (before ≡ true) ⊎ (selected ≡ true))
    → (((selected && before) && not after) ≡ false)
      × (((after && not before) && not selected) ≡ false)
spared_tests true true true keep new = (refl, refl)
spared_tests true true false keep new = (sym (keep refl refl), refl)
spared_tests true false true keep new = (refl, refl)
spared_tests true false false keep new = (refl, refl)
spared_tests false true true keep new = (refl, refl)
spared_tests false true false keep new = (refl, refl)
spared_tests false false true keep new = (refl, elim (new refl) [ inl e ↦ sym e | inr e ↦ sym e ])
spared_tests false false false keep new = (refl, refl)

module _ {E : Type 0} (env : Surroundings E) where
  -- A call that does not reach the worker.
  abbrev pub elsewhere : {A : Type 0} → Call Error E A → Call Error (WorkerState × E) A
  elsewhere m (w, e) = let (r, e') = m e in (r, (w, e'))

  -- An answer of the RPC client: any error is a failed call.
  abbrev pub answered :
      {A B : Type 0}
      → (A → B)
      → E
      → Result RpcError A × WorkerState
      → Result Error B × (WorkerState × E)
  answered f e (r, w) = (elim r [ ok a ↦ ok (f a) | err x ↦ err call_failed ], (w, e))

  abbrev pub bridge_info : WorkerState → Bridge.WorkerInfo
  bridge_info w = record {
    max_instances = (worker_info w).max_instances;
    session = elim (worker_info w).session [ none ↦ 0 | some s ↦ s ];
  }

  -- `get_running_apps`.
  unfoldable pub get_running_apps : Call Error (WorkerState × E) (List (ℕ × ℕ))
  unfolding app_list collect
  get_running_apps (w, e) =
      let apps = app_list (env.now e) 0 u32_max w in
      (ok (collect [] (map (λ i. (i.address, i.running_instances)) apps)), (w, e))

  unfoldable pub deploy_call : AppManifest → Bool → Call Error (WorkerState × E) ℕ
  unfolding app_deploy
  deploy_call app reuse (w, e) =
      let address = env.services.address in
      answered (λ s. address app) e
        (app_deploy (env.launch e) (env.now e) address (env.app_session e) (some app) reuse w)

  unfoldable pub remove_call : ℕ → Call Error (WorkerState × E) (Unit {0})
  unfolding app_remove
  remove_call b (w, e) = answered (λ u. u) e (app_remove (some b) w)

  -- The calls of a bridge to this worker.
  unfoldable pub on_worker : Services AppManifest (WorkerState × E)
  unfolding get_running_apps deploy_call remove_call app_remove_all set_bench worker_init
  on_worker = record {
    info = λ (w, e). (ok (bridge_info w), (w, e));
    app_list = get_running_apps;
    app_deploy = deploy_call;
    app_remove = remove_call;
    app_remove_all = λ c. answered (λ u. u) c.1 (app_remove_all c.0);
    worker_init = λ n c.
        answered (λ s. s) c.1 (worker_init env.new_session (env.nonce_len n) n env.recipient c.0);
    set_bench_app =
        λ a n c. answered (λ u. u) c.1 (set_bench (env.launch c.1) (env.now c.1) a n c.0);
    app_metrics = env.app_metrics;
    query_score = env.query_score;
    query_signed_score = env.query_signed_score;
    blob_exists = λ h. elsewhere (env.services.blob_exists h);
    blob_put = λ h b. elsewhere (env.services.blob_put h b);
    read = λ c. elsewhere (env.services.read c);
    download = λ c. elsewhere (env.services.download c);
    ticket_balance = λ t. elsewhere (env.services.ticket_balance t);
    worker_session = elsewhere env.services.worker_session;
    is_working = elsewhere env.services.is_working;
    submit_session = λ n. elsewhere (env.services.submit_session n);
    submit_score = λ b n. elsewhere (env.services.submit_score b n);
    submit_metrics = λ m c. elsewhere (env.services.submit_metrics m c);
    parse_cid = env.services.parse_cid;
    parse_manifest = env.services.parse_manifest;
    parse_score = env.services.parse_score;
    address = env.services.address;
    required_blobs = env.services.required_blobs;
  }

  -- Whether the worker has an app.
  abbrev pub runs_app : WorkerState × E → ℕ → Bool
  runs_app c a = has_app a c.0.apps

  deploy_call-Adds :
      (app : AppManifest) (reuse : Bool) (c : WorkerState × E) (a : ℕ)
      → (runs_app (deploy_call app reuse c).1 a ≡ runs_app c a)
        ⊎ (runs_app (deploy_call app reuse c).1 a
            ≡ ((env.services.address app == a) || runs_app c a))
  unfolding deploy_call app_deploy
  deploy_call-Adds app reuse (w, e) a =
      let address = env.services.address in
      let deploy : M AppState =
        deploy_app (env.launch e) address (env.now e) (env.app_session e) app true reuse in
      let after = lift-state deploy (λ i. i.session) w in
      let adds =
        deploy_app-Adds (env.launch e) address (env.now e) (env.app_session e) app true reuse w a in
      elim (Option-cases w.session) [
        | inl n ↦ inl (rw (app_deploy, n) refl)
        | inr (s, n) ↦
            let lifted : Call RpcError WorkerState ℕ = lift deploy >>= λ i. return i.session in
            let called : (deploy_call app reuse (w, e)).1.0 ≡ (lifted w).1 =
              ap
                (λ (o : Option ℕ).
                  (elim o as (λ x. Result RpcError ℕ × WorkerState) [
                    | none ↦ (err no_worker_session, w)
                    | some x ↦ lifted w
                  ]).1)
                n in
            let same : (deploy_call app reuse (w, e)).1.0 ≡ (deploy w).1 = called ∙ after in
            subst
              (λ v.
                (has_app a v.apps ≡ has_app a w.apps)
                ⊎ (has_app a v.apps ≡ ((address app == a) || has_app a w.apps)))
              (sym same) adds
      ]

  pub remove_call-state :
      (b : ℕ) (c : WorkerState × E) → (remove_call b c).1.0 ≡ (take_out_app b c.0).1
  unfolding remove_call app_remove
  remove_call-state b (w, e) = lift-state (take_out_app b) (λ app. tt) w

  pub on_worker-IsWorker : IsWorker on_worker runs_app
  unfolding on_worker
  on_worker-IsWorker = record {
    info_quiet = λ c a. refl;
    app_list_quiet = λ c a. refl;
    blob_exists_quiet = λ h c a. refl;
    blob_put_quiet = λ h b c a. refl;
    read_quiet = λ r c a. refl;
    deploy_keeps = λ app r c a h. ground (arith, deploy_call-Adds app r c a);
    deploy_other = λ app r c a h. ground (arith, deploy_call-Adds app r c a);
    remove_other = λ b c a h.
        ap (λ v. has_app a v.apps) (remove_call-state b c) ∙ take_out_app-keeps b c.0 a h;
    remove_starts_none =
        λ b c a h. ap (λ v. has_app a v.apps) (remove_call-state b c) ∙ take_out_app-none b c.0 a h;
  }

  -- Whatever the worker, the chain, the downloader and the store of blobs answer, and whichever
  -- instances come up: an app that the plan selects and that the worker has, it still has after the
  -- bridge has applied the plan to it; and an app that it has then it had before, or the plan selects
  -- it.
  pub apply_plan-on_worker :
      (self : BridgeState AppManifest) (w : WorkerState) (e : E)
      → Keyed on_worker runs_app on_worker-IsWorker self.planning_state.selected_apps
      → (a : ℕ)
      → let selected = contains_key a self.planning_state.selected_apps in
        let before = has_app a w.apps in
        let after = has_app a (apply_plan on_worker self (w, e)).1.0.apps in
        (((selected && before) && not after) ≡ false)
        × (((after && not before) && not selected) ≡ false)
  apply_plan-on_worker self w e keyed a =
      let spared = apply_plan-spares on_worker runs_app on_worker-IsWorker self (w, e) keyed a in
      spared_tests (contains_key a self.planning_state.selected_apps) (has_app a w.apps)
        (has_app a (apply_plan on_worker self (w, e)).1.0.apps) spared.0 spared.1
