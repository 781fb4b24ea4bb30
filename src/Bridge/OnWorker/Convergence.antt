-- ===== src/Bridge/OnWorker/Convergence.antt =====
-- The bridge of wapod-pherry/src/bridge.rs with the worker that it drives reaches its plan.
use wapo.Prelude.{
  ℕ, zero, suc, ◌≤◌, ◌==◌, ◌≡◌, refl, sym, ap, ◌∙◌, inl, inr, List, [], ◌∷◌, map, Option, none,
  some, Bool, true, false, ◌||◌, length, take, arith, Option-cases,
}
use wapo.Prelude.Result.{Result, Result-cases, ok, err}
use wapo.Worker.{WorkerState, AppState, AppManifest}
use wapo.Worker.Instances.{M}
use wapo.Worker.Apps.{deploy_app, take_out_app}
use wapo.Worker.Apps.Keys.{has_app}
use wapo.Worker.Apps.Presence.{deploy_app-Leaves, take_out_app-ends}
use wapo.Worker.Reads.{list, info}
use wapo.Prelude.Calls.{Call, ◌>>=◌, return}
use wapo.Worker.Rpc.{RpcError, worker, no_worker_session, lift, app_deploy, app_remove, app_list}
use wapo.Bridge.{BridgeState}
use wapo.Bridge.Plan.{collect, insert_key}
use wapo.Bridge.Plan.Update.{update_plan}
use wapo.Bridge.Plan.Update.Convergence.{Updates, update_plan-converges}
use wapo.Bridge.Apply.{contains_key}
use wapo.Bridge.Apply.Quiet.{IsHonest}
use wapo.Bridge.OnWorker.{
  Surroundings, u32_max, lift-state, remove_call-state, answered, on_worker, on_worker-IsWorker,
  runs_app, get_running_apps, deploy_call, remove_call,
}

take-all : {A : Type 0} (n : ℕ) (l : List A) → length l ≤ n → take n l ≡ l
take-all zero [] h = refl
take-all (suc n) [] h = refl
take-all zero (x ∷ l) h = let bad : ⊥ = omega (arith, h) in elim bad [ ]
take-all (suc n) (x ∷ l) h = ap (λ m. x ∷ m) (take-all n l (omega (arith, h)))

contains_key-insert_key :
    {A : Type 0} (a k : ℕ) (v : A) (m : List (ℕ × A))
    → contains_key a (insert_key k v m) ≡ (k == a) || contains_key a m
unfolding contains_key insert_key
contains_key-insert_key a k v [] = refl
contains_key-insert_key a k v ((j, b) ∷ m) = ground (arith, contains_key-insert_key a k v m)

contains_key-collect :
    {A : Type 0} (a : ℕ) (es m : List (ℕ × A))
    → contains_key a (collect m es) ≡ contains_key a m || contains_key a es
unfolding collect contains_key
contains_key-collect a [] m = ground arith
contains_key-collect a ((k, v) ∷ es) m =
    ground (arith, contains_key-collect a es (insert_key k v m), contains_key-insert_key a k v m)

-- The entries of an answer of `app_list`.
contains_key-entries :
    (now a : ℕ) (apps : List (ℕ × AppState))
    → contains_key a
        (map (λ i. (i.address, i.running_instances)) (map (λ e. info now e.0 e.1) apps))
      ≡ has_app a apps
unfolding contains_key info has_app
contains_key-entries now a [] = refl
contains_key-entries now a ((k, app) ∷ apps) =
    ap (λ b. k == a || b) (contains_key-entries now a apps)

-- A method of the worker behind an RPC succeeded if the RPC did.
lift-ok :
    {A B : Type 0} (m : M A) (f : A → B) (w : WorkerState) (x : B)
    → ((lift m >>= λ a. return (f a)) w).0 ≡ ok x
    → (a : A) × ((m w).0 ≡ ok a)
lift-ok m f w x h = elim (Result-cases (m w).0) [
  | inl (y, r) ↦
      let failed : ((lift m >>= λ a. return (f a)) w).0 ≡ err (worker y) = ground arith in cc
  | inr (a, r) ↦ (a, r)
]

module _ {E : Type 0} (env : Surroundings E) where
  answered-ok :
      {A B : Type 0} (f : A → B) (e : E) (r : Result RpcError A × WorkerState) (b : B)
      → (answered env f e r).0 ≡ ok b
      → (a : A) × (r.0 ≡ ok a)
  answered-ok f e (ok a, w) b h = (a, refl)
  answered-ok f e (err x, w) b h = cc

  -- The apps of the worker fit into one answer of `app_list`.
  abbrev pub Few : WorkerState × E → Type 0
  Few c = length c.0.apps ≤ u32_max

  get_running_apps-true :
      (w : WorkerState) (e : E) (apps : List (ℕ × ℕ))
      → Few (w, e)
      → (get_running_apps env (w, e)).0 ≡ ok apps
      → (a : ℕ) → contains_key a apps ≡ has_app a w.apps
  unfolding get_running_apps app_list list contains_key has_app
  get_running_apps-true w e apps few h a =
      let now = env.now e in
      let listed : List (ℕ × AppState) → List (ℕ × ℕ) = λ l.
        collect [] (map (λ i. (i.address, i.running_instances)) (map (λ x. info now x.0 x.1) l)) in
      let answer : listed (take u32_max w.apps) ≡ apps = cc in
      ap (contains_key a) (sym answer)
      ∙ ap (λ l. contains_key a (listed l)) (take-all u32_max w.apps few)
      ∙ contains_key-collect a _ []
      ∙ contains_key-entries now a w.apps

  deploy_call-runs :
      (app : AppManifest) (reuse : Bool) (w : WorkerState) (e : E) (b : ℕ)
      → (deploy_call env app reuse (w, e)).0 ≡ ok b
      → has_app (env.services.address app) (deploy_call env app reuse (w, e)).1.0.apps ≡ true
  unfolding deploy_call app_deploy
  deploy_call-runs app reuse w e b h =
      let address = env.services.address in
      let deploy : M AppState =
        deploy_app (env.launch e) address (env.now e) (env.app_session e) app true reuse in
      let lifted : Call RpcError WorkerState ℕ = lift deploy >>= λ i. return i.session in
      let called =
        app_deploy (env.launch e) (env.now e) address (env.app_session e) (some app) reuse w in
      let (y, answers) = answered-ok (λ s. address app) e called b h in
      let in_session : Option ℕ → Result RpcError ℕ × WorkerState = λ o.
        elim o as (λ x. Result RpcError ℕ × WorkerState) [
          | none ↦ (err no_worker_session, w)
          | some s ↦ lifted w
        ] in
      elim (Option-cases w.session) [
        | inl n ↦ let failed : called.0 ≡ err no_worker_session = ap (λ o. (in_session o).0) n in cc
        | inr (s, n) ↦
            let same : called ≡ lifted w = ap in_session n in
            let (i, done) =
              lift-ok deploy (λ i. i.session) w y (ap (λ o. o.0) (sym same) ∙ answers) in
            ap (λ o. has_app (address app) o.1.apps) same
            ∙ ap (λ v. has_app (address app) v.apps) (lift-state deploy (λ i. i.session) w)
            ∙ deploy_app-Leaves (env.launch e) address (env.now e) (env.app_session e) app true
                reuse w i done
      ]

  remove_call-ends :
      (b : ℕ) (w : WorkerState) (e : E)
      → (remove_call env b (w, e)).0 ≡ ok tt
      → has_app b (remove_call env b (w, e)).1.0.apps ≡ false
  unfolding remove_call app_remove
  remove_call-ends b w e h =
      let (u, answers) = answered-ok (λ u. u) e (app_remove (some b) w) tt h in
      let (app, done) = lift-ok (take_out_app b) (λ app. tt) w u answers in
      ap (λ v. has_app b v.apps) (remove_call-state env b (w, e)) ∙ take_out_app-ends b w app done

  on_worker-IsHonest : IsHonest (on_worker env) (runs_app env) Few
  unfolding on_worker
  on_worker-IsHonest = record {
    app_list_true = λ (w, e) apps few h. get_running_apps-true w e apps few h;
    deploy_runs = λ app r (w, e) b h. deploy_call-runs app r w e b h;
    remove_ends = λ b (w, e) h. remove_call-ends b w e h;
  }

  -- If the calls that update_plan makes for its plan, in the states in which it makes them, succeed, and
  -- the worker then has at most u32::MAX apps, then whatever tickets resolve, update_plan answers Ok,
  -- and the worker has exactly the apps that the new plan selects.
  pub update_plan-on_worker :
      (self : BridgeState AppManifest) (w : WorkerState) (e : E)
      → Updates (on_worker env) Few self (w, e)
      → let after = update_plan (on_worker env) (self, (w, e)) in
        (after.0 ≡ ok tt)
        × ((a : ℕ)
            → has_app a after.1.1.0.apps ≡ contains_key a after.1.0.planning_state.selected_apps)
  update_plan-on_worker self w e calls =
      update_plan-converges (on_worker env) (runs_app env) Few (on_worker-IsWorker env)
        on_worker-IsHonest self (w, e) calls
