-- ===== src/Bridge/Reports.antt =====
-- wapod-pherry/src/bridge.rs: what the bridge tells worker and chain besides the plan: the session,
-- the benchmark app, the metrics and the benchmark scores; and one turn of its loop.
use Prim.Native.Nat.{bit_xor}
use wapo.Prelude.{
  ℕ, ◌-◌, ltb, leb, ◌==◌, if◌then◌else◌, List, [], ◌∷◌, Option, none, some, Bool, true, false, take,
}
use wapo.Prelude.Assoc.{find}
use wapo.Prelude.Calls.{Call, ◌>>=◌, return}
use wapo.Prelude.Result.{ok, err}
use wapo.Bridge.{
  Error, invalid_score, AppInfo, PlanningState, BridgeState, ChainState, HeartbeatChallenge,
  Services,
}
use wapo.Bridge.Plan.{insert_key}
use wapo.Bridge.Plan.Update.{update_plan, outside}

-- `MAX_APPS_METRICS` and `MAX_CLAIM_TICKETS` of wapod-types/src/metrics.rs.
abbrev pub max_apps_metrics : ℕ
max_apps_metrics = 64

abbrev pub max_claim_tickets : ℕ
max_claim_tickets = 3

-- `PlanningState::default()`.
abbrev pub default_plan : {App : Type 0} → PlanningState App
default_plan = record {
  tickets = [];
  ticket_balances = [];
  bench_app = none;
  all_apps = [];
  selected_apps = [];
  download_failures = [];
}

-- `is_challenging_the_worker`, with the hash of the worker's key.
unfoldable pub is_challenging_the_worker : (ℕ → ℕ) → HeartbeatChallenge → ℕ → Bool
is_challenging_the_worker blake2_256 heartbeat worker =
    leb (bit_xor (blake2_256 worker) heartbeat.seed) heartbeat.online_target

module _ {App : Type 0} where
  unfoldable pub set_chain_state : ChainState → BridgeState App → BridgeState App
  set_chain_state chain_state self = record self {
    chain_state = chain_state;
    planning_state = default_plan;
  }

  -- The loop of `maybe_report_app_metrics` over the apps of the metrics.
  unfoldable pub claims : List (ℕ × AppInfo App) → List ℕ → List (ℕ × List ℕ)
  claims all_apps [] = []
  claims all_apps (address ∷ apps) = elim (find address all_apps) [
    | none ↦ claims all_apps apps
    | some info ↦ (address, take max_claim_tickets info.associated_tickets) ∷ claims all_apps apps
  ]

-- What wakes the loop of `bridge`.
pub data Event : Type 0 where
  chain_state_received : ChainState → Event
  downloaded : Event
  download_failed : ℕ → ℕ → Event

module _ {App W : Type 0} (services : Services App W) where
  -- What `maybe_update_session` does if the worker has another session than the chain.
  unfoldable pub reset_worker : ℕ → Call Error W Unit
  reset_worker pnonce = do
    removed ← services.app_remove_all
    update ← services.worker_init pnonce
    services.submit_session update

  -- `maybe_update_session`; an empty nonce is zero.
  unfoldable pub maybe_update_session : Call Error W Unit
  unfolding reset_worker
  maybe_update_session = do
    info ← services.info
    session ← services.worker_session
    elim session [
      | none ↦ reset_worker 0
      | some s ↦ if info.session == s.session_id then return tt else reset_worker s.last_nonce
    ]

  unfoldable pub maybe_sync_bench_app : BridgeState App → Call Error W Unit
  maybe_sync_bench_app self = elim self.planning_state.bench_app [
    | none ↦ services.set_bench_app none 0
    | some (address, instances) ↦ services.set_bench_app (some address) instances
  ]

  -- The transaction of `maybe_report_app_metrics`, if there is anything to claim.
  unfoldable pub submit_claims : List ℕ → List (ℕ × List ℕ) → Call Error W Unit
  submit_claims all_metrics [] = return tt
  submit_claims all_metrics (c ∷ cs) = services.submit_metrics all_metrics (c ∷ cs)

  unfoldable pub maybe_report_app_metrics : ℕ → Call Error (BridgeState App × W) Unit
  unfolding claims submit_claims
  maybe_report_app_metrics now (self, w) =
      if ltb (now - self.last_metrics_report) self.config.metrics_interval
      then (ok tt, (self, w))
      else (do
        all_metrics ← outside services services.app_metrics
        outside services (
            submit_claims all_metrics
              (claims self.planning_state.all_apps (take max_apps_metrics all_metrics))))
          (record self { last_metrics_report = now }, w)

  unfoldable pub do_report_bench_score : Bool → Call Error (BridgeState App × W) Unit
  do_report_bench_score is_init (self, w) = elim self.planning_state.bench_app [
    | none ↦ (ok tt, (self, w))
    | some (address, instances) ↦
        (do
          signed_score ← outside services (services.query_signed_score address)
          sent ← outside services (services.submit_score is_init signed_score)
          λ (reporter, v). (ok tt, (record reporter { init_score_reported = true }, v)))
          (self, w)
  ]

  -- What `maybe_report_init_score` does with the score that it read.
  unfoldable pub report_if_enough : Option ℕ → Call Error (BridgeState App × W) Unit
  unfolding do_report_bench_score
  report_if_enough none s = (err invalid_score, s)
  report_if_enough (some gas_consumed) (self, w) =
      if ltb gas_consumed self.config.gas_until_report
      then (ok tt, (self, w))
      else do_report_bench_score true (self, w)

  unfoldable pub maybe_report_init_score : Call Error (BridgeState App × W) Unit
  unfolding report_if_enough
  maybe_report_init_score (self, w) =
      if self.init_score_reported then (ok tt, (self, w)) else elim self.planning_state.bench_app [
        | none ↦ (ok tt, (self, w))
        | some (address, instances) ↦
            (do
              encoded_score ← outside services (services.query_score address)
              report_if_enough (services.parse_score encoded_score))
              (self, w)
      ]

  unfoldable pub maybe_report_bench_score : (ℕ → ℕ) → Call Error (BridgeState App × W) Unit
  unfolding is_challenging_the_worker do_report_bench_score
  maybe_report_bench_score blake2_256 (self, w) = elim self.chain_state.heartbeat_challenge [
    | none ↦ (ok tt, (self, w))
    | some challenge ↦
        if is_challenging_the_worker blake2_256 challenge self.worker_pubkey
        then (do
          working ← outside services services.is_working
          if working then do_report_bench_score false else return tt)
            (self, w)
        else (ok tt, (self, w))
  ]

  -- `ignore_error`.
  abbrev pub ignore_error : {S : Type 0} → Call Error S Unit → S → S
  ignore_error m s = (m s).1

  -- `update_plan` and `maybe_sync_bench_app`, which end a turn of the loop.
  unfoldable pub replan : BridgeState App × W → BridgeState App × W
  unfolding update_plan maybe_sync_bench_app
  replan s =
      let (planned, w) = ignore_error (update_plan services) s in
      (planned, ignore_error (maybe_sync_bench_app planned) w)

  -- One turn of the loop of `bridge` at the instant `now`.
  unfoldable pub turn : (ℕ → ℕ) → ℕ → Event → BridgeState App × W → BridgeState App × W
  unfolding maybe_report_bench_score maybe_report_init_score maybe_report_app_metrics
      set_chain_state replan
  turn blake2_256 now (chain_state_received state) s =
      let s₁ = ignore_error (maybe_report_bench_score blake2_256) s in
      let s₂ = ignore_error maybe_report_init_score s₁ in
      let (reported, w) = ignore_error (maybe_report_app_metrics now) s₂ in
      replan (set_chain_state state reported, w)
  turn blake2_256 now downloaded s = replan s
  turn blake2_256 now (download_failed cid error) (self, w) =
      let plan = self.planning_state in
      let failures = insert_key cid error plan.download_failures in
      (record self { planning_state = record plan { download_failures = failures } }, w)
