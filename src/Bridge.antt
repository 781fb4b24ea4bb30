-- ===== src/Bridge.antt =====
-- wapod-pherry/src/bridge.rs: the bridge between the chain and one worker. Addresses, content ids,
-- texts and blobs are numbers. The maps are association lists by rising key, as in a `BTreeMap`. The
-- worker behind its RPC client, the chain client and the downloader are one world `W`, on which
-- their calls act.
pub mod OnWorker
pub mod Plan
pub mod Apply
pub mod Reports
use wapo.Prelude.{ℕ, List, Option, Bool}
use wapo.Prelude.Calls.{Call}

-- The errors of the bridge itself, and one for any call that fails.
pub data Error : Type 0 where
  call_failed invalid_cid invalid_manifest invalid_score blob_not_found : Error
  download_failure : ℕ → Error
  -- The panic of an index into the map of tickets.
  no_such_ticket : Error

pub data WorkerSet : Type 0 where
  any : WorkerSet
  worker_list : ℕ → WorkerSet

pub record TicketInfo : Type 0 where
  pub address : ℕ
  pub manifest_cid : ℕ
  pub workers : WorkerSet

pub record HeartbeatChallenge : Type 0 where
  pub seed : ℕ
  pub online_target : ℕ

-- `ChainState` of chain_state.rs, as far as the bridge reads it.
pub record ChainState : Type 0 where
  pub tickets : List (ℕ × TicketInfo)
  pub worker_list_workers : List (ℕ × List ℕ)
  pub bench_app_address : Option ℕ
  pub heartbeat_challenge : Option HeartbeatChallenge

pub record Ticket (App : Type 0) : Type 0 where
  pub info : TicketInfo
  pub manifest : App

pub record AppInfo (App : Type 0) : Type 0 where
  pub manifest : App
  pub associated_tickets : List ℕ
  pub balance : ℕ

pub record PlanningState (App : Type 0) : Type 0 where
  pub tickets : List (ℕ × Ticket App)
  pub ticket_balances : List (ℕ × ℕ)
  pub bench_app : Option (ℕ × ℕ)
  pub all_apps : List (ℕ × AppInfo App)
  pub selected_apps : List (ℕ × AppInfo App)
  pub download_failures : List (ℕ × ℕ)

pub record BridgeConfig : Type 0 where
  pub max_apps : ℕ
  pub metrics_interval : ℕ
  pub gas_until_report : ℕ
  pub reuse_instances : Bool

pub record BridgeState (App : Type 0) : Type 0 where
  pub worker_pubkey : ℕ
  pub planning_state : PlanningState App
  pub chain_state : ChainState
  pub config : BridgeConfig
  pub last_metrics_report : ℕ
  pub init_score_reported : Bool

-- What the bridge reads of the worker's `info`, and of the session that the chain has recorded.
pub record WorkerInfo : Type 0 where
  pub max_instances : ℕ
  pub session : ℕ

pub record SessionInfo : Type 0 where
  pub session_id : ℕ
  pub last_nonce : ℕ

-- The calls of the worker's RPC client, the chain client and the downloader, and the parsers of the
-- texts that they bring.
pub record Services (App W : Type 0) : Type 0 where
  pub info : Call Error W WorkerInfo
  pub app_list : Call Error W (List (ℕ × ℕ))
  pub app_deploy : App → Bool → Call Error W ℕ
  pub app_remove : ℕ → Call Error W Unit
  pub app_remove_all : Call Error W Unit
  pub worker_init : ℕ → Call Error W ℕ
  pub set_bench_app : Option ℕ → ℕ → Call Error W Unit
  pub app_metrics : Call Error W (List ℕ)
  pub query_score : ℕ → Call Error W ℕ
  pub query_signed_score : ℕ → Call Error W ℕ
  pub blob_exists : ℕ → Call Error W Bool
  pub blob_put : ℕ → ℕ → Call Error W Unit
  pub read : ℕ → Call Error W (Option ℕ)
  pub download : ℕ → Call Error W Bool
  pub ticket_balance : ℕ → Call Error W ℕ
  pub worker_session : Call Error W (Option SessionInfo)
  pub is_working : Call Error W Bool
  pub submit_session : ℕ → Call Error W Unit
  pub submit_score : Bool → ℕ → Call Error W Unit
  pub submit_metrics : List ℕ → List (ℕ × List ℕ) → Call Error W Unit
  pub parse_cid : ℕ → Option ℕ
  pub parse_manifest : ℕ → Option App
  pub parse_score : ℕ → Option ℕ
  pub address : App → ℕ
  pub required_blobs : App → List (ℕ × ℕ)
