-- ===== src/Bridge/Plan/Update.antt =====
-- wapod-pherry/src/bridge.rs: resolving the tickets, summing their balances, and `update_plan`.
pub mod Balances
pub mod Convergence
use wapo.Prelude.{◌==◌, ℕ, if◌then◌else◌, List, [], ◌∷◌, Option, none, some, Bool, true, false}
use wapo.Prelude.Assoc.{find}
use wapo.Prelude.Calls.{Call, ◌>>=◌, return, fail}
use wapo.Prelude.Result.{ok, err}
use wapo.Bridge.{
  Error, invalid_cid, invalid_manifest, download_failure, TicketInfo, Ticket, AppInfo,
  PlanningState, BridgeState, WorkerInfo, Services,
}
use wapo.Bridge.Apply.{contains_key, apply_plan}
use wapo.Bridge.Plan.{is_ticket_for_worker, insert_key, add_ticket, select_apps}

module _ {App W : Type 0} (services : Services App W) where
  -- The loop of `try_resolve` over the blobs of a manifest: whether all of them are there.
  unfoldable pub download_blobs : List (ℕ × ℕ) → List (ℕ × ℕ) → Call Error W Bool
  download_blobs failures [] = return true
  download_blobs failures ((hash, cid_str) ∷ deps) = elim (services.parse_cid cid_str) [
    | none ↦ fail invalid_cid
    | some cid ↦ elim (find cid_str failures) [
      | some e ↦ fail (download_failure e)
      | none ↦ (do
        downloaded ← services.download cid
        if downloaded then download_blobs failures deps else return false)
    ]
  ]

  -- What `try_resolve` does while the manifest of the ticket is not there.
  unfoldable pub ask_manifest : List (ℕ × ℕ) → ℕ → ℕ → Call Error W (Option (Ticket App))
  ask_manifest failures manifest_cid cid = elim (find manifest_cid failures) [
    | some e ↦ fail (download_failure e)
    | none ↦ (do asked ← services.download cid; return none)
  ]

  -- What `try_resolve` does with the manifest.
  unfoldable pub resolve_manifest :
      List (ℕ × ℕ) → TicketInfo → ℕ → Call Error W (Option (Ticket App))
  unfolding download_blobs
  resolve_manifest failures info data_ = elim (services.parse_manifest data_) [
    | none ↦ fail invalid_manifest
    | some manifest ↦ (do
      ready ← download_blobs failures (services.required_blobs manifest)
      return (if ready then some (record { info = info; manifest = manifest }) else none))
  ]

  unfoldable pub try_resolve : BridgeState App → TicketInfo → Call Error W (Option (Ticket App))
  unfolding ask_manifest resolve_manifest
  try_resolve self info =
      let failures = self.planning_state.download_failures in
      elim (services.parse_cid info.manifest_cid) [
        | none ↦ fail invalid_cid
        | some cid ↦ (do
          manifest_data ← services.read cid
          elim manifest_data [
            | none ↦ ask_manifest failures info.manifest_cid cid
            | some data_ ↦ resolve_manifest failures info data_
          ])
      ]

  abbrev pub with_ticket : ℕ → Ticket App → BridgeState App → BridgeState App
  with_ticket id t self =
      let plan = self.planning_state in
      record self { planning_state = record plan { tickets = insert_key id t plan.tickets } }

  -- The loop of `try_resolve_deps`, which skips a ticket that does not resolve.
  unfoldable pub try_resolve_deps :
      List (ℕ × TicketInfo) → BridgeState App × W → BridgeState App × W
  unfolding contains_key is_ticket_for_worker try_resolve insert_key
  try_resolve_deps [] s = s
  try_resolve_deps ((id, info) ∷ tickets) (self, w) =
      if contains_key id self.planning_state.tickets
      then try_resolve_deps tickets (self, w)
      else if is_ticket_for_worker self info
      then (let (r, w') = try_resolve self info w in
          elim r [
            | err e ↦ try_resolve_deps tickets (self, w')
            | ok none ↦ try_resolve_deps tickets (self, w')
            | ok (some t) ↦ try_resolve_deps tickets (with_ticket id t self, w')
          ])
      else try_resolve_deps tickets (self, w)

  abbrev pub with_balance : ℕ → ℕ → BridgeState App → BridgeState App
  with_balance id b self =
      let plan = self.planning_state in
      record self {
        planning_state = record plan { ticket_balances = insert_key id b plan.ticket_balances };
      }

  -- The balance of a ticket, which is asked of the chain once.
  unfoldable pub balance_of_ticket : ℕ → Call Error (BridgeState App × W) ℕ
  unfolding insert_key
  balance_of_ticket id (self, w) = elim (find id self.planning_state.ticket_balances) [
    | some b ↦ (ok b, (self, w))
    | none ↦
        let (r, w') = services.ticket_balance id w in
        elim r [ err e ↦ (err e, (self, w')) | ok b ↦ (ok b, (with_balance id b self, w')) ]
  ]

  -- The loop of `update_plan` over the tickets.
  unfoldable pub gather_apps :
      List (ℕ × Ticket App)
      → List (ℕ × AppInfo App)
      → Call Error (BridgeState App × W) (List (ℕ × AppInfo App))
  unfolding balance_of_ticket add_ticket
  gather_apps [] all_apps = return all_apps
  gather_apps ((id, t) ∷ tickets) all_apps =
      let address = services.address t.manifest in
      if t.info.address == address
      then (do
        balance ← balance_of_ticket id
        gather_apps tickets (add_ticket address t.manifest id balance all_apps))
      else gather_apps tickets all_apps

  -- The plan that `update_plan` enters.
  unfoldable pub with_plan : WorkerInfo → List (ℕ × AppInfo App) → BridgeState App → BridgeState App
  unfolding select_apps
  with_plan worker_info all_apps self = record self {
    planning_state = record self.planning_state {
      all_apps = all_apps;
      selected_apps = select_apps self.config.max_apps all_apps;
      bench_app = elim self.chain_state.bench_app_address [
        | none ↦ none
        | some address ↦ some (address, worker_info.max_instances)
      ];
    };
  }

  -- A call that does not change the bridge.
  abbrev pub outside : {A : Type 0} → Call Error W A → Call Error (BridgeState App × W) A
  outside m (self, w) = let (r, w') = m w in (r, (self, w'))

  unfoldable pub update_plan : Call Error (BridgeState App × W) Unit
  unfolding try_resolve_deps gather_apps with_plan apply_plan
  update_plan (self, w) =
      let (resolved, w₁) = try_resolve_deps self.chain_state.tickets (self, w) in
      (do
        worker_info ← outside services.info
        all_apps ← gather_apps resolved.planning_state.tickets []
        λ (planner, w₂).
            let planned = with_plan worker_info all_apps planner in
            let (r, w₃) = apply_plan services planned w₂ in (r, (planned, w₃)))
        (resolved, w₁)
