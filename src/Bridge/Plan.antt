-- ===== src/Bridge/Plan.antt =====
-- wapod-pherry/src/bridge.rs: which tickets are for the worker, and which apps the plan selects.
pub mod Entries
pub mod Selection
pub mod Update
use wapo.Prelude.{
  ℕ, zero, suc, ◌+◌, ◌%◌, ltb, ◌==◌, if◌then◌else◌, List, [], ◌∷◌, Option, none, some, Bool, true,
  false, ◌||◌, take, u128_mod,
}
use wapo.Prelude.Assoc.{find}
use wapo.Prelude.Calls.{Call, ◌>>=◌, return, fail}
use wapo.Prelude.Result.{ok, err}
use wapo.Bridge.{
  Error, invalid_cid, invalid_manifest, download_failure, WorkerSet, any, worker_list, TicketInfo,
  Ticket, AppInfo, PlanningState, ChainState, BridgeState, WorkerInfo, Services,
}
use wapo.Bridge.Apply.{contains_key}

-- `list_contains`.
unfoldable pub list_contains : ℕ → List ℕ → Bool
list_contains a [] = false
list_contains a (b ∷ bs) = b == a || list_contains a bs

-- `BTreeMap::insert`.
unfoldable pub insert_key {ℓ} : {A : Type ℓ} → ℕ → A → List (ℕ × A) → List (ℕ × A)
insert_key k v [] = (k, v) ∷ []
insert_key k v ((j, a) ∷ m) =
    if j == k
    then (k, v) ∷ m
    else if ltb k j
    then (k, v) ∷ (j, a) ∷ m
    else (j, a) ∷ insert_key k v m

-- `collect` into a `BTreeMap`, from a map that has the entries so far.
unfoldable pub collect {ℓ} : {A : Type ℓ} → List (ℕ × A) → List (ℕ × A) → List (ℕ × A)
unfolding insert_key
collect m [] = m
collect m ((k, v) ∷ es) = collect (insert_key k v m) es

-- `BTreeSet::insert`.
unfoldable pub insert_id : ℕ → List ℕ → List ℕ
insert_id k [] = k ∷ []
insert_id k (j ∷ m) = if j == k then j ∷ m else if ltb k j then k ∷ j ∷ m else j ∷ insert_id k m

module _ {App : Type 0} where
  unfoldable pub is_ticket_for_worker : BridgeState App → TicketInfo → Bool
  unfolding list_contains
  is_ticket_for_worker self info =
      let in_list : Bool = elim info.workers [
        | any ↦ false
        | worker_list id ↦ elim (find id self.chain_state.worker_list_workers) [
          | none ↦ false
          | some list ↦ list_contains self.worker_pubkey list
        ]
      ] in
      elim self.chain_state.bench_app_address [
        | none ↦ in_list
        | some bench ↦ if bench == info.address then true else in_list
      ]

  -- The body of the loop of `update_plan` over the tickets, once address and balance are known:
  -- `entry(address).or_insert(..)`, and the two changes of the entry. `+=` wraps around.
  unfoldable pub add_ticket : ℕ → App → ℕ → ℕ → List (ℕ × AppInfo App) → List (ℕ × AppInfo App)
  unfolding insert_id
  add_ticket address manifest id balance [] =
      let new : AppInfo App = record {
        manifest = manifest;
        associated_tickets = id ∷ [];
        balance = balance % u128_mod;
      } in
      (address, new) ∷ []
  add_ticket address manifest id balance ((k, i) ∷ m) =
      let new : AppInfo App = record {
        manifest = manifest;
        associated_tickets = id ∷ [];
        balance = balance % u128_mod;
      } in
      let changed : AppInfo App = record i {
        associated_tickets = insert_id id i.associated_tickets;
        balance = (i.balance + balance) % u128_mod;
      } in
      if k == address
      then (k, changed) ∷ m
      else if ltb address k
      then (address, new) ∷ (k, i) ∷ m
      else (k, i) ∷ add_ticket address manifest id balance m

  -- `sort_by(|a, b| b.1.balance.cmp(&a.1.balance))`, which is stable.
  unfoldable pub insert_by_balance :
      ℕ × AppInfo App → List (ℕ × AppInfo App) → List (ℕ × AppInfo App)
  insert_by_balance a [] = a ∷ []
  insert_by_balance a (b ∷ bs) =
      if ltb a.1.balance b.1.balance then b ∷ insert_by_balance a bs else a ∷ b ∷ bs

  unfoldable pub sort_by_balance : List (ℕ × AppInfo App) → List (ℕ × AppInfo App)
  unfolding insert_by_balance
  sort_by_balance [] = []
  sort_by_balance (a ∷ l) = insert_by_balance a (sort_by_balance l)

  -- The selection at the end of `update_plan`.
  unfoldable pub select_apps : ℕ → List (ℕ × AppInfo App) → List (ℕ × AppInfo App)
  unfolding sort_by_balance collect
  select_apps max_apps all_apps = collect [] (take max_apps (sort_by_balance all_apps))
