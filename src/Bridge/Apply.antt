-- ===== src/Bridge/Apply.antt =====
-- wapod-pherry/src/bridge.rs: `apply_plan`, which deploys the selected apps that do not run and
-- removes the running apps that are not selected.
pub mod Quiet
pub mod Safety
pub mod Success
pub mod Convergence
use wapo.Prelude.{
  ℕ, ltb, ◌==◌, if◌then◌else◌, List, [], ◌∷◌, Option, none, some, Bool, true, false, ◌||◌, ◌&&◌,
}
use wapo.Prelude.Assoc.{find}
use wapo.Prelude.Calls.{Call, ◌>>=◌, ◌>>◌, return, fail}
use wapo.Prelude.Result.{ok, err}
use wapo.Bridge.{
  Error, invalid_cid, blob_not_found, no_such_ticket, Ticket, AppInfo, PlanningState, BridgeState,
  Services,
}

unfoldable pub contains_key {ℓ} : {A : Type ℓ} → ℕ → List (ℕ × A) → Bool
contains_key k [] = false
contains_key k ((j, a) ∷ m) = j == k || contains_key k m

-- The keys of the first map that are not in the second, with their values.
unfoldable pub without {ℓ κ} :
    {A : Type ℓ} {B : Type κ} → List (ℕ × A) → List (ℕ × B) → List (ℕ × A)
unfolding contains_key
without [] other = []
without ((k, a) ∷ m) other =
    if contains_key k other then without m other else (k, a) ∷ without m other

-- `BTreeSet::insert` of a pair.
unfoldable pub insert_dep : ℕ × ℕ → List (ℕ × ℕ) → List (ℕ × ℕ)
insert_dep d [] = d ∷ []
insert_dep (h, c) ((h', c') ∷ ds) =
    if h == h' && c == c'
    then (h', c') ∷ ds
    else if ltb h h' || (h == h' && ltb c c')
    then (h, c) ∷ (h', c') ∷ ds
    else (h', c') ∷ insert_dep (h, c) ds

unfoldable pub insert_deps : List (ℕ × ℕ) → List (ℕ × ℕ) → List (ℕ × ℕ)
unfolding insert_dep
insert_deps [] deps = deps
insert_deps (d ∷ ds) deps = insert_dep d (insert_deps ds deps)

module _ {App W : Type 0} (services : Services App W) where
  -- `self.planning_state.tickets[id].manifest.required_blobs`.
  unfoldable pub ticket_deps : Option (Ticket App) → Call Error W (List (ℕ × ℕ))
  ticket_deps none = fail no_such_ticket
  ticket_deps (some t) = return (services.required_blobs t.manifest)

  -- The blobs that the tickets of an app need.
  unfoldable pub app_deps :
      List (ℕ × Ticket App) → List ℕ → List (ℕ × ℕ) → Call Error W (List (ℕ × ℕ))
  unfolding insert_deps ticket_deps
  app_deps tickets [] deps = return deps
  app_deps tickets (id ∷ ids) deps = do
    blobs ← ticket_deps (find id tickets)
    app_deps tickets ids (insert_deps blobs deps)

  -- The call of `blob_put`: whether it succeeds.
  unfoldable pub put_blob : ℕ → ℕ → Call Error W Bool
  put_blob hash blob w =
      let (r, w') = services.blob_put hash blob w in
      elim r [ err e ↦ (ok false, w') | ok u ↦ (ok true, w') ]

  -- `cid_str.parse().context("invalid blob cid")?`.
  unfoldable pub valid_cid : Option ℕ → Call Error W ℕ
  valid_cid none = fail invalid_cid
  valid_cid (some cid) = return cid

  -- `.context("blob not found")?`, and the upload.
  unfoldable pub put_found : ℕ → Option ℕ → Call Error W Bool
  unfolding put_blob
  put_found hash none = fail blob_not_found
  put_found hash (some blob) = put_blob hash blob

  -- The read and the upload of a blob: whether it is there now.
  unfoldable pub upload_blob : ℕ → ℕ → Call Error W Bool
  unfolding valid_cid put_found
  upload_blob hash cid_str = do
    cid ← valid_cid (services.parse_cid cid_str)
    found ← services.read cid
    put_found hash found

  -- The loop over the blobs of an app; `false` is `continue 'next_app`.
  unfoldable pub upload_blobs : List (ℕ × ℕ) → Call Error W Bool
  unfolding upload_blob
  upload_blobs [] = return true
  upload_blobs ((hash, cid) ∷ deps) = do
    uploaded ← services.blob_exists hash
    there ← (if uploaded then return true else upload_blob hash cid)
    if there then upload_blobs deps else return false

  -- The call of `app_deploy`: its errors and a wrong address are only logged.
  unfoldable pub deploy : Bool → App → Call Error W Unit
  deploy reuse_instances app w =
      let (r, w') = services.app_deploy app reuse_instances w in (ok tt, w')

  -- `for (address, info) in to_deploy`.
  unfoldable pub deploy_apps :
      Bool → List (ℕ × Ticket App) → List (ℕ × AppInfo App) → Call Error W Unit
  unfolding app_deps upload_blobs deploy
  deploy_apps reuse_instances tickets [] = return tt
  deploy_apps reuse_instances tickets ((address, info) ∷ apps) = do
    deps ← app_deps tickets info.associated_tickets []
    there ← upload_blobs deps
    done ← (if there then deploy reuse_instances info.manifest else return tt)
    deploy_apps reuse_instances tickets apps

  -- `for address in to_remove`, where errors are only logged.
  unfoldable pub remove_apps : List (ℕ × ℕ) → Call Error W Unit
  remove_apps [] w = (ok tt, w)
  remove_apps ((address, instances) ∷ apps) w =
      let (r, w') = services.app_remove address w in remove_apps apps w'

  unfoldable pub apply_plan : BridgeState App → Call Error W Unit
  unfolding without deploy_apps remove_apps
  apply_plan self =
      let plan = self.planning_state in
      do
        info ← services.info
        apps ← services.app_list
        deployed ←
            deploy_apps self.config.reuse_instances plan.tickets (without plan.selected_apps apps)
        remove_apps (without apps plan.selected_apps)
