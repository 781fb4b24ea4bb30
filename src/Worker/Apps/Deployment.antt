-- ===== src/Worker/Apps/Deployment.antt =====
-- What an `Ok` of a deployment means.
use wapo.Prelude.{
  ℕ, ◌+◌, ◌≡◌, refl, sym, subst, arith, List, ◌∷◌, none, some, Bool, false, min, ==_iff,
  if◌then◌else◌, Option-cases, inl, inr,
}
use wapo.Prelude.Result.{Result, ok, err}
use wapo.Worker.{
  WorkerState, AppState, AppManifest, VmHandle, Error, app_exists, get_app, running_instances,
  available_slots,
}
use wapo.Worker.Instances.{M, ◌>>=◌, Launch}
use wapo.Worker.Instances.Resize.{resize_app_instances}
use wapo.Worker.Instances.Resize.Outcome.{HasInstances, target, resize_direct}
use wapo.Worker.Apps.{refuse_manifest, new_app, insert_app, deployed, deploy_app}

deployed-state : (address : ℕ) (w : WorkerState) → (deployed address w).1 ≡ w
unfolding deployed
deployed-state address w = elim (Option-cases (get_app address w.apps)) [
  | inl e ↦ rw (deployed, e) refl
  | inr (a, e) ↦ rw (deployed, e) refl
]

-- The state after the insertion.
abbrev entered : ℕ → ℕ → ℕ → AppManifest → Bool → Bool → WorkerState → WorkerState
entered now session address m auto reuse w = record w {
  apps = (address, new_app w.next_app_sn session now m auto reuse) ∷ w.apps;
  next_app_sn = w.next_app_sn + 1;
}

insert_app-none :
    (now session address : ℕ) (m : AppManifest) (auto reuse : Bool) (w : WorkerState)
    → get_app address w.apps ≡ none
    → insert_app now session address m auto reuse w
      ≡ (ok tt, entered now session address m auto reuse w)
unfolding insert_app
insert_app-none now session address m auto reuse w e = rw (insert_app, e)

insert_app-some :
    (now session address : ℕ) (m : AppManifest) (auto reuse : Bool) (w : WorkerState) (a : AppState)
    → get_app address w.apps ≡ some a
    → insert_app now session address m auto reuse w ≡ (err app_exists, w)
unfolding insert_app
insert_app-some now session address m auto reuse w a e = rw (insert_app, e)

entered-found :
    (now session address : ℕ) (m : AppManifest) (auto reuse : Bool) (w : WorkerState)
    → get_app address (entered now session address m auto reuse w).apps
      ≡ some (new_app w.next_app_sn session now m auto reuse)
unfolding get_app
entered-found now session address m auto reuse w = ground (arith, (==_iff address address).1 refl)

-- What follows the insertion, from the answer of the resize.
abbrev finish :
    ℕ → Result Error (List ℕ × List VmHandle) × WorkerState → Result Error AppState × WorkerState
finish address out =
    (((λ _. out) >>= λ r v. (ok tt, v)) >>= λ (u : Unit {0}). deployed address) out.1

finish-ok :
    (address : ℕ) (out : Result Error (List ℕ × List VmHandle) × WorkerState) (a : AppState)
    → (finish address out).0 ≡ ok a
    → (r : List ℕ × List VmHandle) × (out.0 ≡ ok r) × ((finish address out).1 ≡ out.1)
finish-ok address (ok r, w) a h = (r, refl, deployed-state address w)
finish-ok address (err e, w) a h = cc

abbrev from_start :
    ℕ → M (Unit {0}) → Result Error (Unit {0}) × WorkerState → Result Error AppState × WorkerState
from_start address start out =
    ((λ _. out) >>= λ u. (start >>= λ (s : Unit {0}). deployed address)) out.1

abbrev tail :
    ℕ
    → M (List ℕ × List VmHandle)
    → Result Error (Unit {0}) × WorkerState
    → Result Error AppState × WorkerState
tail address resize = from_start address (resize >>= λ r v. (ok tt, v))

module _ (launch : Launch) (generate_address : AppManifest → ℕ) (now session : ℕ) where
  abbrev Started : ℕ → WorkerState → Result Error AppState × WorkerState → Type 0
  Started address w out =
      (a : AppState)
      → out.0 ≡ ok a
      → (get_app address w.apps ≡ none) × HasInstances address (min (available_slots w) 1) out.1

  tail-Started :
      (address : ℕ) (m : AppManifest) (auto reuse : Bool) (w : WorkerState)
      → Started address w (
          tail address
            (resize_app_instances launch now address 1 none)
            (insert_app now session address m auto reuse w))
  unfolding available_slots running_instances new_app target
  tail-Started address m auto reuse w =
      let resize = resize_app_instances launch now address 1 none in
      let from : (o : Result Error (Unit {0}) × WorkerState)
          → insert_app now session address m auto reuse w ≡ o
          → Started address w (tail address resize o)
          → Started address w
              (tail address resize (insert_app now session address m auto reuse w)) =
        λ o p. subst (λ q. Started address w (tail address resize q)) (sym p) in
      elim (Option-cases (get_app address w.apps)) [
        | inr (b, e) ↦ from _ (insert_app-some now session address m auto reuse w b e) (λ a h. cc)
        | inl e ↦
            let w' = entered now session address m auto reuse w in
            from _ (insert_app-none now session address m auto reuse w e) (λ a h.
              let (r, p, q) = finish-ok address (resize w') a h in
              let b = new_app w.next_app_sn session now m auto reuse in
              let (b', f, k) =
                resize_direct launch now address 1 b w' r
                  (entered-found now session address m auto reuse w) p in
              (
                e,
                subst (λ (v : WorkerState). HasInstances address (min (available_slots w) 1) v)
                    (sym q) (b', f, ground (arith, k)),
              ))
      ]

  -- If `deploy_app` answers `Ok` for an app that is not on-demand, then the manifest was not refused, no
  -- app had the address, and the app has one instance, or none if the worker had no free slot.
  pub deploy_app-starts :
      (m : AppManifest) (auto reuse : Bool) (w : WorkerState) (a : AppState)
      → m.on_demand ≡ false
      → (deploy_app launch generate_address now session m auto reuse w).0 ≡ ok a
      → (refuse_manifest m ≡ none)
        × (get_app (generate_address m) w.apps ≡ none)
        × HasInstances
            (generate_address m)
            (min (available_slots w) 1)
            (deploy_app launch generate_address now session m auto reuse w).1
  unfolding deploy_app
  deploy_app-starts m auto reuse w a demand = elim (Option-cases (refuse_manifest m)) [
    | inr (x, e) ↦ rw (deploy_app, e) (λ h. cc)
    | inl e ↦
        let address = generate_address m in
        let skip : M (Unit {0}) = λ v. (ok tt, v) in
        let full : M (Unit {0}) =
          resize_app_instances launch now address 1 none >>= λ r v. (ok tt, v) in
        let all : Started address w (
            from_start address (if m.on_demand then skip else full)
              (insert_app now session address m auto reuse w)) =
          subst
            (λ b. Started address w (
              from_start address (if b then skip else full)
                (insert_app now session address m auto reuse w)))
            (sym demand) (tail-Started address m auto reuse w) in
        rw (deploy_app, e) (λ h. let (free, count) = all a h in (refl, free, count))
  ]
