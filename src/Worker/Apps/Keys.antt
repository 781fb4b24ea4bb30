-- ===== src/Worker/Apps/Keys.antt =====
-- Which apps a worker has, in wapod/src/state.rs and prpc_service.rs: deploying adds at most the app's
-- own address, starting instances adds none, and removing takes away at most the address.
use wapo.Prelude.{
  ℕ, zero, suc, ◌+◌, ◌-◌, ◌==◌, ◌≡◌, refl, ap, ◌∙◌, inl, inr, ◌⊎◌, if◌then◌else◌, ltb, List, [],
  ◌∷◌, ◌++◌, Option, none, Bool, true, false, ◌||◌, length, min, arith, Bool-cases, Option-cases,
}
use wapo.Prelude.Result.{Result, Result-cases, ok, err}
use wapo.Worker.{
  WorkerState, Error, app_exists, AppState, AppManifest, Instance, get_app, set_app, remove_app,
  available_slots, VmHandle,
}
use wapo.Worker.Instances.{M, ◌>>=◌, Launch, start_found, start_app, start_many, stop_many}
use wapo.Worker.Instances.Resize.{resize_found, resize_reserved, resize_app_instances}
use wapo.Worker.Apps.{refuse_manifest, new_app, insert_app, deployed, deploy_app, take_out_app}

unfoldable pub has_app : ℕ → List (ℕ × AppState) → Bool
has_app a [] = false
has_app a ((k, app) ∷ apps) = k == a || has_app a apps

has_app-set_app :
    (a k : ℕ) (v : AppState) (apps : List (ℕ × AppState))
    → has_app a (set_app k v apps) ≡ has_app a apps
unfolding has_app set_app
has_app-set_app a k v [] = refl
has_app-set_app a k v ((j, b) ∷ apps) = ground (arith, has_app-set_app a k v apps)

pub has_app-remove_app :
    (a k : ℕ) (apps : List (ℕ × AppState))
    → (k == a) ≡ false
    → has_app a (remove_app k apps) ≡ has_app a apps
unfolding has_app remove_app
has_app-remove_app a k [] h = refl
has_app-remove_app a k ((j, b) ∷ apps) h = ground (arith, has_app-remove_app a k apps h)

pub has_app-remove_app_none :
    (a k : ℕ) (apps : List (ℕ × AppState))
    → has_app a apps ≡ false
    → has_app a (remove_app k apps) ≡ false
unfolding has_app remove_app
has_app-remove_app_none a k [] h = refl
has_app-remove_app_none a k ((j, b) ∷ apps) h = ground (arith, has_app-remove_app_none a k apps)

-- A method that neither adds nor removes an app.
abbrev KeepsApps : {A : Type 0} → M A → Type 0
KeepsApps m = (w : WorkerState) (a : ℕ) → has_app a (m w).1.apps ≡ has_app a w.apps

>>=-KeepsApps :
    {A B : Type 0} (m : M A) (f : A → M B)
    → KeepsApps m
    → ((x : A) → KeepsApps (f x))
    → KeepsApps (m >>= f)
>>=-KeepsApps m f k l w a = elim (Result-cases (m w).0) [
  | inl (e, h) ↦ ground (arith, k w a)
  | inr (x, h) ↦ ground (arith, l x (m w).1 a, k w a)
]

module _ (launch : Launch) where
  start_found-KeepsApps :
      (address : ℕ) (limit : Option ℕ) (app : AppState)
      → KeepsApps (start_found launch address limit app)
  unfolding start_found
  start_found-KeepsApps address limit app w a =
      elim (Option-cases (launch w.launches app.manifest.code_hash)) [
        | inl e ↦ ground arith
        | inr (handle, e) ↦
            let i : Instance = record { sequence_number = w.next_run_sn; vm_handle = handle } in
            let app' = record app { instances = app.instances ++ (w.next_run_sn, i) ∷ [] } in
            ground (arith, has_app-set_app a address app' w.apps)
      ]

  start_app-KeepsApps :
      (address : ℕ) (limit : Option ℕ) → KeepsApps (start_app launch address limit)
  unfolding start_app
  start_app-KeepsApps address limit w a = elim (Option-cases (get_app address w.apps)) [
    | inl e ↦ rw (start_app, e) refl
    | inr (app, e) ↦ rw (start_app, e) (start_found-KeepsApps address limit app w a)
  ]

  start_many-KeepsApps :
      (n address : ℕ) (limit : Option ℕ) → KeepsApps (start_many launch n address limit)
  unfolding start_many
  start_many-KeepsApps zero address limit w a = refl
  start_many-KeepsApps (suc n) address limit w a =
      >>=-KeepsApps (start_app launch address limit)
        (λ sn. start_many launch n address limit >>= λ created w'. (ok (sn ∷ created), w'))
        (start_app-KeepsApps address limit)
        (λ sn.
          >>=-KeepsApps (start_many launch n address limit) (λ created w'. (ok (sn ∷ created), w'))
            (start_many-KeepsApps n address limit) (λ l v b. refl))
        w a

  module _ (now : ℕ) where
    resize_found-KeepsApps :
        (address count : ℕ) (removed : List VmHandle) (app : AppState)
        → KeepsApps (resize_found launch now address count none removed app)
    unfolding resize_found
    resize_found-KeepsApps address count removed app w a =
        let current = length app.instances in
        let n = min (available_slots w) (count - current) in
        let create = start_many launch n address none in
        elim (Bool-cases (ltb current count)) [
          | inl less ↦
              let kept =
                >>=-KeepsApps {B = List ℕ × List VmHandle} create
                  (λ created w'. (ok (created, removed), w')) (start_many-KeepsApps n address none)
                  (λ l v b. refl) w a in
              ground (arith, kept)
          | inr more ↦ elim (Result-cases (stop_many now (current - count) app)) [
            | inl (x, e) ↦ ground arith
            | inr (r, e) ↦ ground (arith, has_app-set_app a address r.0 w.apps)
          ]
        ]

    -- A resize that is no start on demand.
    pub resize_direct-KeepsApps :
        (address count : ℕ) → KeepsApps (resize_app_instances launch now address count none)
    unfolding resize_app_instances resize_reserved
    resize_direct-KeepsApps address count w a = elim (Option-cases (get_app address w.apps)) [
      | inl e ↦ rw (resize_reserved, e) refl
      | inr (app, e) ↦ rw (resize_reserved, e) (resize_found-KeepsApps address count [] app w a)
    ]

module _ (launch : Launch) (generate_address : AppManifest → ℕ) (now session : ℕ)
    (manifest : AppManifest) (restart reuse : Bool) where
  deployed-KeepsApps : (address : ℕ) → KeepsApps (deployed address)
  unfolding deployed
  deployed-KeepsApps address w a = ground arith

  -- What `deploy_app` does once the app is entered.
  abbrev start_new : Bool → M AppState
  start_new on_demand =
      let address = generate_address manifest in
      let start : M (Unit {0}) =
        if on_demand
        then (λ v. (ok tt, v))
        else (resize_app_instances launch now address 1 none >>= λ r v. (ok tt, v)) in
      start >>= λ started. deployed address

  start_new-KeepsApps : (on_demand : Bool) → KeepsApps (start_new on_demand)
  start_new-KeepsApps true = deployed-KeepsApps (generate_address manifest)
  start_new-KeepsApps false =
      let address = generate_address manifest in
      let resize = resize_app_instances launch now address 1 none in
      >>=-KeepsApps (resize >>= λ r v. (ok tt, v)) (λ started. deployed address)
        (>>=-KeepsApps {B = Unit {0}} resize (λ r v. (ok tt, v))
          (resize_direct-KeepsApps launch now address 1) (λ r v b. refl))
        (λ started. deployed-KeepsApps address)

  -- Only the app's own address can be new.
  abbrev Adds : WorkerState → WorkerState → Type 0
  Adds w v =
      (a : ℕ)
      → (has_app a v.apps ≡ has_app a w.apps)
        ⊎ (has_app a v.apps ≡ ((generate_address manifest == a) || has_app a w.apps))

  entered-Adds :
      (w : WorkerState)
      → let address = generate_address manifest in
        Adds w
          ((insert_app now session address manifest restart reuse >>= λ entered.
              start_new manifest.on_demand)
            w).1
  unfolding insert_app has_app
  entered-Adds w a =
      let address = generate_address manifest in
      let enter = insert_app now session address manifest restart reuse w in
      let after : Result Error (Unit {0}) × WorkerState → Bool = λ o.
        has_app a
          (elim o.0 as (λ r. Result Error AppState × WorkerState) [
            | ok u ↦ start_new manifest.on_demand o.1
            | err x ↦ (err x, o.1)
          ]).1.apps in
      elim (Option-cases (get_app address w.apps)) [
        | inr (old, e) ↦
            let stays : enter ≡ (err app_exists, w) = rw (insert_app, e) refl in
            inl (ap after stays)
        | inl e ↦
            let app = new_app w.next_app_sn session now manifest restart reuse in
            let w' = record w { apps = (address, app) ∷ w.apps; next_app_sn = w.next_app_sn + 1 } in
            let enters : enter ≡ (ok tt, w') = rw (insert_app, e) refl in
            inr (ap after enters ∙ start_new-KeepsApps manifest.on_demand w' a)
      ]

  pub deploy_app-Adds :
      (w : WorkerState)
      → Adds w (deploy_app launch generate_address now session manifest restart reuse w).1
  unfolding deploy_app
  deploy_app-Adds w a = elim (Option-cases (refuse_manifest manifest)) [
    | inr (x, e) ↦ rw (deploy_app, e) (inl refl)
    | inl e ↦ rw (deploy_app, e) (entered-Adds w a)
  ]

-- Taking an app out.
pub take_out_app-keeps :
    (k : ℕ) (w : WorkerState) (a : ℕ)
    → (k == a) ≡ false
    → has_app a (take_out_app k w).1.apps ≡ has_app a w.apps
unfolding take_out_app
take_out_app-keeps k w a h = elim (Option-cases (get_app k w.apps)) [
  | inl e ↦ rw (take_out_app, e) refl
  | inr (app, e) ↦ rw (take_out_app, e) (has_app-remove_app a k w.apps h)
]

pub take_out_app-none :
    (k : ℕ) (w : WorkerState) (a : ℕ)
    → has_app a w.apps ≡ false
    → has_app a (take_out_app k w).1.apps ≡ false
unfolding take_out_app
take_out_app-none k w a h = elim (Option-cases (get_app k w.apps)) [
  | inl e ↦ rw (take_out_app, e) h
  | inr (app, e) ↦ rw (take_out_app, e) (has_app-remove_app_none a k w.apps h)
]
