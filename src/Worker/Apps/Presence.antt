-- ===== src/Worker/Apps/Presence.antt =====
-- Which apps a worker has after a call of wapod/src/state.rs that succeeds: `deploy_app` leaves the app
-- there, `remove_app` does not.
use wapo.Prelude.{
  ℕ, ◌≡◌, refl, subst, sym, ap, inl, inr, if◌then◌else◌, List, [], ◌∷◌, none, some, Bool, true,
  false, arith, Option-cases,
}
use wapo.Prelude.Result.{Result, Result-cases, ok, err}
use wapo.Worker.{WorkerState, Error, app_not_found, AppState, AppManifest, get_app, remove_app}
use wapo.Worker.Instances.{M, ◌>>=◌, Launch}
use wapo.Worker.Apps.Keys.{has_app}
use wapo.Worker.Instances.Resize.{resize_app_instances}
use wapo.Worker.Apps.{refuse_manifest, insert_app, deployed, deploy_app, take_out_app}

get_app-has_app :
    (a : ℕ) (app : AppState) (apps : List (ℕ × AppState))
    → get_app a apps ≡ some app
    → has_app a apps ≡ true
unfolding get_app has_app
get_app-has_app a app [] e = cc
get_app-has_app a app ((k, b) ∷ apps) e = ground (arith, get_app-has_app a app apps)

has_app-remove_app_self :
    (a : ℕ) (apps : List (ℕ × AppState)) → has_app a (remove_app a apps) ≡ false
unfolding has_app remove_app
has_app-remove_app_self a [] = refl
has_app-remove_app_self a ((k, b) ∷ apps) = ground (arith, has_app-remove_app_self a apps)

-- If it succeeds, the app is there.
abbrev Leaves : {A : Type 0} → ℕ → M A → Type 0
Leaves a m = (w : WorkerState) → (x : _) → (m w).0 ≡ ok x → has_app a (m w).1.apps ≡ true

>>=-Leaves :
    {A B : Type 0} (a : ℕ) (m : M A) (f : A → M B) → ((x : A) → Leaves a (f x)) → Leaves a (m >>= f)
>>=-Leaves {A = A} {B = B} a m f l w x h =
    let w' = (m w).1 in
    let next : Result Error A → Result Error B × WorkerState =
      λ r. elim r as (λ o. Result Error B × WorkerState) [ ok y ↦ f y w' | err e ↦ (err e, w') ] in
    elim (Result-cases (m w).0) [
      | inl (e, r) ↦ let failed : ((m >>= f) w).0 ≡ err e = ap (λ o. (next o).0) r in cc
      | inr (y, r) ↦
          let goes_on : (m >>= f) w ≡ f y w' = ap next r in
          subst (λ (o : Result Error B × WorkerState). o.0 ≡ ok x → has_app a o.1.apps ≡ true)
            (sym goes_on) (l y w' x) h
    ]

deployed-Leaves : (a : ℕ) → Leaves a (deployed a)
unfolding deployed
deployed-Leaves a w x h = elim (Option-cases (get_app a w.apps)) [
  | inl e ↦ let failed : (deployed a w).0 ≡ err app_not_found = rw (deployed, e) refl in cc
  | inr (app, e) ↦ rw (deployed, e) (get_app-has_app a app w.apps e)
]

pub deploy_app-Leaves :
    (launch : Launch) (address : AppManifest → ℕ) (now session : ℕ) (manifest : AppManifest)
    (restart reuse : Bool)
    → Leaves (address manifest) (deploy_app launch address now session manifest restart reuse)
unfolding deploy_app
deploy_app-Leaves launch address now session manifest restart reuse w x h =
    let all : M AppState = deploy_app launch address now session manifest restart reuse in
    let own = address manifest in
    let start : M (Unit {0}) =
      if manifest.on_demand
      then (λ v. (ok tt, v))
      else (resize_app_instances launch now own 1 none >>= λ r v. (ok tt, v)) in
    let enter : M (Unit {0}) = insert_app now session own manifest restart reuse in
    let rest : M AppState = enter >>= λ entered. start >>= λ started. deployed own in
    elim (Option-cases (refuse_manifest manifest)) [
      | inr (y, e) ↦ let failed : (all w).0 ≡ err y = rw (deploy_app, e) refl in cc
      | inl e ↦
          let goes_on : all w ≡ rest w = rw (deploy_app, e) refl in
          subst
            (λ (o : Result Error AppState × WorkerState). o.0 ≡ ok x → has_app own o.1.apps ≡ true)
            (sym goes_on)
            (>>=-Leaves own enter (λ entered. start >>= λ started. deployed own)
              (λ entered.
                >>=-Leaves own start (λ started. deployed own) (λ started. deployed-Leaves own))
              w x)
            h
    ]

pub take_out_app-ends :
    (a : ℕ) (w : WorkerState) (x : AppState)
    → (take_out_app a w).0 ≡ ok x
    → has_app a (take_out_app a w).1.apps ≡ false
unfolding take_out_app
take_out_app-ends a w x h = elim (Option-cases (get_app a w.apps)) [
  | inl e ↦ let failed : (take_out_app a w).0 ≡ err app_not_found = rw (take_out_app, e) refl in cc
  | inr (app, e) ↦ rw (take_out_app, e) (has_app-remove_app_self a w.apps)
]
