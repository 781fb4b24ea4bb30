-- ===== src/Bridge/Apply/Success.antt =====
-- What it means that the calls which `apply_plan` of wapod-pherry/src/bridge.rs makes, in the states in
-- which it makes them, succeed.
use wapo.Prelude.{ℕ, ◌≡◌, refl, sym, subst, ap, ◌∙◌, List, [], ◌∷◌, some, Bool, true, All}
use wapo.Prelude.Assoc.{find}
use wapo.Prelude.Calls.{bind-ok}
use wapo.Prelude.Result.{Result, ok, err}
use wapo.Bridge.{Error, Ticket, AppInfo, BridgeState, Services}
use wapo.Bridge.Apply.{without, insert_deps, ticket_deps, app_deps, upload_blobs, deploy_apps}

-- The call succeeded, and what it answered satisfies the predicate.
abbrev pub Succeeds : {A : Type 0} → Result Error A → (A → Type 0) → Type 0
Succeeds (ok a) P = P a
Succeeds (err e) P = ⊥

pub Succeeds-ok :
    {A : Type 0} (r : Result Error A) (P : A → Type 0) → Succeeds r P → (a : A) × (r ≡ ok a) × P a
Succeeds-ok (ok a) P h = (a, refl, h)
Succeeds-ok (err e) P h = elim h [ ]

-- The predicate holds of the answer, if there is one.
abbrev pub IfOk : {A : Type 0} → Result Error A → (A → Type 0) → Type 0
IfOk (ok a) P = P a
IfOk (err e) P = Unit

pub IfOk-ok : {A : Type 0} (r : Result Error A) (P : A → Type 0) (a : A) → r ≡ ok a → IfOk r P → P a
IfOk-ok (ok b) P a e h = let same : b ≡ a = cc in subst P same h
IfOk-ok (err x) P a e h = cc

module _ {App W : Type 0} (s : Services App W) where
  -- From a state on, the loop over the apps to deploy: the blobs of each app are there or get there,
  -- and the worker takes the app.
  abbrev pub Deploys : Bool → List (ℕ × Ticket App) → List (ℕ × AppInfo App) → W → Type 0
  Deploys r tickets [] w = Unit
  Deploys r tickets ((address, info) ∷ apps) w =
      let (found, w₁) = app_deps s tickets info.associated_tickets [] w in
      IfOk found (λ deps.
        let (there, w₂) = upload_blobs s deps w₁ in
        (there ≡ ok true)
        × (let (deployed, w₃) = s.app_deploy info.manifest r w₂ in
            Succeeds deployed (λ b. Deploys r tickets apps w₃)))

  -- The loop over the apps to remove.
  abbrev pub Removes : List (ℕ × ℕ) → W → Type 0
  Removes [] w = Unit
  Removes ((b, n) ∷ apps) w =
      let (removed, w') = s.app_remove b w in Succeeds removed (λ u. Removes apps w')

  -- `apply_plan`; `Few` says that the apps fit into an answer of `app_list`.
  abbrev pub Applies : (W → Type 0) → BridgeState App → W → Type 0
  Applies Few self w =
      let plan = self.planning_state in
      let (info, w₁) = s.info w in
      let (listed, w₂) = s.app_list w₁ in
      Few w₁
      × Succeeds info (λ i. Succeeds listed (λ apps.
        let deploys = without plan.selected_apps apps in
        Deploys self.config.reuse_instances plan.tickets deploys w₂
        × Removes (without apps plan.selected_apps)
            (deploy_apps s self.config.reuse_instances plan.tickets deploys w₂).1))

  -- Every ticket of an app is a ticket of the plan.
  abbrev pub HasTickets : List (ℕ × Ticket App) → List ℕ → Type 0
  HasTickets tickets ids = All (λ id. (t : Ticket App) × (find id tickets ≡ some t)) ids

  pub app_deps-ok :
      (tickets : List (ℕ × Ticket App)) (ids : List ℕ) (deps : List (ℕ × ℕ)) (w : W)
      → HasTickets tickets ids
      → (found : List (ℕ × ℕ)) × ((app_deps s tickets ids deps w).0 ≡ ok found)
  unfolding app_deps ticket_deps
  app_deps-ok tickets [] deps w h = (deps, refl)
  app_deps-ok tickets (id ∷ ids) deps w h =
      let (t, e) = h.0 in
      let blobs = s.required_blobs t.manifest in
      let ticket = ticket_deps s (find id tickets) in
      let here : (ticket w).0 ≡ ok blobs =
        subst (λ o. (ticket_deps s o w).0 ≡ ok blobs) (sym e) refl in
      let (found, r) = app_deps-ok tickets ids (insert_deps blobs deps) (ticket w).1 h.1 in
      let rest = λ (b : List (ℕ × ℕ)). app_deps s tickets ids (insert_deps b deps) in
      (found, ap (λ o. o.0) (bind-ok ticket rest w blobs here) ∙ r)
