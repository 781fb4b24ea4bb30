-- ===== src/Bridge/Apply/Convergence.antt =====
-- What a worker runs after `apply_plan` of wapod-pherry/src/bridge.rs if its calls succeed.
use wapo.Prelude.{
  ℕ, ◌==◌, ◌≡◌, refl, sym, subst, ap, ap₂, ◌∙◌, inl, inr, if◌then◌else◌, List, [], ◌∷◌, Bool, true,
  false, not, ◌&&◌, ◌||◌, All, Bool-cases, arith,
}
use wapo.Prelude.Calls.{Call, ◌>>=◌, return, bind-ok}
use wapo.Prelude.Result.{ok}
use wapo.Bridge.{Error, Ticket, AppInfo, BridgeState, Services}
use wapo.Bridge.Apply.{
  contains_key, without, app_deps, upload_blobs, deploy, deploy_apps, remove_apps, apply_plan,
}
use wapo.Bridge.Apply.Quiet.{IsWorker, IsHonest, app_deps-IsQuiet, upload_blobs-IsQuiet}
use wapo.Bridge.Apply.Safety.{contains_key-without, All-without, Keyed}
use wapo.Bridge.Apply.Success.{
  Succeeds-ok, IfOk-ok, HasTickets, app_deps-ok, Deploys, Removes, Applies,
}

or_assoc : (x y z : Bool) → ((x || y) || z) ≡ (x || (y || z))
or_assoc true y z = refl
or_assoc false y z = refl

and_not_or : (x y z : Bool) → ((x && not y) && not z) ≡ (x && not (y || z))
and_not_or true true z = refl
and_not_or true false z = refl
and_not_or false y z = refl

-- Deploying what is missing and removing what is too much leaves the selection.
settled :
    (running selected : Bool)
    → ((running || (selected && not running)) && not (running && not selected)) ≡ selected
settled true true = refl
settled true false = refl
settled false true = refl
settled false false = refl

module _ {App W : Type 0} (s : Services App W) (runs : W → ℕ → Bool) (Few : W → Type 0)
    (worker : IsWorker s runs) (honest : IsHonest s runs Few) where
  deploy-runs :
      (r : Bool) (app : App) (w : W) (b a : ℕ)
      → (s.app_deploy app r w).0 ≡ ok b
      → runs (deploy s r app w).1 a ≡ runs w a || (s.address app == a)
  unfolding deploy
  deploy-runs r app w b a d = elim (Bool-cases (s.address app == a)) [
    | inl e ↦
        let same : s.address app ≡ a = ground arith in
        let now =
          subst (λ c. runs (s.app_deploy app r w).1 c ≡ true) same
            (honest.deploy_runs app r w b d) in
        elim (Bool-cases (runs w a)) [ inl q ↦ cc | inr q ↦ cc ]
    | inr e ↦
        let other = worker.deploy_other app r w a e in
        elim (Bool-cases (runs w a)) [ inl q ↦ cc | inr q ↦ cc ]
  ]

  -- The call succeeds, and afterwards exactly the apps that `change` says run.
  abbrev Turns : (Bool → ℕ → Bool) → Call Error W Unit → W → Type 0
  Turns change m w = ((m w).0 ≡ ok tt) × ((a : ℕ) → runs (m w).1 a ≡ change (runs w a) a)

  deploy_apps-Turns :
      (r : Bool) (tickets : List (ℕ × Ticket App)) (apps : List (ℕ × AppInfo App)) (w : W)
      → Keyed s runs worker apps
      → All (λ e. HasTickets s tickets e.1.associated_tickets) apps
      → Deploys s r tickets apps w
      → Turns (λ b a. b || contains_key a apps) (deploy_apps s r tickets apps) w
  unfolding deploy_apps contains_key
  deploy_apps-Turns r tickets [] w k known h =
      (refl, λ a. elim (Bool-cases (runs w a)) [ inl q ↦ cc | inr q ↦ cc ])
  deploy_apps-Turns r tickets ((address, i) ∷ apps) w k known h =
      let found = (app_deps s tickets i.associated_tickets [] w).0 in
      let w₁ = (app_deps s tickets i.associated_tickets [] w).1 in
      let (deps, e) = app_deps-ok s tickets i.associated_tickets [] w known.0 in
      let (there, deployed) = IfOk-ok found _ deps e h in
      let w₂ = (upload_blobs s deps w₁).1 in
      let v = (deploy s r i.manifest w₂).1 in
      let (b, d, left) = Succeeds-ok (s.app_deploy i.manifest r w₂).0 _ deployed in
      let rest : Call Error W Unit = deploy_apps s r tickets apps in
      let once : Bool → Call Error W Unit =
        λ there. if there then deploy s r i.manifest else return tt in
      let steps : deploy_apps s r tickets ((address, i) ∷ apps) w ≡ rest v =
        bind-ok (app_deps s tickets i.associated_tickets [])
          (λ d. upload_blobs s d >>= λ there. once there >>= λ u. rest) w deps e
        ∙ bind-ok (upload_blobs s deps) (λ there. once there >>= λ u. rest) w₁ true there in
      let before : (a : ℕ) → runs w₂ a ≡ runs w a = λ a.
        upload_blobs-IsQuiet s runs worker deps w₁ a
        ∙ app_deps-IsQuiet s runs worker tickets i.associated_tickets [] w a in
      let (done, all) = deploy_apps-Turns r tickets apps v k.1 known.1 left in
      (
        ap (λ o. o.0) steps ∙ done,
        λ a.
            ap (λ o. runs o.1 a) steps
            ∙ all a
            ∙ ap (λ b. b || contains_key a apps)
                (deploy-runs r i.manifest w₂ b a d
                  ∙ ap (λ b. b || (s.address i.manifest == a)) (before a))
            ∙ or_assoc (runs w a) (s.address i.manifest == a) (contains_key a apps)
            ∙ ap (λ d. runs w a || ((d == a) || contains_key a apps)) k.0,
      )

  remove-runs :
      (b : ℕ) (w : W) (a : ℕ)
      → (s.app_remove b w).0 ≡ ok tt
      → runs (s.app_remove b w).1 a ≡ runs w a && not (b == a)
  remove-runs b w a r = elim (Bool-cases (b == a)) [
    | inl e ↦
        let same : b ≡ a = ground arith in
        let gone =
          subst (λ c. runs (s.app_remove b w).1 c ≡ false) same (honest.remove_ends b w r) in
        elim (Bool-cases (runs w a)) [ inl q ↦ cc | inr q ↦ cc ]
    | inr e ↦
        let other = worker.remove_other b w a e in
        elim (Bool-cases (runs w a)) [ inl q ↦ cc | inr q ↦ cc ]
  ]

  remove_apps-Turns :
      (apps : List (ℕ × ℕ)) (w : W)
      → Removes s apps w
      → Turns (λ b a. b && not (contains_key a apps)) (remove_apps s apps) w
  unfolding remove_apps contains_key
  remove_apps-Turns [] w h = (refl, λ a. elim (Bool-cases (runs w a)) [ inl q ↦ cc | inr q ↦ cc ])
  remove_apps-Turns ((b, n) ∷ apps) w h =
      let v = (s.app_remove b w).1 in
      let (u, r, left) = Succeeds-ok (s.app_remove b w).0 _ h in
      let (done, all) = remove_apps-Turns apps v left in
      (
        done,
        λ a.
            all a
            ∙ ap (λ o. o && not (contains_key a apps)) (remove-runs b w a r)
            ∙ and_not_or (runs w a) (b == a) (contains_key a apps),
      )

  -- If the calls that it makes succeed, `apply_plan` answers Ok, and the worker then runs exactly the
  -- selected apps, whatever it ran before.
  pub apply_plan-converges :
      (self : BridgeState App) (w : W)
      → Keyed s runs worker self.planning_state.selected_apps
      → All
          (λ e. HasTickets s self.planning_state.tickets e.1.associated_tickets)
          self.planning_state.selected_apps
      → Applies s Few self w
      → ((apply_plan s self w).0 ≡ ok tt)
        × ((a : ℕ)
            → runs (apply_plan s self w).1 a ≡ contains_key a self.planning_state.selected_apps)
  unfolding apply_plan
  apply_plan-converges self w keyed known (few, calls) =
      let plan = self.planning_state in
      let sel = plan.selected_apps in
      let deploys : List (ℕ × ℕ) → Call Error W Unit =
        λ apps. deploy_apps s self.config.reuse_instances plan.tickets (without sel apps) in
      let removes : List (ℕ × ℕ) → Call Error W Unit = λ apps. remove_apps s (without apps sel) in
      let (i, ie, calls₁) = Succeeds-ok (s.info w).0 _ calls in
      let w₁ = (s.info w).1 in
      let (apps, ae, calls₂) = Succeeds-ok (s.app_list w₁).0 _ calls₁ in
      let w₂ = (s.app_list w₁).1 in
      let (dd, da) =
        deploy_apps-Turns self.config.reuse_instances plan.tickets (without sel apps) w₂
          (All-without (λ e. s.address e.1.manifest ≡ e.0) sel apps keyed)
          (All-without (λ e. HasTickets s plan.tickets e.1.associated_tickets) sel apps known)
          calls₂.0 in
      let w₃ = (deploys apps w₂).1 in
      let (rd, ra) = remove_apps-Turns (without apps sel) w₃ calls₂.1 in
      let steps : apply_plan s self w ≡ removes apps w₃ =
        bind-ok s.info (λ info. s.app_list >>= λ l. deploys l >>= λ u. removes l) w i ie
        ∙ bind-ok s.app_list (λ l. deploys l >>= λ u. removes l) w₁ apps ae
        ∙ bind-ok (deploys apps) (λ u. removes apps) w₂ tt dd in
      let listed : (a : ℕ) → contains_key a apps ≡ runs w₂ a =
        λ a. honest.app_list_true w₁ apps few ae a ∙ sym (worker.app_list_quiet w₁ a) in
      (
        ap (λ o. o.0) steps ∙ rd,
        λ a.
            ap (λ o. runs o.1 a) steps
            ∙ ra a
            ∙ ap (λ b. b && not (contains_key a (without apps sel))) (da a)
            ∙ ap₂ (λ x y. (runs w₂ a || x) && not y) (contains_key-without a sel apps)
                (contains_key-without a apps sel)
            ∙ ap
                (λ c.
                  (runs w₂ a || (contains_key a sel && not c))
                  && not (c && not (contains_key a sel)))
                (listed a)
            ∙ settled (runs w₂ a) (contains_key a sel),
      )
