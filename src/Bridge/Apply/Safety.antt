-- ===== src/Bridge/Apply/Safety.antt =====
-- What `apply_plan` of wapod-pherry/src/bridge.rs may do to the apps of a worker, whichever of its
-- calls fail.
use wapo.Prelude.{
  ℕ, ◌==◌, ◌≡◌, refl, sym, subst, ◌∙◌, ◌⊎◌, inl, inr, if◌then◌else◌, List, [], ◌∷◌, Bool, true,
  false, not, ◌&&◌, All, All-map, All-both, Bool-cases, arith,
}
use wapo.Prelude.Calls.{Call, ◌>>=◌, return, bind-ok, bind-err}
use wapo.Prelude.Result.{Result-cases}
use wapo.Bridge.{Error, Ticket, AppInfo, BridgeState, Services}
use wapo.Bridge.Apply.{
  contains_key, without, app_deps, upload_blobs, deploy, deploy_apps, remove_apps, apply_plan,
}
use wapo.Bridge.Apply.Quiet.{IsWorker, IsQuiet, app_deps-IsQuiet, upload_blobs-IsQuiet}

pub contains_key-without {ℓ κ} :
    {A : Type ℓ} {B : Type κ} (a : ℕ) (m : List (ℕ × A)) (other : List (ℕ × B))
    → contains_key a (without m other) ≡ contains_key a m && not (contains_key a other)
unfolding contains_key without
contains_key-without a [] other = refl
contains_key-without a ((k, x) ∷ m) other = ground (arith, contains_key-without a m other)

pub All-without {ℓ κ μ} :
    {A : Type ℓ} {B : Type κ} (P : ℕ × A → Type μ) (m : List (ℕ × A)) (other : List (ℕ × B))
    → All P m
    → All P (without m other)
unfolding without
All-without P [] other h = tt
All-without P ((k, a) ∷ m) other h = elim (Bool-cases (contains_key k other)) [
  | inl e ↦ rw (without, e) (All-without P m other h.1)
  | inr e ↦ rw (without, e) (h.0, All-without P m other h.1)
]

pub without-absent {ℓ κ} :
    {A : Type ℓ} {B : Type κ} (m : List (ℕ × A)) (other : List (ℕ × B))
    → All (λ e. contains_key e.0 other ≡ false) (without m other)
unfolding without
without-absent [] other = tt
without-absent ((k, a) ∷ m) other = elim (Bool-cases (contains_key k other)) [
  | inl e ↦ rw (without, e) (without-absent m other)
  | inr e ↦ rw (without, e) (e, without-absent m other)
]

contains_key-weaken :
    {A : Type 0} (k : ℕ) (v : A) (sel es : List (ℕ × A))
    → All (λ e. contains_key e.0 sel ≡ true) es
    → All (λ e. contains_key e.0 ((k, v) ∷ sel) ≡ true) es
unfolding contains_key
contains_key-weaken k v sel es h =
    All-map (λ (e : ℕ × _). contains_key e.0 sel ≡ true)
      (λ e. contains_key e.0 ((k, v) ∷ sel) ≡ true) es (λ e c. ground arith) h

pub contains_key-All :
    {A : Type 0} (sel : List (ℕ × A)) → All (λ e. contains_key e.0 sel ≡ true) sel
unfolding contains_key
contains_key-All [] = tt
contains_key-All ((k, v) ∷ sel) =
    (ground arith, contains_key-weaken k v sel sel (contains_key-All sel))

module _ {App W : Type 0} (s : Services App W) (runs : W → ℕ → Bool)
    (worker : IsWorker s runs) where
  -- From `w` to `v` no wanted app stops, and no other app starts.
  abbrev pub Spared : (ℕ → Bool) → W → W → Type 0
  Spared wanted w v =
      (a : ℕ)
      → (wanted a ≡ true → runs w a ≡ true → runs v a ≡ true)
        × (runs v a ≡ true → (runs w a ≡ true) ⊎ (wanted a ≡ true))

  abbrev Spares : (ℕ → Bool) → {A : Type 0} → Call Error W A → Type 0
  Spares wanted m = (w : W) → Spared wanted w (m w).1

  module _ (wanted : ℕ → Bool) where
    Spared-trans : (u v w : W) → Spared wanted u v → Spared wanted v w → Spared wanted u w
    Spared-trans u v w p q a =
        let (p₀, p₁) = p a in
        let (q₀, q₁) = q a in
        (λ c r. q₀ c (p₀ c r), λ r. elim (q₁ r) [ inl h ↦ p₁ h | inr h ↦ inr h ])

    IsQuiet-Spares : {A : Type 0} (m : Call Error W A) → IsQuiet s runs worker m → Spares wanted m
    IsQuiet-Spares m q w a = (λ c h. q w a ∙ h, λ h. inl (sym (q w a) ∙ h))

    >>=-Spares :
        {A B : Type 0} (m : Call Error W A) (f : A → Call Error W B)
        → Spares wanted m
        → ((x : A) → Spares wanted (f x))
        → Spares wanted (m >>= f)
    >>=-Spares m f p q w = elim (Result-cases (m w).0) [
      | inl (e, h) ↦ subst (λ o. Spared wanted w o.1) (sym (bind-err m f w e h)) (p w)
      | inr (x, h) ↦
          subst (λ o. Spared wanted w o.1) (sym (bind-ok m f w x h))
            (Spared-trans w (m w).1 (f x (m w).1).1 (p w) (q x (m w).1))
    ]

    deploy-Spares :
        (r : Bool) (app : App) → wanted (s.address app) ≡ true → Spares wanted (deploy s r app)
    unfolding deploy
    deploy-Spares r app h w a = elim (Bool-cases (s.address app == a)) [
      | inl e ↦
          let same : s.address app ≡ a = ground arith in
          (λ c. worker.deploy_keeps app r w a, λ v. inr (subst (λ b. wanted b ≡ true) same h))
      | inr e ↦
          let other = worker.deploy_other app r w a e in
          (λ c v. other ∙ v, λ v. inl (sym other ∙ v))
    ]

    Spares-if :
        (b : Bool) (m : Call Error W Unit)
        → Spares wanted m
        → Spares wanted (if b then m else return tt)
    Spares-if true m p w a = p w a
    Spares-if false m p w a = (λ c v. v, λ v. inl v)

    deploy_apps-Spares :
        (r : Bool) (tickets : List (ℕ × Ticket App)) (apps : List (ℕ × AppInfo App))
        → All (λ e. wanted (s.address e.1.manifest) ≡ true) apps
        → Spares wanted (deploy_apps s r tickets apps)
    unfolding deploy_apps
    deploy_apps-Spares r tickets [] h = λ w a. (λ c v. v, λ v. inl v)
    deploy_apps-Spares r tickets ((address, info) ∷ apps) h =
        let once : Bool → Call Error W Unit =
          λ there. if there then deploy s r info.manifest else return tt in
        let rest : Call Error W Unit = deploy_apps s r tickets apps in
        let once_spares : (there : Bool) → Spares wanted (once there) =
          λ there. Spares-if there (deploy s r info.manifest) (deploy-Spares r info.manifest h.0) in
        >>=-Spares (app_deps s tickets info.associated_tickets [])
          (λ deps. upload_blobs s deps >>= λ there. once there >>= λ u. rest)
          (IsQuiet-Spares (app_deps s tickets info.associated_tickets [])
            (app_deps-IsQuiet s runs worker tickets info.associated_tickets []))
          (λ deps.
            >>=-Spares (upload_blobs s deps) (λ there. once there >>= λ u. rest)
              (IsQuiet-Spares (upload_blobs s deps) (upload_blobs-IsQuiet s runs worker deps))
              (λ there.
                >>=-Spares (once there) (λ u. rest) (once_spares there)
                  (λ u. deploy_apps-Spares r tickets apps h.1)))

    remove_apps-Spares :
        (apps : List (ℕ × ℕ))
        → All (λ e. wanted e.0 ≡ false) apps
        → Spares wanted (remove_apps s apps)
    unfolding remove_apps
    remove_apps-Spares [] h w = λ a. (λ c v. v, λ v. inl v)
    remove_apps-Spares ((b, n) ∷ apps) h w =
        let v = (s.app_remove b w).1 in
        let first : Spared wanted w v = λ a. elim (Bool-cases (b == a)) [
          | inl e ↦
              let same : b ≡ a = ground arith in
              let not_wanted = subst (λ c. wanted c ≡ false) same h.0 in
              (
                λ c r. cc,
                λ r. elim (Bool-cases (runs w a)) [
                  | inl k ↦ inl k
                  | inr k ↦ let gone = worker.remove_starts_none b w a k in cc
                ],
              )
          | inr e ↦
              let other = worker.remove_other b w a e in
              (λ c r. other ∙ r, λ r. inl (sym other ∙ r))
        ] in
        Spared-trans w v (remove_apps s apps v).1 first (remove_apps-Spares apps h.1 v)

  -- Every app of a plan stands under the address of its manifest.
  abbrev pub Keyed : List (ℕ × AppInfo App) → Type 0
  Keyed apps = All (λ e. s.address e.1.manifest ≡ e.0) apps

  pub wanted_selected :
      (sel : List (ℕ × AppInfo App))
      → Keyed sel
      → All (λ e. contains_key (s.address e.1.manifest) sel ≡ true) sel
  wanted_selected sel keyed =
      All-map
        (λ (e : ℕ × AppInfo App). (s.address e.1.manifest ≡ e.0) × (contains_key e.0 sel ≡ true))
        (λ e. contains_key (s.address e.1.manifest) sel ≡ true) sel
        (λ e h. subst (λ k. contains_key k sel ≡ true) (sym h.0) h.1)
        (All-both (λ e. s.address e.1.manifest ≡ e.0) (λ e. contains_key e.0 sel ≡ true) sel keyed
          (contains_key-All sel))

  -- Whichever calls of `apply_plan` fail, and also if it returns early: an app that is selected and
  -- runs before runs after; and an app that runs after ran before or is selected.
  pub apply_plan-spares :
      (self : BridgeState App) (w : W)
      → Keyed self.planning_state.selected_apps
      → Spared (λ a. contains_key a self.planning_state.selected_apps) w (apply_plan s self w).1
  unfolding apply_plan
  apply_plan-spares self w keyed =
      let sel = self.planning_state.selected_apps in
      let wanted : ℕ → Bool = λ a. contains_key a sel in
      let plan = self.planning_state in
      let deploys : List (ℕ × ℕ) → Call Error W Unit =
        λ apps. deploy_apps s self.config.reuse_instances plan.tickets (without sel apps) in
      let removes : List (ℕ × ℕ) → Call Error W Unit = λ apps. remove_apps s (without apps sel) in
      let wants = λ (e : ℕ × AppInfo App). contains_key (s.address e.1.manifest) sel ≡ true in
      >>=-Spares wanted s.info (λ info. s.app_list >>= λ apps. deploys apps >>= λ u. removes apps)
        (IsQuiet-Spares wanted s.info worker.info_quiet)
        (λ info.
          >>=-Spares wanted s.app_list (λ apps. deploys apps >>= λ u. removes apps)
            (IsQuiet-Spares wanted s.app_list worker.app_list_quiet)
            (λ apps.
              >>=-Spares wanted (deploys apps) (λ u. removes apps)
                (deploy_apps-Spares wanted self.config.reuse_instances plan.tickets
                  (without sel apps) (All-without wants sel apps (wanted_selected sel keyed)))
                (λ u. remove_apps-Spares wanted (without apps sel) (without-absent apps sel))))
        w
