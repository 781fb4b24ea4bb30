-- ===== src/Bridge/Plan/Update/Convergence.antt =====
-- What a worker runs after `update_plan` of wapod-pherry/src/bridge.rs: the plan that it makes has
-- what `apply_plan` needs.
use wapo.Prelude.{
  ℕ, ◌==◌, ◌≡◌, refl, sym, subst, ap, ◌∙◌, inl, inr, ltb, List, [], ◌∷◌, some, Bool, All, All-map,
  Bool-cases, Option-cases, arith,
}
use wapo.Prelude.Assoc.{find}
use wapo.Prelude.Calls.{Call, ◌>>=◌, bind-ok}
use wapo.Prelude.Result.{Result, Result-cases, ok, err}
use wapo.Bridge.{Error, Ticket, AppInfo, BridgeState, WorkerInfo, Services}
use wapo.Bridge.Apply.{apply_plan, contains_key}
use wapo.Bridge.Apply.Quiet.{IsWorker, IsHonest}
use wapo.Bridge.Apply.Success.{Succeeds, Succeeds-ok, HasTickets, Applies}
use wapo.Bridge.Apply.Convergence.{apply_plan-converges}
use wapo.Bridge.Plan.{insert_id, add_ticket}
use wapo.Bridge.Plan.Selection.{All-select_apps}
use wapo.Bridge.Plan.Update.{
  balance_of_ticket, gather_apps, with_plan, outside, try_resolve_deps, update_plan,
}
use wapo.Bridge.Plan.Update.Balances.{
  next_apps, gather_apps-skips, gather_apps-adds, gather_apps-fails,
}

All-insert_id : (P : ℕ → Type 0) (k : ℕ) (m : List ℕ) → P k → All P m → All P (insert_id k m)
unfolding insert_id
All-insert_id P k [] p h = (p, tt)
All-insert_id P k (j ∷ m) p h = elim (Bool-cases (j == k)) [
  | inl e ↦ rw (insert_id, e) h
  | inr e ↦ elim (Bool-cases (ltb k j)) [
    | inl l ↦ rw (insert_id, e, l) (p, h)
    | inr l ↦ rw (insert_id, e, l) (h.0, All-insert_id P k m p h.1)
  ]
]

module _ {App : Type 0} (address : App → ℕ) (known : ℕ → Type 0) where
  -- An app of a plan stands under the address of its manifest, and its tickets are known.
  abbrev IsPlanned : ℕ × AppInfo App → Type 0
  IsPlanned e = (address e.1.manifest ≡ e.0) × All known e.1.associated_tickets

  add_ticket-IsPlanned :
      (app : App) (id b : ℕ) (m : List (ℕ × AppInfo App))
      → known id
      → All IsPlanned m
      → All IsPlanned (add_ticket (address app) app id b m)
  unfolding add_ticket
  add_ticket-IsPlanned app id b [] k h = ((refl, (k, tt)), tt)
  add_ticket-IsPlanned app id b ((j, i) ∷ m) k h = elim (Bool-cases (j == address app)) [
    | inl e ↦
        let more = All-insert_id known id i.associated_tickets k h.0.1 in
        rw (add_ticket, e) ((h.0.0, more), h.1)
    | inr e ↦ elim (Bool-cases (ltb (address app) j)) [
      | inl l ↦ rw (add_ticket, e, l) ((refl, (k, tt)), h)
      | inr l ↦ rw (add_ticket, e, l) (h.0, add_ticket-IsPlanned app id b m k h.1)
    ]
  ]

find-head :
    {A : Type 0} (k : ℕ) (a : A) (m : List (ℕ × A)) (j : ℕ)
    → (b : A) × (find j m ≡ some b)
    → (b : A) × (find j ((k, a) ∷ m) ≡ some b)
unfolding find
find-head k a m j (b, e) = elim (Bool-cases (k == j)) [
  | inl q ↦ (a, rw (find, q) refl)
  | inr q ↦ (b, rw (find, q) e)
]

-- Every key of a map is found.
find-All : {A : Type 0} (m : List (ℕ × A)) → All (λ e. (b : A) × (find e.0 m ≡ some b)) m
unfolding find
find-All [] = tt
find-All ((k, a) ∷ m) = (
  (a, ground arith),
  All-map (λ (e : ℕ × _). (b : _) × (find e.0 m ≡ some b))
      (λ e. (b : _) × (find e.0 ((k, a) ∷ m) ≡ some b)) m (λ e h. find-head k a m e.0 h)
      (find-All m),
)

module _ {App W : Type 0} (s : Services App W) where
  abbrev tickets_of : BridgeState App × W → List (ℕ × Ticket App)
  tickets_of c = c.0.planning_state.tickets

  balance_of_ticket-tickets :
      (id b : ℕ) (c : BridgeState App × W)
      → (balance_of_ticket s id c).0 ≡ ok b
      → tickets_of (balance_of_ticket s id c).1 ≡ tickets_of c
  unfolding balance_of_ticket
  balance_of_ticket-tickets id b c h =
      elim (Option-cases (find id c.0.planning_state.ticket_balances)) [
        | inl e ↦ elim (Result-cases (s.ticket_balance id c.1).0) [
          | inl (x, r) ↦
              let failed : (balance_of_ticket s id c).0 ≡ err x =
                rw (balance_of_ticket, e, r) refl in
              cc
          | inr (v, r) ↦ rw (balance_of_ticket, e, r) refl
        ]
        | inr (v, e) ↦ rw (balance_of_ticket, e) refl
      ]

  -- If the loop over the tickets succeeds, then it keeps the tickets, and plans only what `IsPlanned`
  -- says.
  gather_apps-plans :
      (known : ℕ → Type 0) (ts : List (ℕ × Ticket App)) (m apps : List (ℕ × AppInfo App))
      (c : BridgeState App × W)
      → All (λ e. known e.0) ts
      → All (IsPlanned s.address known) m
      → (gather_apps s ts m c).0 ≡ ok apps
      → (tickets_of (gather_apps s ts m c).1 ≡ tickets_of c) × All (IsPlanned s.address known) apps
  unfolding gather_apps
  gather_apps-plans known [] m apps c k h done =
      let same : m ≡ apps = cc in (refl, subst (All (IsPlanned s.address known)) same h)
  gather_apps-plans known ((id, t) ∷ ts) m apps c k h done =
      elim (Bool-cases (t.info.address == s.address t.manifest)) [
        | inl q ↦ elim (Result-cases (balance_of_ticket s id c).0) [
          | inl (x, r) ↦
              let failed = ap (λ o. o.0) (gather_apps-fails s id t ts m c x q r) in
              cc (failed, done)
          | inr (b, r) ↦
              let adds = gather_apps-adds s id t ts m c b q r in
              let c₁ = (balance_of_ticket s id c).1 in
              let planned = add_ticket-IsPlanned s.address known t.manifest id b m k.0 h in
              let (same, all) =
                gather_apps-plans known ts (next_apps s id t ts m c b) apps c₁ k.1 planned
                  (ap (λ o. o.0) (sym adds) ∙ done) in
              (ap (λ o. tickets_of o.1) adds ∙ same ∙ balance_of_ticket-tickets id b c r, all)
        ]
        | inr q ↦
            let skips = gather_apps-skips s id t ts m c q in
            let (same, all) =
              gather_apps-plans known ts m apps c k.1 h (ap (λ o. o.0) (sym skips) ∙ done) in
            (ap (λ o. tickets_of o.1) skips ∙ same, all)
      ]

  -- The calls that `update_plan` makes once it has the tickets, in the states in which it makes them,
  -- succeed.
  abbrev pub Updates : (W → Type 0) → BridgeState App → W → Type 0
  Updates Few self w =
      let resolved = try_resolve_deps s self.chain_state.tickets (self, w) in
      let (info, w₁) = s.info resolved.1 in
      Succeeds info (λ i.
        let (gathered, last) = gather_apps s (tickets_of resolved) [] (resolved.0, w₁) in
        Succeeds gathered (λ apps. Applies s Few (with_plan s i apps last.0) last.1))

  module _ (runs : W → ℕ → Bool) (Few : W → Type 0) (worker : IsWorker s runs)
      (honest : IsHonest s runs Few) where
    -- If the calls that it makes for its plan succeed, then whatever tickets resolve, update_plan
    -- answers Ok, and the worker then runs exactly the apps that the new plan selects.
    pub update_plan-converges :
        (self : BridgeState App) (w : W)
        → Updates Few self w
        → ((update_plan s (self, w)).0 ≡ ok tt)
          × ((a : ℕ)
              → runs (update_plan s (self, w)).1.1 a
                ≡ contains_key a (update_plan s (self, w)).1.0.planning_state.selected_apps)
    unfolding update_plan with_plan
    update_plan-converges self w calls =
        let resolved = try_resolve_deps s self.chain_state.tickets (self, w) in
        let ts = tickets_of resolved in
        let known : ℕ → Type 0 = λ id. (t : Ticket App) × (find id ts ≡ some t) in
        let (i, ie, calls₁) = Succeeds-ok (s.info resolved.1).0 _ calls in
        let asked : BridgeState App × W = (resolved.0, (s.info resolved.1).1) in
        let (apps, done, calls₂) = Succeeds-ok (gather_apps s ts [] asked).0 _ calls₁ in
        let (same, all) = gather_apps-plans known ts [] apps asked (find-All ts) tt done in
        let last = (gather_apps s ts [] asked).1 in
        let planned = with_plan s i apps last.0 in
        let enter : WorkerInfo
            → List (ℕ × AppInfo App)
            → Call Error (BridgeState App × W) (Unit {0}) =
          λ info l c.
            let next = with_plan s info l c.0 in
            let r = apply_plan s next c.1 in (r.0, (next, r.1)) in
        let steps : update_plan s (self, w)
            ≡ ((apply_plan s planned last.1).0, (planned, (apply_plan s planned last.1).1)) =
          bind-ok (outside s s.info) (λ info. gather_apps s ts [] >>= enter info) resolved i ie
          ∙ bind-ok (gather_apps s ts []) (enter i) asked apps done in
        let selected =
          All-select_apps (IsPlanned s.address known) last.0.config.max_apps apps all in
        let keyed =
          All-map (IsPlanned s.address known) (λ e. s.address e.1.manifest ≡ e.0)
            planned.planning_state.selected_apps (λ e h. h.0) selected in
        let has =
          All-map (IsPlanned s.address known)
            (λ e. HasTickets s planned.planning_state.tickets e.1.associated_tickets)
            planned.planning_state.selected_apps
            (λ e h. subst (λ l. HasTickets s l e.1.associated_tickets) (sym same) h.1) selected in
        let converged =
          apply_plan-converges s runs Few worker honest planned last.1 keyed has calls₂ in
        (
          ap (λ o. o.0) steps ∙ converged.0,
          λ a.
              subst
                (λ (o : Result Error (Unit {0}) × (BridgeState App × W)).
                  runs o.1.1 a ≡ contains_key a o.1.0.planning_state.selected_apps)
                (sym steps) (converged.1 a),
        )
