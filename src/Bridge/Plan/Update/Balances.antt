-- ===== src/Bridge/Plan/Update/Balances.antt =====
-- What `update_plan` of wapod-pherry/src/bridge.rs enters as the balance of an app: the balances of
-- its tickets together.
use wapo.Prelude.{
  ℕ, ◌+◌, ◌%◌, ◌==◌, ◌≡◌, refl, sym, ◌∙◌, ap, subst, inl, inr, if◌then◌else◌, List, [], ◌∷◌, Option,
  none, some, Bool, true, false, Bool-cases, Option-cases, u128_mod, arith,
}
use wapo.Prelude.Assoc.{find}
use wapo.Prelude.Calls.{bind-ok, bind-err}
use wapo.Prelude.Result.{Result-cases, ok, err}
use wapo.Bridge.{Error, Ticket, AppInfo, BridgeState, Services}
use wapo.Bridge.Plan.{add_ticket}
use wapo.Bridge.Plan.Update.{balance_of_ticket, gather_apps}
use wapo.Bridge.Plan.Entries.{
  Ascending, app_balance, find-insert_key_self, find-insert_key_ne, add_ticket_self, add_ticket_ne,
  add_ticket-Ascending,
}

-- The number that a map has at a key, zero where it has none.
abbrev amount : Option ℕ → ℕ
amount none = 0
amount (some b) = b

module _ {App W : Type 0} (services : Services App W) where
  abbrev pub balances : BridgeState App × W → List (ℕ × ℕ)
  balances s = s.0.planning_state.ticket_balances

  balance_of_ticket-found :
      (id b : ℕ) (s : BridgeState App × W)
      → (balance_of_ticket services id s).0 ≡ ok b
      → find id (balances (balance_of_ticket services id s).1) ≡ some b
  unfolding balance_of_ticket
  balance_of_ticket-found id b s h = elim (Option-cases (find id (balances s))) [
    | inl e ↦ elim (Result-cases (services.ticket_balance id s.1).0) [
      | inl (x, r) ↦ cc
      | inr (c, r) ↦ ground (arith, find-insert_key_self id c (balances s))
    ]
    | inr (c, e) ↦ ground arith
  ]

  balance_of_ticket-keeps :
      (id j b : ℕ) (s : BridgeState App × W)
      → find j (balances s) ≡ some b
      → find j (balances (balance_of_ticket services id s).1) ≡ some b
  unfolding balance_of_ticket
  balance_of_ticket-keeps id j b s h = elim (Option-cases (find id (balances s))) [
    | inl e ↦ elim (Result-cases (services.ticket_balance id s.1).0) [
      | inl (x, r) ↦ ground arith
      | inr (c, r) ↦ elim (Bool-cases (id == j)) [
        | inl same ↦ ground arith
        | inr other ↦ ground (arith, find-insert_key_ne id j c (balances s) other)
      ]
    ]
    | inr (c, e) ↦ ground arith
  ]

  module _ (id : ℕ) (t : Ticket App) (tickets : List (ℕ × Ticket App)) (m : List (ℕ × AppInfo App))
      (s : BridgeState App × W) where
    abbrev pub next_apps : ℕ → List (ℕ × AppInfo App)
    next_apps c = add_ticket (services.address t.manifest) t.manifest id c m

    abbrev pub Matches : Bool → Type 0
    Matches b = (t.info.address == services.address t.manifest) ≡ b

    pub gather_apps-skips :
        Matches false
        → gather_apps services ((id, t) ∷ tickets) m s ≡ gather_apps services tickets m s
    unfolding gather_apps
    gather_apps-skips q = rw (gather_apps, q) refl

    pub gather_apps-adds :
        (c : ℕ)
        → Matches true
        → (balance_of_ticket services id s).0 ≡ ok c
        → gather_apps services ((id, t) ∷ tickets) m s
          ≡ gather_apps services tickets (next_apps c) (balance_of_ticket services id s).1
    unfolding gather_apps
    gather_apps-adds c q r =
        let next = λ (b : ℕ). gather_apps services tickets (next_apps b) in
        rw (gather_apps, q) (bind-ok (balance_of_ticket services id) next s c r)

    pub gather_apps-fails :
        (x : Error)
        → Matches true
        → (balance_of_ticket services id s).0 ≡ err x
        → gather_apps services ((id, t) ∷ tickets) m s
          ≡ (err x, (balance_of_ticket services id s).1)
    unfolding gather_apps
    gather_apps-fails x q r =
        let next = λ (b : ℕ). gather_apps services tickets (next_apps b) in
        rw (gather_apps, q) (bind-err (balance_of_ticket services id) next s x r)

  gather_apps-keeps :
      (j b : ℕ) (tickets : List (ℕ × Ticket App)) (m : List (ℕ × AppInfo App))
      (s : BridgeState App × W)
      → find j (balances s) ≡ some b
      → find j (balances (gather_apps services tickets m s).1) ≡ some b
  unfolding gather_apps
  gather_apps-keeps j b [] m s h = h
  gather_apps-keeps j b ((id, t) ∷ tickets) m s h =
      let kept = balance_of_ticket-keeps id j b s h in
      let s₁ = (balance_of_ticket services id s).1 in
      elim (Bool-cases (t.info.address == services.address t.manifest)) [
        | inl q ↦ elim (Result-cases (balance_of_ticket services id s).0) [
          | inl (x, r) ↦ rw (gather_apps-fails id t tickets m s x q r) kept
          | inr (c, r) ↦
              rw (gather_apps-adds id t tickets m s c q r)
                (gather_apps-keeps j b tickets (next_apps id t tickets m s c) s₁ kept)
        ]
        | inr q ↦ rw (gather_apps-skips id t tickets m s q) (gather_apps-keeps j b tickets m s h)
      ]

  -- What the tickets of the app at an address add up to.
  abbrev pub total_balance : ℕ → List (ℕ × ℕ) → List (ℕ × Ticket App) → ℕ
  total_balance a known [] = 0
  total_balance a known ((id, t) ∷ tickets) =
      let rest = total_balance a known tickets in
      if t.info.address == services.address t.manifest
      then if services.address t.manifest == a then amount (find id known) + rest else rest
      else rest

  -- The tickets at an address, whatever the outcome of reading them.
  total_balance-skips :
      (a id : ℕ) (t : Ticket App) (known : List (ℕ × ℕ)) (tickets : List (ℕ × Ticket App))
      → (t.info.address == services.address t.manifest) ≡ false
      → total_balance a known ((id, t) ∷ tickets) ≡ total_balance a known tickets
  total_balance-skips a id t known tickets q = ground arith

  total_balance-adds :
      (a id c : ℕ) (t : Ticket App) (known : List (ℕ × ℕ)) (tickets : List (ℕ × Ticket App))
      → (t.info.address == services.address t.manifest) ≡ true
      → find id known ≡ some c
      → total_balance a known ((id, t) ∷ tickets)
        ≡ (if services.address t.manifest == a then c else 0) + total_balance a known tickets
  total_balance-adds a id c t known tickets q f =
      elim (Bool-cases (services.address t.manifest == a)) [
        | inl e ↦ rw (q, e, f) refl
        | inr e ↦ rw (q, e) (omega arith)
      ]

  add_ticket-balance :
      (a b address id c : ℕ) (app : App) (m : List (ℕ × AppInfo App))
      → Ascending m
      → app_balance a m ≡ b % u128_mod
      → app_balance a (add_ticket address app id c m)
        ≡ (b + (if address == a then c else 0)) % u128_mod
  add_ticket-balance a b address id c app m asc h = elim (Bool-cases (address == a)) [
    | inl e ↦
        let same : address ≡ a = ground arith in
        subst
          (λ d.
            app_balance a (add_ticket d app id c m) ≡ (b + (if d == a then c else 0)) % u128_mod)
          (sym same) (ground (arith, add_ticket_self a app id c m asc))
    | inr e ↦ ground (arith, add_ticket_ne address a app id c m e)
  ]

  gather_apps-total :
      (a b : ℕ) (tickets : List (ℕ × Ticket App)) (m all_apps : List (ℕ × AppInfo App))
      (s : BridgeState App × W)
      → Ascending m
      → app_balance a m ≡ b % u128_mod
      → (gather_apps services tickets m s).0 ≡ ok all_apps
      → app_balance a all_apps
        ≡ (b + total_balance a (balances (gather_apps services tickets m s).1) tickets) % u128_mod
  unfolding gather_apps
  gather_apps-total a b [] m all_apps s asc h e =
      let same : m ≡ all_apps = cc in
      subst (λ l. app_balance a l ≡ (b + 0) % u128_mod) same (omega arith)
  gather_apps-total a b ((id, t) ∷ tickets) m all_apps s asc h e =
      elim (Bool-cases (t.info.address == services.address t.manifest)) [
        | inl q ↦ elim (Result-cases (balance_of_ticket services id s).0) [
          | inl (x, r) ↦
              let fails : (gather_apps services ((id, t) ∷ tickets) m s).0 ≡ err x =
                ap (λ o. o.0) (gather_apps-fails id t tickets m s x q r) in
              cc
          | inr (c, r) ↦
              let adds = gather_apps-adds id t tickets m s c q r in
              let address = services.address t.manifest in
              let m₁ = add_ticket address t.manifest id c m in
              let s₁ = (balance_of_ticket services id s).1 in
              let last = (gather_apps services tickets m₁ s₁).1 in
              let known = balances last in
              let kept = gather_apps-keeps id c tickets m₁ s₁ (balance_of_ticket-found id c s r) in
              let more = if address == a then c else 0 in
              let rest =
                gather_apps-total a (b + more) tickets m₁ all_apps s₁
                  (add_ticket-Ascending address t.manifest id c m asc)
                  (add_ticket-balance a b address id c t.manifest m asc h)
                  (sym (ap (λ o. o.0) adds) ∙ e) in
              let sums = total_balance-adds a id c t known tickets q kept in
              subst
                (λ o.
                  app_balance a all_apps
                  ≡ (b + total_balance a (balances o.1) ((id, t) ∷ tickets)) % u128_mod)
                (sym adds) (omega (arith, rest, sums))
        ]
        | inr q ↦
            let skips = gather_apps-skips id t tickets m s q in
            let known = balances (gather_apps services tickets m s).1 in
            let rest =
              gather_apps-total a b tickets m all_apps s asc h (sym (ap (λ o. o.0) skips) ∙ e) in
            let sums = total_balance-skips a id t known tickets q in
            subst
              (λ o.
                app_balance a all_apps
                ≡ (b + total_balance a (balances o.1) ((id, t) ∷ tickets)) % u128_mod)
              (sym skips) (omega (arith, rest, sums))
      ]

  -- If `update_plan` gets through its tickets, then the balance that it enters for an address is the
  -- sum, modulo 2^128, of the balances that it knows then of the tickets whose manifest has that
  -- address; tickets that state another address than their manifest's do not count.
  pub gather_apps-sums :
      (a : ℕ) (tickets : List (ℕ × Ticket App)) (all_apps : List (ℕ × AppInfo App))
      (s : BridgeState App × W)
      → (gather_apps services tickets [] s).0 ≡ ok all_apps
      → app_balance a all_apps
        ≡ total_balance a (balances (gather_apps services tickets [] s).1) tickets % u128_mod
  gather_apps-sums a tickets all_apps s e =
      omega (arith, gather_apps-total a 0 tickets [] all_apps s tt (omega arith) e)
