-- ===== src/Bridge/Plan/Entries.antt =====
-- The two maps that `update_plan` of wapod-pherry/src/bridge.rs fills: the balances of tickets, by the
-- ticket, and the apps with their balances, by the address.
use wapo.Prelude.{
  ℕ, ◌+◌, ◌%◌, ◌==◌, ltb, ◌≡◌, refl, inl, inr, if◌then◌else◌, List, [], ◌∷◌, some, false,
  Bool-cases, All, All-map, ◌<◌, u128_mod, arith,
}
use wapo.Prelude.Assoc.{find}
use wapo.Bridge.{AppInfo}
use wapo.Bridge.Plan.{insert_key, add_ticket}

pub find-insert_key_self :
    {A : Type 0} (k : ℕ) (v : A) (m : List (ℕ × A)) → find k (insert_key k v m) ≡ some v
unfolding find insert_key
find-insert_key_self k v [] = ground arith
find-insert_key_self k v ((j, a) ∷ m) = ground (arith, find-insert_key_self k v m)

pub find-insert_key_ne :
    {A : Type 0} (k b : ℕ) (v : A) (m : List (ℕ × A))
    → (k == b) ≡ false
    → find b (insert_key k v m) ≡ find b m
unfolding find insert_key
find-insert_key_ne k b v [] h = ground arith
find-insert_key_ne k b v ((j, a) ∷ m) h = ground (arith, find-insert_key_ne k b v m h)

-- Keys rise along the map.
abbrev pub Ascending : {A : Type 0} → List (ℕ × A) → Type 0
Ascending [] = Unit
Ascending ((k, a) ∷ m) = All (λ e. k < e.0) m × Ascending m

module _ {App : Type 0} where
  -- The balance of the app at an address.
  abbrev pub app_balance : ℕ → List (ℕ × AppInfo App) → ℕ
  app_balance a [] = 0
  app_balance a ((k, i) ∷ m) = if k == a then i.balance else app_balance a m

  no_balance : (a : ℕ) (m : List (ℕ × AppInfo App)) → All (λ e. a < e.0) m → app_balance a m ≡ 0
  no_balance a [] h = refl
  no_balance a ((k, i) ∷ m) h = ground (arith, no_balance a m h.1, h.0)

  pub add_ticket_self :
      (a : ℕ) (app : App) (id b : ℕ) (m : List (ℕ × AppInfo App))
      → Ascending m
      → app_balance a (add_ticket a app id b m) ≡ (app_balance a m + b) % u128_mod
  unfolding add_ticket
  add_ticket_self a app id b [] s = ground arith
  add_ticket_self a app id b ((k, i) ∷ m) s = elim (Bool-cases (ltb a k)) [
    | inl l ↦
        let low =
          All-map (λ (e : ℕ × AppInfo App). k < e.0) (λ e. a < e.0) m (λ e h. ground arith) s.0 in
        ground (arith, no_balance a m low)
    | inr l ↦ ground (arith, add_ticket_self a app id b m s.1)
  ]

  pub add_ticket_ne :
      (a c : ℕ) (app : App) (id b : ℕ) (m : List (ℕ × AppInfo App))
      → (a == c) ≡ false
      → app_balance c (add_ticket a app id b m) ≡ app_balance c m
  unfolding add_ticket
  add_ticket_ne a c app id b [] h = ground arith
  add_ticket_ne a c app id b ((k, i) ∷ m) h = ground (arith, add_ticket_ne a c app id b m h)

  -- A property of keys that holds of the new key and all others.
  All-add_ticket :
      (P : ℕ → Type 0) (a : ℕ) (app : App) (id b : ℕ) (m : List (ℕ × AppInfo App))
      → P a
      → All (λ e. P e.0) m
      → All (λ e. P e.0) (add_ticket a app id b m)
  unfolding add_ticket
  All-add_ticket P a app id b [] p h = (p, tt)
  All-add_ticket P a app id b ((k, i) ∷ m) p h = elim (Bool-cases (k == a)) [
    | inl e ↦ rw (add_ticket, e) h
    | inr e ↦ elim (Bool-cases (ltb a k)) [
      | inl l ↦ rw (add_ticket, e, l) (p, h)
      | inr l ↦ rw (add_ticket, e, l) (h.0, All-add_ticket P a app id b m p h.1)
    ]
  ]

  pub add_ticket-Ascending :
      (a : ℕ) (app : App) (id b : ℕ) (m : List (ℕ × AppInfo App))
      → Ascending m
      → Ascending (add_ticket a app id b m)
  unfolding add_ticket
  add_ticket-Ascending a app id b [] s = (tt, tt)
  add_ticket-Ascending a app id b ((k, i) ∷ m) s = elim (Bool-cases (k == a)) [
    | inl e ↦ rw (add_ticket, e) s
    | inr e ↦ elim (Bool-cases (ltb a k)) [
      | inl l ↦
          let low =
            All-map (λ (e : ℕ × AppInfo App). k < e.0) (λ e. a < e.0) m (λ e h. ground arith) s.0 in
          let first : a < k = ground arith in rw (add_ticket, e, l) ((first, low), s)
      | inr l ↦
          let above : k < a = ground arith in
          rw (add_ticket, e, l)
            (
              All-add_ticket (λ c. k < c) a app id b m above s.0,
              add_ticket-Ascending a app id b m s.1,
            )
    ]
  ]
