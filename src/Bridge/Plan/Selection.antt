-- ===== src/Bridge/Plan/Selection.antt =====
-- The apps that a plan selects, in wapod-pherry/src/bridge.rs: as many as the configuration allows,
-- those with the largest balances.
use wapo.Prelude.{
  ℕ, zero, suc, ◌+◌, ◌≤◌, ◌<◌, ◌==◌, ltb, ◌≡◌, refl, subst, ◌⊎◌, inl, inr, List, [], ◌∷◌, length,
  true, take, All, All-map, All-both, Bool-cases, if◌then◌else◌, arith,
}
use wapo.Bridge.{AppInfo}
use wapo.Bridge.Apply.{contains_key}
use wapo.Bridge.Plan.{insert_key, collect, insert_by_balance, sort_by_balance, select_apps}

module _ {A : Type 0} (P : ℕ × A → Type 0) where
  All-insert_key :
      (k : ℕ) (v : A) (m : List (ℕ × A)) → P (k, v) → All P m → All P (insert_key k v m)
  unfolding insert_key
  All-insert_key k v [] p h = (p, tt)
  All-insert_key k v ((j, a) ∷ m) p h = elim (Bool-cases (j == k)) [
    | inl e ↦ rw (insert_key, e) (p, h.1)
    | inr e ↦ elim (Bool-cases (ltb k j)) [
      | inl l ↦ rw (insert_key, e, l) (p, h)
      | inr l ↦ rw (insert_key, e, l) (h.0, All-insert_key k v m p h.1)
    ]
  ]

  All-collect : (m es : List (ℕ × A)) → All P m → All P es → All P (collect m es)
  unfolding collect
  All-collect m [] h p = h
  All-collect m ((k, v) ∷ es) h p =
      All-collect (insert_key k v m) es (All-insert_key k v m p.0 h) p.1

  All-take : (n : ℕ) (l : List (ℕ × A)) → All P l → All P (take n l)
  All-take zero l h = tt
  All-take (suc n) [] h = tt
  All-take (suc n) (x ∷ l) h = (h.0, All-take n l h.1)

module _ {A : Type 0} where
  length-insert_key :
      (k : ℕ) (v : A) (m : List (ℕ × A)) → length (insert_key k v m) ≤ suc (length m)
  unfolding insert_key
  length-insert_key k v [] = omega arith
  length-insert_key k v ((j, a) ∷ m) = ground (arith, length-insert_key k v m)

  length-collect : (m es : List (ℕ × A)) → length (collect m es) ≤ length m + length es
  unfolding collect
  length-collect m [] = omega arith
  length-collect m ((k, v) ∷ es) =
      omega (arith, length-insert_key k v m, length-collect (insert_key k v m) es)

  length-take : (n : ℕ) (l : List A) → length (take n l) ≤ n
  length-take zero l = omega arith
  length-take (suc n) [] = omega arith
  length-take (suc n) (x ∷ l) = omega (arith, length-take n l)

  contains_key-insert_key_self :
      (k : ℕ) (v : A) (m : List (ℕ × A)) → contains_key k (insert_key k v m) ≡ true
  unfolding insert_key contains_key
  contains_key-insert_key_self k v [] = ground arith
  contains_key-insert_key_self k v ((j, a) ∷ m) = ground (arith, contains_key-insert_key_self k v m)

  contains_key-insert_key :
      (k b : ℕ) (v : A) (m : List (ℕ × A))
      → contains_key b m ≡ true
      → contains_key b (insert_key k v m) ≡ true
  unfolding insert_key contains_key
  contains_key-insert_key k b v [] h = cc
  contains_key-insert_key k b v ((j, a) ∷ m) h = ground (arith, contains_key-insert_key k b v m)

  contains_key-collect_old :
      (b : ℕ) (m es : List (ℕ × A)) → contains_key b m ≡ true → contains_key b (collect m es) ≡ true
  unfolding collect
  contains_key-collect_old b m [] h = h
  contains_key-collect_old b m ((k, v) ∷ es) h =
      contains_key-collect_old b (insert_key k v m) es (contains_key-insert_key k b v m h)

  contains_key-collect :
      (b : ℕ) (m es : List (ℕ × A))
      → contains_key b es ≡ true
      → contains_key b (collect m es) ≡ true
  unfolding collect contains_key
  contains_key-collect b m [] h = cc
  contains_key-collect b m ((k, v) ∷ es) h = elim (Bool-cases (k == b)) [
    | inl e ↦
        let same : k ≡ b = ground arith in
        contains_key-collect_old b (insert_key k v m) es (
          subst (λ c. contains_key c (insert_key k v m) ≡ true) same
            (contains_key-insert_key_self k v m))
    | inr e ↦ contains_key-collect b (insert_key k v m) es (ground arith)
  ]

module _ {App : Type 0} where
  -- Balances do not rise along the list.
  abbrev Descending : List (ℕ × AppInfo App) → Type 0
  Descending [] = Unit
  Descending (x ∷ l) = All (λ y. y.1.balance ≤ x.1.balance) l × Descending l

  module _ (P : ℕ × AppInfo App → Type 0) where
    All-insert_by_balance :
        (x : ℕ × AppInfo App) (l : List (ℕ × AppInfo App))
        → P x
        → All P l
        → All P (insert_by_balance x l)
    unfolding insert_by_balance
    All-insert_by_balance x [] p h = (p, tt)
    All-insert_by_balance x (y ∷ l) p h = elim (Bool-cases (ltb x.1.balance y.1.balance)) [
      | inl e ↦ rw (insert_by_balance, e) (h.0, All-insert_by_balance x l p h.1)
      | inr e ↦ rw (insert_by_balance, e) (p, h)
    ]

    All-sort_by_balance : (l : List (ℕ × AppInfo App)) → All P l → All P (sort_by_balance l)
    unfolding sort_by_balance
    All-sort_by_balance [] h = tt
    All-sort_by_balance (x ∷ l) h =
        All-insert_by_balance x (sort_by_balance l) h.0 (All-sort_by_balance l h.1)

    All-insert_by_balance_back :
        (x : ℕ × AppInfo App) (l : List (ℕ × AppInfo App))
        → All P (insert_by_balance x l)
        → P x × All P l
    unfolding insert_by_balance
    All-insert_by_balance_back x [] h = h
    All-insert_by_balance_back x (y ∷ l) h = elim (Bool-cases (ltb x.1.balance y.1.balance)) [
      | inl e ↦
          let h' : P y × All P (insert_by_balance x l) =
            subst (λ b. All P (if b then y ∷ insert_by_balance x l else x ∷ y ∷ l)) e h in
          let rest = All-insert_by_balance_back x l h'.1 in (rest.0, (h'.0, rest.1))
      | inr e ↦ subst (λ b. All P (if b then y ∷ insert_by_balance x l else x ∷ y ∷ l)) e h
    ]

    All-sort_by_balance_back : (l : List (ℕ × AppInfo App)) → All P (sort_by_balance l) → All P l
    unfolding sort_by_balance
    All-sort_by_balance_back [] h = tt
    All-sort_by_balance_back (x ∷ l) h =
        let both = All-insert_by_balance_back x (sort_by_balance l) h in
        (both.0, All-sort_by_balance_back l both.1)

    -- What holds of every app holds of every app that is selected.
    pub All-select_apps :
        (max_apps : ℕ) (l : List (ℕ × AppInfo App)) → All P l → All P (select_apps max_apps l)
    unfolding select_apps
    All-select_apps max_apps l h =
        let sorted = sort_by_balance l in
        All-collect P [] (take max_apps sorted) tt
          (All-take P max_apps sorted (All-sort_by_balance l h))

  insert-Descending :
      (x : ℕ × AppInfo App) (l : List (ℕ × AppInfo App))
      → Descending l
      → Descending (insert_by_balance x l)
  unfolding insert_by_balance
  insert-Descending x [] d = (tt, tt)
  insert-Descending x (y ∷ l) d = elim (Bool-cases (ltb x.1.balance y.1.balance)) [
    | inl e ↦
        let less : x.1.balance ≤ y.1.balance = ground arith in
        let below = λ (z : ℕ × AppInfo App). z.1.balance ≤ y.1.balance in
        rw (insert_by_balance, e)
          (All-insert_by_balance below x l less d.0, insert-Descending x l d.1)
    | inr e ↦
        let less : y.1.balance ≤ x.1.balance = ground arith in
        let under =
          All-map (λ (z : ℕ × AppInfo App). z.1.balance ≤ y.1.balance)
            (λ z. z.1.balance ≤ x.1.balance) l (λ z h. omega arith) d.0 in
        rw (insert_by_balance, e) ((less, under), d)
  ]

  sort-Descending : (l : List (ℕ × AppInfo App)) → Descending (sort_by_balance l)
  unfolding sort_by_balance
  sort-Descending [] = tt
  sort-Descending (x ∷ l) = insert-Descending x (sort_by_balance l) (sort-Descending l)

  length-insert_by_balance :
      (x : ℕ × AppInfo App) (l : List (ℕ × AppInfo App))
      → length (insert_by_balance x l) ≡ suc (length l)
  unfolding insert_by_balance
  length-insert_by_balance x [] = refl
  length-insert_by_balance x (y ∷ l) = ground (arith, length-insert_by_balance x l)

  length-sort_by_balance : (l : List (ℕ × AppInfo App)) → length (sort_by_balance l) ≡ length l
  unfolding sort_by_balance
  length-sort_by_balance [] = refl
  length-sort_by_balance (x ∷ l) =
      omega (arith, length-insert_by_balance x (sort_by_balance l), length-sort_by_balance l)

  -- An app has its key among the apps `sel`, or `sel` is a selection of `max_apps` from more than
  -- that, none of which has a smaller balance.
  abbrev pub Placed : ℕ → ℕ → List (ℕ × AppInfo App) → ℕ × AppInfo App → Type 0
  Placed max_apps available sel e =
      (contains_key e.0 sel ≡ true)
      ⊎ (max_apps < available × All (λ s. e.1.balance ≤ s.1.balance) sel)

  take-Placed :
      (n : ℕ) (l : List (ℕ × AppInfo App)) → Descending l → All (Placed n (length l) (take n l)) l
  unfolding contains_key
  take-Placed zero [] d = tt
  take-Placed (suc n) [] d = tt
  take-Placed zero (x ∷ l) d =
      let later =
        All-map (λ (y : ℕ × AppInfo App). y.1.balance ≤ x.1.balance)
          (Placed zero (suc (length l)) []) l (λ y h. inr (omega arith, tt)) d.0 in
      (inr (omega arith, tt), later)
  take-Placed (suc n) (x ∷ l) d =
      let both =
        All-both (λ y. y.1.balance ≤ x.1.balance) (Placed n (length l) (take n l)) l d.0
          (take-Placed n l d.1) in
      let later =
        All-map
          (λ (y : ℕ × AppInfo App). y.1.balance ≤ x.1.balance × Placed n (length l) (take n l) y)
          (Placed (suc n) (suc (length l)) (x ∷ take n l)) l
          (λ y h. elim (h.1) [
            | inl c ↦ inl (ground arith)
            | inr p ↦ inr (omega (arith, p.0), (h.0, p.1))
          ])
          both in
      (inl (ground arith), later)

  -- The selection has at most `max_apps` apps; and every app is selected, or else there are more
  -- than `max_apps` apps and no selected app has a smaller balance.
  pub select_apps-best :
      (max_apps : ℕ) (l : List (ℕ × AppInfo App))
      → length (select_apps max_apps l) ≤ max_apps
        × All (Placed max_apps (length l) (select_apps max_apps l)) l
  unfolding select_apps
  select_apps-best max_apps l =
      let sorted = sort_by_balance l in
      let best = take max_apps sorted in
      let kept : (e : ℕ × AppInfo App)
          → Placed max_apps (length sorted) best e
          → Placed max_apps (length l) (collect [] best) e =
        λ e p. elim p [
          | inl c ↦ inl (contains_key-collect e.0 [] best c)
          | inr r ↦ inr (
            omega (arith, r.0, length-sort_by_balance l),
            All-collect (λ s. e.1.balance ≤ s.1.balance) [] best tt r.1,
          )
        ] in
      let placed =
        All-map (Placed max_apps (length sorted) best)
          (Placed max_apps (length l) (collect [] best)) sorted kept
          (take-Placed max_apps sorted (sort-Descending l)) in
      (
        omega (arith, length-collect [] best, length-take max_apps sorted),
        All-sort_by_balance_back (Placed max_apps (length l) (collect [] best)) l placed,
      )
