-- ===== src/Listener/Mirror.antt =====
-- The table of sni-tls-listener/src/listener.rs and the subscriptions that live, which stand in the same
-- order: each entry belongs to one of them, whose channel is open.
use wapo.Prelude.{
  ℕ, zero, suc, ◌==◌, ◌≡◌, ◌≢◌, refl, sym, ap, subst, ◌∙◌, arith, List, [], ◌∷◌, Option, none, some,
  true, All, inl, inr, Bool-cases, if◌then◌else◌,
}
use wapo.Prelude.Assoc.{find, replace, erase}
use wapo.Listener.{Channel, Sent, Subscription, SubscribeInfo, after, take_at}

-- What the channel of tokio promises, where `Open` says of a channel that its receiver is not dropped.
pub record IsChannel {C : Type 0} (mpsc : Channel C) (Open : ℕ → C → Type 0) : Type 0 where
  pub fresh : (n x : ℕ) (c : C) → Open x c → x ≢ (mpsc.channel n c).0
  pub opens : (n : ℕ) (c : C) → Open (mpsc.channel n c).0 (mpsc.channel n c).1
  pub channel : (n x : ℕ) (c : C) → Open x c → Open x (mpsc.channel n c).1
  pub not_closed : (x n : ℕ) (c : C) → Open x c → (mpsc.try_send x n c).0 ≢ Sent.closed
  pub try_send : (x y n : ℕ) (c : C) → Open x c → Open x (mpsc.try_send y n c).1
  pub recv : (x y : ℕ) (c : C) → Open x c → Open x (mpsc.recv y c)
  pub drop_tx : (x y : ℕ) (c : C) → Open x c → Open x (mpsc.drop_tx y c)
  pub drop_rx : (x y : ℕ) (c : C) → x ≢ y → Open x c → Open x (mpsc.drop_rx y c)

-- The channel of the subscription that has a name.
abbrev pub live : ℕ → List Subscription → Option ℕ
live name [] = none
live name (s ∷ subs) = if s.sni == name then some s.rx else live name subs

abbrev pub tx_of : Option SubscribeInfo → Option ℕ
tx_of none = none
tx_of (some i) = some i.tx

-- The subscriptions have other channels than `rx`.
abbrev pub Differ : ℕ → List Subscription → Type 0
Differ rx = All (λ s. s.rx ≢ rx)

-- A property of the subscription that is taken and of the others, if there is one.
abbrev pub Given :
    (Subscription → List Subscription → Type 0) → Option (Subscription × List Subscription) → Type 0
Given P none = Unit
Given P (some (s, rest)) = P s rest

Given-after :
    (P Q R : Subscription → List Subscription → Type 0) (t : Subscription)
    (o : Option (Subscription × List Subscription))
    → ((s : Subscription) (rest : List Subscription) → P s rest → Q s rest → R s (t ∷ rest))
    → Given P o
    → Given Q o
    → Given R (after t o)
Given-after P Q R t none f p q = tt
Given-after P Q R t (some (s, rest)) f p q = f s rest p q

Differ-take :
    (rx i : ℕ) (subs : List Subscription)
    → Differ rx subs
    → Given (λ s rest. Differ rx (s ∷ rest)) (take_at i subs)
Differ-take rx i [] d = tt
Differ-take rx zero (t ∷ subs) d = d
Differ-take rx (suc i) (t ∷ subs) d =
    let P : Subscription → List Subscription → Type 0 = λ s rest. Differ rx (s ∷ rest) in
    let taken = Differ-take rx i subs d.1 in
    Given-after P P P t (take_at i subs) (λ s rest p q. (p.0, (d.0, p.1))) taken taken

module _ {C : Type 0} (Open : ℕ → C → Type 0) where
  -- The first entry and the first subscription match, and no other has that name or channel.
  pub record Match (c : C) (name : ℕ) (i : SubscribeInfo) (s : Subscription)
      (m : List (ℕ × SubscribeInfo)) (subs : List Subscription) : Type 0 where
    pub name_lem : name ≡ s.sni
    pub tx : i.tx ≡ s.rx
    pub is_open : Open s.rx c
    pub only : find name m ≡ none
    pub differ : Differ s.rx subs

  abbrev pub Mirrors : C → List (ℕ × SubscribeInfo) → List Subscription → Type 0
  Mirrors c [] [] = Unit
  Mirrors c [] (s ∷ subs) = ⊥
  Mirrors c (e ∷ m) [] = ⊥
  Mirrors c ((name, i) ∷ m) (s ∷ subs) = Match c name i s m subs × Mirrors c m subs

  pub Mirrors-find :
      (name : ℕ) (c : C) (m : List (ℕ × SubscribeInfo)) (subs : List Subscription)
      → Mirrors c m subs
      → tx_of (find name m) ≡ live name subs
  unfolding find
  Mirrors-find name c [] [] h = refl
  Mirrors-find name c [] (s ∷ subs) h = elim h [ ]
  Mirrors-find name c (e ∷ m) [] h = elim h [ ]
  Mirrors-find name c ((k, i) ∷ m) (s ∷ subs) h = elim (Bool-cases (k == name)) [
    | inl e ↦ rw (e, sym h.0.name_lem, e) (ap some h.0.tx)
    | inr e ↦ rw (e, sym h.0.name_lem, e) (Mirrors-find name c m subs h.1)
  ]

  pub Mirrors-Open :
      (name rx : ℕ) (c : C) (m : List (ℕ × SubscribeInfo)) (subs : List Subscription)
      → Mirrors c m subs
      → live name subs ≡ some rx
      → Open rx c
  Mirrors-Open name rx c [] [] h e = cc
  Mirrors-Open name rx c [] (s ∷ subs) h e = elim h [ ]
  Mirrors-Open name rx c (a ∷ m) [] h e = elim h [ ]
  Mirrors-Open name rx c ((k, i) ∷ m) (s ∷ subs) h e = elim (Bool-cases (s.sni == name)) [
    | inl p ↦ let here : s.rx ≡ rx = ground arith in subst (λ x. Open x c) here h.0.is_open
    | inr p ↦ Mirrors-Open name rx c m subs h.1 (ground arith)
  ]

  -- Where the channels change, but none of those that are used closes.
  pub Mirrors-channels :
      (c c' : C) (m : List (ℕ × SubscribeInfo)) (subs : List Subscription)
      → All (λ s. Open s.rx c → Open s.rx c') subs
      → Mirrors c m subs
      → Mirrors c' m subs
  Mirrors-channels c c' [] [] keeps h = tt
  Mirrors-channels c c' [] (s ∷ subs) keeps h = elim h [ ]
  Mirrors-channels c c' (e ∷ m) [] keeps h = elim h [ ]
  Mirrors-channels c c' ((k, i) ∷ m) (s ∷ subs) keeps h = (
    record {
      name_lem = h.0.name_lem;
      tx = h.0.tx;
      is_open = keeps.0 h.0.is_open;
      only = h.0.only;
      differ = h.0.differ;
    },
    Mirrors-channels c c' m subs keeps.1 h.1,
  )

  pub Mirrors-fresh :
      (x : ℕ) (c : C) (m : List (ℕ × SubscribeInfo)) (subs : List Subscription)
      → ((y : ℕ) → Open y c → y ≢ x)
      → Mirrors c m subs
      → Differ x subs
  Mirrors-fresh x c [] [] f h = tt
  Mirrors-fresh x c [] (s ∷ subs) f h = elim h [ ]
  Mirrors-fresh x c (e ∷ m) [] f h = elim h [ ]
  Mirrors-fresh x c ((k, i) ∷ m) (s ∷ subs) f h =
      (f s.rx h.0.is_open, Mirrors-fresh x c m subs f h.1)

  find-replace-none :
      (name k : ℕ) (v : SubscribeInfo) (m : List (ℕ × SubscribeInfo))
      → find k m ≡ none
      → find k (replace name v m) ≡ none
  unfolding find replace
  find-replace-none name k v [] e = refl
  find-replace-none name k v ((j, b) ∷ m) e = ground (arith, find-replace-none name k v m)

  find-erase-none :
      (name k : ℕ) (m : List (ℕ × SubscribeInfo)) → find k m ≡ none → find k (erase name m) ≡ none
  unfolding find erase
  find-erase-none name k [] e = refl
  find-erase-none name k ((j, b) ∷ m) e = ground (arith, find-erase-none name k m)

  -- A new key for an entry.
  pub Mirrors-replace :
      (name : ℕ) (i v : SubscribeInfo) (c : C) (m : List (ℕ × SubscribeInfo))
      (subs : List Subscription)
      → find name m ≡ some i
      → v.tx ≡ i.tx
      → Mirrors c m subs
      → Mirrors c (replace name v m) subs
  unfolding find replace
  Mirrors-replace name i v c [] [] e t h = tt
  Mirrors-replace name i v c [] (s ∷ subs) e t h = elim h [ ]
  Mirrors-replace name i v c (a ∷ m) [] e t h = elim h [ ]
  Mirrors-replace name i v c ((k, j) ∷ m) (s ∷ subs) e t h = elim (Bool-cases (k == name)) [
    | inl p ↦
        let same : j ≡ i = ground arith in
        rw p (
          record {
            name_lem = h.0.name_lem;
            tx = t ∙ ap (λ x. x.tx) (sym same) ∙ h.0.tx;
            is_open = h.0.is_open;
            only = h.0.only;
            differ = h.0.differ;
          },
          h.1,
        )
    | inr p ↦ rw p (
      record {
        name_lem = h.0.name_lem;
        tx = h.0.tx;
        is_open = h.0.is_open;
        only = find-replace-none name k v m h.0.only;
        differ = h.0.differ;
      },
      Mirrors-replace name i v c m subs (ground arith) t h.1,
    )
  ]

  -- What is left once the subscription at a position is dropped.
  pub record Taken (c : C) (m : List (ℕ × SubscribeInfo)) (s : Subscription)
      (rest : List Subscription) : Type 0 where
    pub entry : tx_of (find s.sni m) ≡ some s.rx
    pub left : Mirrors c (erase s.sni m) rest
    pub differ : Differ s.rx rest

  Taken-later :
      (k : ℕ) (j : SubscribeInfo) (t : Subscription) (c : C) (m : List (ℕ × SubscribeInfo))
      (subs : List Subscription) (u : Subscription) (left : List Subscription)
      → Match c k j t m subs
      → Taken c m u left
      → Differ t.rx (u ∷ left)
      → Taken c ((k, j) ∷ m) u (t ∷ left)
  unfolding find erase
  Taken-later k j t c m subs u left h taken d = elim (Bool-cases (k == u.sni)) [
    | inl p ↦
        let same : k ≡ u.sni = ground arith in
        let gone = subst (λ x. find x m ≡ none) same h.only in
        let bad : none ≡ some u.rx = subst (λ o. tx_of o ≡ some u.rx) gone taken.entry in cc
    | inr p ↦ record {
      entry = rw p taken.entry;
      left = rw p (
        record {
          name_lem = h.name_lem;
          tx = h.tx;
          is_open = h.is_open;
          only = find-erase-none u.sni k m h.only;
          differ = d.1;
        },
        taken.left,
      );
      differ = (λ q. d.0 (sym q), taken.differ);
    }
  ]

  pub Mirrors-take :
      (i : ℕ) (c : C) (m : List (ℕ × SubscribeInfo)) (subs : List Subscription)
      → Mirrors c m subs
      → Given (Taken c m) (take_at i subs)
  unfolding find erase
  Mirrors-take i c [] [] h = tt
  Mirrors-take i c [] (t ∷ subs) h = elim h [ ]
  Mirrors-take i c (a ∷ m) [] h = elim h [ ]
  Mirrors-take zero c ((k, j) ∷ m) (t ∷ subs) h =
      let here : k == t.sni ≡ true = ground (arith, h.0.name_lem) in
      record { entry = rw here (ap some h.0.tx); left = rw here h.1; differ = h.0.differ }
  Mirrors-take (suc i) c ((k, j) ∷ m) (t ∷ subs) h =
      Given-after (Taken c m) (λ u left. Differ t.rx (u ∷ left)) (Taken c ((k, j) ∷ m)) t
        (take_at i subs) (λ u left. Taken-later k j t c m subs u left h.0)
        (Mirrors-take i c m subs h.1) (Differ-take t.rx i subs h.0.differ)
