-- ===== src/Listener/Operations.antt =====
-- What a call of sni-tls-listener/src/listener.rs does where its table mirrors the subscriptions that
-- live.
use wapo.Prelude.{
  ℕ, ◌≤◌, ◌≡◌, ◌≢◌, refl, sym, ap, subst, ◌∙◌, List, [], ◌∷◌, Option, none, some, All, All-map, inl,
  inr, Bool-cases, Option-cases, ◌&&◌, not, if◌then◌else◌, Bool,
}
use wapo.Prelude.Result.{Result, ok, err}
use wapo.Prelude.Assoc.{find, erase}
use wapo.Listener.{
  Channel, Sent, sent, full, closed, Subscription, SubscribeInfo, ListenerState, Dispatched,
  no_subscriber, tried, ListenerError, update_key, subscribe, after_send, dispatch, forget,
  drop_subscription, Machine, take_at, subscribed, max_permits,
}
use wapo.Listener.Mirror.{
  IsChannel, live, tx_of, Differ, Mirrors, Mirrors-find, Mirrors-Open, Mirrors-channels,
  Mirrors-fresh, Mirrors-replace, Given, Taken, Mirrors-take,
}

Given-map :
    (P Q : Subscription → List Subscription → Type 0)
    (o : Option (Subscription × List Subscription))
    → ((s : Subscription) (rest : List Subscription) → P s rest → Q s rest)
    → Given P o
    → Given Q o
Given-map P Q none f p = tt
Given-map P Q (some (s, rest)) f p = f s rest p

Given-all :
    (P : Subscription → List Subscription → Type 0) (o : Option (Subscription × List Subscription))
    → ((s : Subscription) (rest : List Subscription) → P s rest)
    → Given P o
Given-all P none f = tt
Given-all P (some (s, rest)) f = f s rest

abbrev sent_of : Dispatched → Sent
sent_of no_subscriber = sent
sent_of (tried s) = s

-- What `subscribe` answers, by the subscriptions that live.
abbrev pub answer : Bool → ℕ → List Subscription → ℕ → Result ListenerError Subscription
answer refused name subs id =
    if refused then err ListenerError.bad_certificate else elim (live name subs) [
      | some rx ↦ err ListenerError.already_subscribed
      | none ↦ ok (record { rx = id; sni = name })
    ]

module _ {C : Type 0} (mpsc : Channel C) where
  -- What a connection with a name gets, and the channels after it, by the subscriptions that live.
  abbrev pub delivered : Option ℕ → ℕ → ListenerState → C → Dispatched × ListenerState × C
  delivered none conn l c = (no_subscriber, l, c)
  delivered (some rx) conn l c = (tried (mpsc.try_send rx conn c).0, l, (mpsc.try_send rx conn c).1)

module _ {C : Type 0} (Open : ℕ → C → Type 0) where
  -- The table mirrors the subscriptions that live, if the listener is there.
  abbrev pub Holds : Option ListenerState → List Subscription → C → Type 0
  Holds none subs c = Unit
  Holds (some l) subs c = Mirrors Open c l.subscribers subs

  abbrev pub Kept : Machine C → Type 0
  Kept m = Holds m.listener m.subs m.channels × (m.in_flight ≤ max_permits)

module _ {C : Type 0} (mpsc : Channel C) (Open : ℕ → C → Type 0) (law : IsChannel mpsc Open) where
  -- A call of the channel that closes none.
  pub keeps :
      (c c' : C) (m : List (ℕ × SubscribeInfo)) (subs : List Subscription)
      → ((x : ℕ) → Open x c → Open x c')
      → Mirrors Open c m subs
      → Mirrors Open c' m subs
  keeps c c' m subs f = Mirrors-channels Open c c' m subs (all subs)
    where
      all : (subs : List Subscription) → All (λ s. Open s.rx c → Open s.rx c') subs
      all [] = tt
      all (s ∷ subs) = (f s.rx, all subs)

  keeps_rx :
      (rx : ℕ) (c : C) (m : List (ℕ × SubscribeInfo)) (subs : List Subscription)
      → Differ rx subs
      → Mirrors Open c m subs
      → Mirrors Open (mpsc.drop_rx rx c) m subs
  keeps_rx rx c m subs d =
      Mirrors-channels Open c (mpsc.drop_rx rx c) m subs
        (All-map _ _ subs (λ s. law.drop_rx s.rx rx c) d)

  pub update_key-Mirrors :
      (valid : Bool) (name key : ℕ) (l : ListenerState) (subs : List Subscription) (c : C)
      → Mirrors Open c l.subscribers subs
      → Mirrors Open c (update_key valid name key l).1.subscribers subs
  unfolding update_key
  update_key-Mirrors valid name key l subs c h =
      elim (Bool-cases (l.verify_certifacate && not valid)) [
        | inl bad ↦ rw (update_key, bad) h
        | inr good ↦ elim (Option-cases (find name l.subscribers)) [
          | inl e ↦ rw (update_key, good, e) h
          | inr (i, e) ↦
              rw (update_key, good, e)
                (Mirrors-replace Open name i (record i { key = key }) c l.subscribers subs e refl h)
        ]
      ]

  pub subscribe-Kept :
      (valid : Bool) (name key : ℕ) (l : ListenerState) (m : Machine C)
      → Mirrors Open m.channels l.subscribers m.subs
      → m.in_flight ≤ max_permits
      → Kept Open (subscribed mpsc m (subscribe mpsc valid name key l m.channels))
  unfolding subscribe find
  subscribe-Kept valid name key l m h le =
      let c = m.channels in
      let id = (mpsc.channel 32 c).0 in
      let c' = (mpsc.channel 32 c).1 in
      let fresh : Differ id m.subs =
        Mirrors-fresh Open id c l.subscribers m.subs (λ y. law.fresh 32 y c) h in
      let h' = keeps c c' l.subscribers m.subs (λ x. law.channel 32 x c) h in
      let h'' = keeps c' (mpsc.drop_tx id c') l.subscribers m.subs (λ x. law.drop_tx x id c') h' in
      let dropped = keeps_rx id (mpsc.drop_tx id c') l.subscribers m.subs fresh h'' in
      elim (Bool-cases (l.verify_certifacate && not valid)) [
        | inl bad ↦ rw (subscribe, bad) (dropped, le)
        | inr good ↦ elim (Option-cases (find name l.subscribers)) [
          | inr (i, e) ↦ rw (subscribe, good, e) (dropped, le)
          | inl e ↦
              rw (subscribe, good, e)
                (
                  (
                    record {
                      name_lem = refl;
                      tx = refl;
                      is_open = law.opens 32 c;
                      only = e;
                      differ = fresh;
                    },
                    h',
                  ),
                  le,
                )
        ]
      ]

  -- The task of a connection, where the channel of its subscription is open.
  after_send-lem :
      (name tx : ℕ) (l : ListenerState) (r : Sent × C)
      → r.0 ≢ closed
      → after_send mpsc name tx l r ≡ (tried r.0, l, r.1)
  unfolding after_send
  after_send-lem name tx l (sent, c) h = refl
  after_send-lem name tx l (full, c) h = refl
  after_send-lem name tx l (closed, c) h = elim (h refl) [ ]

  pub dispatch-delivered :
      (name conn : ℕ) (l : ListenerState) (subs : List Subscription) (c : C)
      → Mirrors Open c l.subscribers subs
      → dispatch mpsc name conn l c ≡ delivered mpsc (live name subs) conn l c
  unfolding dispatch
  dispatch-delivered name conn l subs c h =
      let same = Mirrors-find Open name c l.subscribers subs h in
      elim (Option-cases (find name l.subscribers)) [
        | inl e ↦
            let gone : live name subs ≡ none = sym same ∙ ap tx_of e in rw (dispatch, e, gone) refl
        | inr (i, e) ↦
            let there : live name subs ≡ some i.tx = sym same ∙ ap tx_of e in
            let is_open = Mirrors-Open Open name i.tx c l.subscribers subs h there in
            rw (dispatch, e, there)
              (after_send-lem name i.tx l (mpsc.try_send i.tx conn c)
                (law.not_closed i.tx conn c is_open))
      ]

  pub delivered-Open :
      (o : Option ℕ) (conn : ℕ) (l : ListenerState) (c : C)
      → ((rx : ℕ) → o ≡ some rx → Open rx c)
      → (delivered mpsc o conn l c).0 ≢ tried closed
  delivered-Open none conn l c f e = cc
  delivered-Open (some rx) conn l c f e = law.not_closed rx conn c (f rx refl) (ap sent_of e)

  pub delivered-Mirrors :
      (o : Option ℕ) (conn : ℕ) (l : ListenerState) (subs : List Subscription) (c : C)
      → Mirrors Open c l.subscribers subs
      → let r : Dispatched × ListenerState × C = delivered mpsc o conn l c in
        Mirrors Open r.2 r.1.subscribers subs
  delivered-Mirrors none conn l subs c h = h
  delivered-Mirrors (some rx) conn l subs c h =
      keeps c (mpsc.try_send rx conn c).1 l.subscribers subs (λ x. law.try_send x rx conn c) h

  -- The listener and the channels after the drop of a subscription, and the subscriptions left.
  abbrev pub Left : Option ListenerState → C → Subscription → List Subscription → Type 0
  Left o c s rest =
      let r : Option ListenerState × C = drop_subscription mpsc s o c in Holds Open r.0 rest r.1

  Taken-Left :
      (l : ListenerState) (c : C) (s : Subscription) (rest : List Subscription)
      → Taken Open c l.subscribers s rest
      → Left (some l) c s rest
  unfolding drop_subscription forget find
  Taken-Left l c s rest t = elim (Option-cases (find s.sni l.subscribers)) [
    | inl e ↦ let bad : none ≡ some s.rx = subst (λ o. tx_of o ≡ some s.rx) e t.entry in cc
    | inr (i, e) ↦
        let m = erase s.sni l.subscribers in
        rw (drop_subscription, forget, e)
          (keeps_rx s.rx (mpsc.drop_tx i.tx c) m rest t.differ
            (keeps c (mpsc.drop_tx i.tx c) m rest (λ x. law.drop_tx x i.tx c) t.left))
  ]

  pub take_at-Left :
      (i : ℕ) (o : Option ListenerState) (subs : List Subscription) (c : C)
      → Holds Open o subs c
      → Given (Left o c) (take_at i subs)
  unfolding drop_subscription forget
  take_at-Left i none subs c h = Given-all (Left none c) (take_at i subs) (λ s rest. tt)
  take_at-Left i (some l) subs c h =
      Given-map (Taken Open c l.subscribers) (Left (some l) c) (take_at i subs) (Taken-Left l c)
        (Mirrors-take Open i c l.subscribers subs h)

  pub subscribe-answer :
      (valid : Bool) (name key : ℕ) (l : ListenerState) (subs : List Subscription) (c : C)
      → Mirrors Open c l.subscribers subs
      → (subscribe mpsc valid name key l c).0
        ≡ answer (l.verify_certifacate && not valid) name subs (mpsc.channel 32 c).0
  unfolding subscribe
  subscribe-answer valid name key l subs c h =
      let same = Mirrors-find Open name c l.subscribers subs h in
      elim (Bool-cases (l.verify_certifacate && not valid)) [
        | inl bad ↦ rw (subscribe, bad) refl
        | inr good ↦ elim (Option-cases (find name l.subscribers)) [
          | inl e ↦
              let gone : live name subs ≡ none = sym same ∙ ap tx_of e in
              rw (subscribe, good, e, gone) refl
          | inr (i, e) ↦
              let there : live name subs ≡ some i.tx = sym same ∙ ap tx_of e in
              rw (subscribe, good, e, there) refl
        ]
      ]
