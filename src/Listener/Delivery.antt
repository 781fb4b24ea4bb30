-- ===== src/Listener/Delivery.antt =====
-- What sni-tls-listener/src/listener.rs promises its subscriptions: it acts as if it looked a name up
-- among those that live.
use wapo.Prelude.{
  ℕ, ◌≤◌, ◌≡◌, ◌≢◌, sym, subst, arith, List, [], ◌∷◌, Option, none, some, inl, inr, Bool-cases,
  Option-cases, ltb, ◌==◌, ◌&&◌, not, Bool,
}
use wapo.Listener.{
  Channel, closed, Subscription, ListenerState, tried, subscribe, dispatch, Machine, take_at, Event,
  updates, subscribes, connects, fails, dispatches, nexts, drops, shuts_down, on_live, used,
  dropped, on_subs, run, bound, max_permits,
}
use wapo.Listener.Operations.{
  Holds, Kept, Left, delivered, answer, keeps, update_key-Mirrors, subscribe-Kept,
  dispatch-delivered, delivered-Open, delivered-Mirrors, take_at-Left, subscribe-answer,
}
use wapo.Listener.Mirror.{IsChannel, live, Mirrors, Mirrors-Open, Given}

module _ {C : Type 0} (mpsc : Channel C) (Open : ℕ → C → Type 0) (law : IsChannel mpsc Open) where
  on_live-Kept :
      (e : Event) (l : ListenerState) (m : Machine C)
      → m.listener ≡ some l
      → Mirrors Open m.channels l.subscribers m.subs
      → m.in_flight ≤ max_permits
      → Kept Open (on_live mpsc e l m)
  unfolding on_live
  on_live-Kept (updates valid name key) l m p h le =
      (update_key-Mirrors mpsc Open law valid name key l m.subs m.channels h, le)
  on_live-Kept (subscribes valid name key) l m p h le =
      subscribe-Kept mpsc Open law valid name key l m h le
  on_live-Kept connects l m p h le =
      let kept : Holds Open m.listener m.subs m.channels = rw p h in
      elim (Bool-cases (ltb m.in_flight max_permits)) [
        | inl room ↦ rw room (kept, ground arith)
        | inr busy ↦ rw busy (kept, le)
      ]
  on_live-Kept fails l m p h le = (rw p h, omega arith)
  on_live-Kept (dispatches name conn) l m p h le =
      let same = dispatch-delivered mpsc Open law name conn l m.subs m.channels h in
      (
        subst (λ r. Mirrors Open r.2 r.1.subscribers m.subs) (sym same)
            (delivered-Mirrors mpsc Open law (live name m.subs) conn l m.subs m.channels h),
        omega arith,
      )
  on_live-Kept shuts_down l m p h le = elim (Bool-cases (m.in_flight == 0)) [
    | inl idle ↦ rw idle (tt, le)
    | inr busy ↦ rw busy (rw p h, le)
  ]
  on_live-Kept (nexts i) l m p h le = (rw p h, le)
  on_live-Kept (drops i) l m p h le = (rw p h, le)

  dropped-Kept :
      (m : Machine C) (o : Option (Subscription × List Subscription))
      → Kept Open m
      → Given (Left mpsc Open law m.listener m.channels) o
      → Kept Open (dropped mpsc m o)
  unfolding dropped
  dropped-Kept m none h g = h
  dropped-Kept m (some (s, rest)) h g = (g, h.1)

  keeps_Holds :
      (c c' : C) (o : Option ListenerState) (subs : List Subscription)
      → ((x : ℕ) → Open x c → Open x c')
      → Holds Open o subs c
      → Holds Open o subs c'
  keeps_Holds c c' none subs f h = tt
  keeps_Holds c c' (some l) subs f h = keeps mpsc Open law c c' l.subscribers subs f h

  used-Kept :
      (m : Machine C) (o : Option (Subscription × List Subscription))
      → Kept Open m
      → Kept Open (used mpsc m o)
  used-Kept m none h = h
  used-Kept m (some (s, rest)) h = (
    keeps_Holds m.channels (mpsc.recv s.rx m.channels) m.listener m.subs
        (λ x. law.recv x s.rx m.channels) h.0,
    h.1,
  )

  with_listener :
      (e : Event) (m : Machine C)
      → Kept Open m
      → Kept Open (elim m.listener as (λ o. Machine C) [ none ↦ m | some l ↦ on_live mpsc e l m ])
  with_listener e m h = elim (Option-cases m.listener) [
    | inl p ↦ rw p h
    | inr (l, p) ↦
        let mirrors : Holds Open (some l) m.subs m.channels =
          subst (λ o. Holds Open o m.subs m.channels) p h.0 in
        rw p (on_live-Kept e l m p mirrors h.1)
  ]

  on_subs-Kept : (e : Event) (m : Machine C) → Kept Open m → Kept Open (on_subs mpsc e m)
  unfolding on_subs
  on_subs-Kept (nexts i) m h = used-Kept m (take_at i m.subs) h
  on_subs-Kept (drops i) m h =
      dropped-Kept m (take_at i m.subs) h
        (take_at-Left mpsc Open law i m.listener m.subs m.channels h.0)
  on_subs-Kept (updates valid name key) m h = with_listener (updates valid name key) m h
  on_subs-Kept (subscribes valid name key) m h = with_listener (subscribes valid name key) m h
  on_subs-Kept connects m h = with_listener connects m h
  on_subs-Kept fails m h = with_listener fails m h
  on_subs-Kept (dispatches name conn) m h = with_listener (dispatches name conn) m h
  on_subs-Kept shuts_down m h = with_listener shuts_down m h

  run-Kept : (es : List Event) (m : Machine C) → Kept Open m → Kept Open (run mpsc es m)
  unfolding run
  run-Kept [] m h = h
  run-Kept (e ∷ es) m h = run-Kept es (on_subs mpsc e m) (on_subs-Kept e m h)

  -- If the channel of tokio answers that it is closed only once its receiver is dropped, then after any
  -- calls, connections and drops since `bind`, while the listener is there: a connection goes to the
  -- live subscription of its name, and is dropped if there is none; `subscribe` refuses a name, apart
  -- from a bad certificate, exactly if a live subscription has it; the branch for a closed channel is
  -- never taken; and at most 1024 tasks hold a permit.
  pub run-delivers :
      (es : List Event) (verify_certifacate valid : Bool) (c : C) (l : ListenerState)
      (name key conn : ℕ)
      → (run mpsc es (bound verify_certifacate c)).listener ≡ some l
      → let m : Machine C = run mpsc es (bound verify_certifacate c) in
        (dispatch mpsc name conn l m.channels ≡ delivered mpsc (live name m.subs) conn l m.channels)
        × ((subscribe mpsc valid name key l m.channels).0
            ≡ answer (l.verify_certifacate && not valid) name m.subs (mpsc.channel 32 m.channels).0)
        × ((dispatch mpsc name conn l m.channels).0 ≢ tried closed)
        × (m.in_flight ≤ max_permits)
  run-delivers es verify_certifacate valid c l name key conn p =
      let m : Machine C = run mpsc es (bound verify_certifacate c) in
      let (holds, le) = run-Kept es (bound verify_certifacate c) (tt, omega arith) in
      let h : Holds Open (some l) m.subs m.channels =
        subst (λ o. Holds Open o m.subs m.channels) p holds in
      let same = dispatch-delivered mpsc Open law name conn l m.subs m.channels h in
      (
        same,
        subscribe-answer mpsc Open law valid name key l m.subs m.channels h,
        subst (λ r. r.0 ≢ tried closed) (sym same)
            (delivered-Open mpsc Open law (live name m.subs) conn l m.channels
              (λ rx. Mirrors-Open Open name rx m.channels l.subscribers m.subs h)),
        le,
      )
