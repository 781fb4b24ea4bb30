-- ===== src/Agent/Invariant/Steps.antt =====
-- Every step of the agent keeps its domains served.
use wapo.Prelude.{
  ℕ, ◌+◌, ◌≡◌, refl, sym, ap, subst, ◌∙◌, arith, List, [], ◌∷◌, ◌++◌, Option, some, none, Bool,
  true, false, Option-cases, Bool-cases, inl, inr, if◌then◌else◌,
}
use wapo.Prelude.Assoc.{
  find, replace, erase, find-replace, Values-find, Values-replace, Values-erase,
}
use wapo.Agent.{
  Mpsc, Subscribe, SubState, AgentState, is_nil, first_entry, retain, clear_timeout_connections,
  dispatch_to, dispatch_connection, unsubscribe, remove_sub, check_timeouts,
}
use wapo.Agent.Invariant.{
  Served, Calls, IsServed, AgentStep, subscribes, dispatches, unsubscribes, removes, checks,
  AgentSteps, here, next, new_agent, is_nil-replace, subscribe-IsServed,
}

erase-replace {ℓ} :
    {A : Type ℓ} (k : ℕ) (v : A) (m : List (ℕ × A)) → erase k (replace k v m) ≡ erase k m
unfolding erase replace
erase-replace k v [] = refl
erase-replace k v ((j, a) ∷ m) = ground (arith, erase-replace k v m)

first_entry-some {ℓ} :
    {A : Type ℓ} (m : List (ℕ × A)) → is_nil m ≡ false → (e : ℕ × A) × (first_entry m ≡ some e)
first_entry-some [] h = cc
first_entry-some (e ∷ m) h = (e, refl)

-- New subscriptions, some again, and a queue that stays empty if it was.
changed-Served :
    {Tx : Type 0} (b : Bool) (sub sub' : SubState Tx)
    → Served b sub
    → is_nil sub'.subscriptions ≡ false
    → (sub.queue ≡ [] → sub'.queue ≡ [])
    → Served b sub'
changed-Served true sub sub' h n q = (n, q h.1)
changed-Served false sub sub' h n q = n

Served-subscribed :
    {Tx : Type 0} (b : Bool) (sub : SubState Tx) → Served b sub → is_nil sub.subscriptions ≡ false
Served-subscribed true sub h = h.0
Served-subscribed false sub h = h

retain-nil : (now threshold : ℕ) (q : List (ℕ × ℕ)) → q ≡ [] → retain now threshold q ≡ []
unfolding retain
retain-nil now threshold [] e = refl
retain-nil now threshold (x ∷ q) e = cc

module _ {Tx L : Type 0} (mpsc : Mpsc Tx) (net : Subscribe L) where
  -- The domain with a changed subscription state.
  changed-IsServed :
      (domain : ℕ) (sub sub' : SubState Tx) (s : AgentState Tx L)
      → find domain s.subscribers ≡ some sub
      → IsServed s
      → is_nil sub'.subscriptions ≡ false
      → (sub.queue ≡ [] → sub'.queue ≡ [])
      → IsServed (record s { subscribers = replace domain sub' s.subscribers })
  changed-IsServed domain sub sub' s e v n q =
      let h = Values-find (Served s.reuse_subscriber) domain sub s.subscribers v.domains e in
      record {
        domains =
            Values-replace (Served s.reuse_subscriber) domain sub' s.subscribers v.domains
              (changed-Served s.reuse_subscriber sub sub' h n q);
        calls = v.calls;
      }

  sent-IsServed :
      (now domain conn : ℕ) (sub : SubState Tx) (e : ℕ × Tx) (s : AgentState Tx L)
      → find domain s.subscribers ≡ some sub
      → is_nil sub.subscriptions ≡ false
      → IsServed s
      → IsServed (dispatch_to mpsc net now domain conn sub (some e) s).1
  unfolding dispatch_to
  sent-IsServed now domain conn sub (id, tx) s e n v = elim (Option-cases (mpsc.try_send conn tx)) [
    | inl p ↦ rw (dispatch_to, p) v
    | inr (tx', p) ↦
        rw (dispatch_to, p)
          (changed-IsServed domain sub
            (record sub { subscriptions = replace id tx' sub.subscriptions }) s e v
            (is_nil-replace id tx' sub.subscriptions ∙ n) (λ q. q))
  ]

  -- Where no subscription is reused, nothing is asked of the queue and of the calls.
  queued-IsServed :
      (now domain conn : ℕ) (sub : SubState Tx) (s : AgentState Tx L)
      → s.reuse_subscriber ≡ false
      → is_nil sub.subscriptions ≡ false
      → IsServed s
      → IsServed (dispatch_to mpsc net now domain conn sub none s).1
  unfolding dispatch_to
  queued-IsServed now domain conn sub s r n v =
      let sub' : SubState Tx = record sub { queue = sub.queue ++ (now, conn) ∷ [] } in
      let h : Served s.reuse_subscriber sub' = subst (λ b. Served b sub') (sym r) n in
      record {
        domains = Values-replace (Served s.reuse_subscriber) domain sub' s.subscribers v.domains h;
        calls = subst (λ b. Calls b (s.created + 1)) (sym r) tt;
      }

  dispatch_connection-IsServed :
      (now domain conn : ℕ) (s : AgentState Tx L)
      → IsServed s
      → IsServed (dispatch_connection mpsc net now domain conn s).1
  unfolding dispatch_connection
  dispatch_connection-IsServed now domain conn s v =
      elim (Option-cases (find domain s.subscribers)) [
        | inl e ↦ rw (dispatch_connection, e) v
        | inr (sub, e) ↦
            let h = Values-find (Served s.reuse_subscriber) domain sub s.subscribers v.domains e in
            let n = Served-subscribed s.reuse_subscriber sub h in
            let chosen : Option (ℕ × Tx) =
              if s.reuse_subscriber then first_entry sub.subscriptions else none in
            let from : (o : Option (ℕ × Tx))
                → chosen ≡ o
                → IsServed (dispatch_to mpsc net now domain conn sub o s).1
                → IsServed (dispatch_to mpsc net now domain conn sub chosen s).1 =
              λ o p.
                subst (λ q. IsServed (dispatch_to mpsc net now domain conn sub q s).1) (sym p) in
            rw (dispatch_connection, e)
              (elim (Bool-cases s.reuse_subscriber) [
                | inl r ↦
                    let (x, f) = first_entry-some sub.subscriptions n in
                    from (some x)
                      (ap (λ b. if b then first_entry sub.subscriptions else none) r ∙ f)
                      (sent-IsServed now domain conn sub x s e n v)
                | inr r ↦
                    from none (ap (λ b. if b then first_entry sub.subscriptions else none) r)
                      (queued-IsServed now domain conn sub s r n v)
              ])
      ]

  erased-IsServed :
      (domain : ℕ) (s : AgentState Tx L)
      → IsServed s
      → IsServed (record s { subscribers = erase domain s.subscribers })
  erased-IsServed domain s v = record {
    domains = Values-erase (Served s.reuse_subscriber) domain s.subscribers v.domains;
    calls = v.calls;
  }

  unsubscribe-IsServed :
      (domain : ℕ) (s : AgentState Tx L) → IsServed s → IsServed (unsubscribe domain s).1
  unfolding unsubscribe
  unsubscribe-IsServed domain s v = elim (Option-cases (find domain s.subscribers)) [
    | inl e ↦ rw (unsubscribe, e) v
    | inr (sub, e) ↦ rw (unsubscribe, e) (erased-IsServed domain s v)
  ]

  remove_sub-IsServed :
      (domain id : ℕ) (s : AgentState Tx L) → IsServed s → IsServed (remove_sub domain id s).1
  unfolding remove_sub unsubscribe
  remove_sub-IsServed domain id s v = elim (Option-cases (find domain s.subscribers)) [
    | inl e ↦ rw (remove_sub, e) v
    | inr (sub, e) ↦ elim (Option-cases (find id sub.subscriptions)) [
      | inl f ↦ rw (remove_sub, e, f) v
      | inr (tx, f) ↦
          let sub' : SubState Tx = record sub { subscriptions = erase id sub.subscriptions } in
          elim (Bool-cases (is_nil (erase id sub.subscriptions))) [
            | inl g ↦
                rw
                  (
                    remove_sub,
                    e,
                    f,
                    g,
                    unsubscribe,
                    find-replace domain sub sub' s.subscribers e,
                    erase-replace domain sub' s.subscribers,
                  )
                  (erased-IsServed domain s v)
            | inr g ↦ rw (remove_sub, e, f, g) (changed-IsServed domain sub sub' s e v g (λ q. q))
          ]
    ]
  ]

  check_timeouts-IsServed :
      (now domain : ℕ) (s : AgentState Tx L) → IsServed s → IsServed (check_timeouts now domain s)
  unfolding check_timeouts clear_timeout_connections
  check_timeouts-IsServed now domain s v = elim (Option-cases (find domain s.subscribers)) [
    | inl e ↦ rw (check_timeouts, e) v
    | inr (sub, e) ↦
        let h = Values-find (Served s.reuse_subscriber) domain sub s.subscribers v.domains e in
        rw (check_timeouts, e)
          (changed-IsServed domain sub (clear_timeout_connections now s.connect_timeout sub) s e v
            (Served-subscribed s.reuse_subscriber sub h)
            (retain-nil now s.connect_timeout sub.queue))
  ]

  AgentStep-IsServed : {s t : AgentState Tx L} → AgentStep mpsc net s t → IsServed s → IsServed t
  AgentStep-IsServed {s} (subscribes id domain key) v =
      subscribe-IsServed mpsc net id domain key s v
  AgentStep-IsServed {s} (dispatches now domain conn) v =
      dispatch_connection-IsServed now domain conn s v
  AgentStep-IsServed {s} (unsubscribes domain) v = unsubscribe-IsServed domain s v
  AgentStep-IsServed {s} (removes domain id) v = remove_sub-IsServed domain id s v
  AgentStep-IsServed {s} (checks now domain) v = check_timeouts-IsServed now domain s v

  start-IsServed : (l : L) (b : Bool) (timeout : ℕ) → IsServed (new_agent {Tx = Tx} l b timeout)
  start-IsServed l true timeout = record { domains = tt; calls = refl }
  start-IsServed l false timeout = record { domains = tt; calls = tt }

  steps-IsServed : {s t : AgentState Tx L} → AgentSteps mpsc net s t → IsServed s → IsServed t
  steps-IsServed here v = v
  steps-IsServed (next st x) v = AgentStep-IsServed x (steps-IsServed st v)

  -- In every state that a new agent can reach, each domain that is listed has a subscription; and if
  -- subscriptions are reused, no connection waits and no instance was asked for.
  pub reachable-IsServed :
      (l : L) (reuse : Bool) (timeout : ℕ) (s : AgentState Tx L)
      → AgentSteps mpsc net (new_agent l reuse timeout) s
      → IsServed s
  reachable-IsServed l reuse timeout s st = steps-IsServed st (start-IsServed l reuse timeout)
