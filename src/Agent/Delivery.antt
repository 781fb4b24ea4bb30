-- ===== src/Agent/Delivery.antt =====
-- What becomes of connections that wait for an instance.
use mathlib.Core.List.{append_assoc, append-nil}
use wapo.Prelude.{
  ℕ, ◌+◌, ◌≡◌, refl, sym, ap, subst, ◌∙◌, arith, List, [], ◌∷◌, ◌++◌, map, some, true, false,
  length,
}
use wapo.Prelude.Assoc.{find, replace, find-replace}
use wapo.Agent.{
  Mpsc, Subscribe, SubState, AgentState, first_send, join_domain, subscribe, dispatch_to,
  dispatch_connection,
}

module _ {Tx L : Type 0} (mpsc : Mpsc Tx) (net : Subscribe L) where
  -- Connections that come in one after another.
  unfoldable pub dispatch_all : ℕ → ℕ → List ℕ → AgentState Tx L → AgentState Tx L
  dispatch_all now domain [] s = s
  dispatch_all now domain (c ∷ cs) s =
      dispatch_all now domain cs (dispatch_connection mpsc net now domain c s).1

  -- Instances that subscribe one after another, and the ids of their subscriptions.
  unfoldable pub subscribe_all : ℕ → ℕ → List ℕ → AgentState Tx L → AgentState Tx L
  subscribe_all domain key [] s = s
  subscribe_all domain key (id ∷ ids) s =
      subscribe_all domain key ids (subscribe mpsc net id domain key s).1

  abbrev pub Has : ℕ → List (ℕ × ℕ) → List (ℕ × Tx) → AgentState Tx L → Type 0
  Has domain queue subs s =
      find domain s.subscribers ≡ some (record { queue = queue; subscriptions = subs })

  -- What a dispatch leaves of an agent that makes an instance for each connection.
  queued :
      (now domain c : ℕ) (queue : List (ℕ × ℕ)) (subs : List (ℕ × Tx)) (s : AgentState Tx L)
      → s.reuse_subscriber ≡ false
      → Has domain queue subs s
      → (dispatch_connection mpsc net now domain c s).1 ≡ record s {
        subscribers =
            replace domain
              (record { queue = queue ++ (now, c) ∷ []; subscriptions = subs })
              s.subscribers;
        created = s.created + 1;
      }
  unfolding dispatch_connection dispatch_to
  queued now domain c queue subs s reuse e = rw (e, dispatch_connection, reuse)

  all_queued :
      (now domain : ℕ) (cs : List (ℕ × ℕ)) (queue : List (ℕ × ℕ)) (subs : List (ℕ × Tx))
      (s : AgentState Tx L)
      → s.reuse_subscriber ≡ false
      → Has domain queue subs s
      → let last : AgentState Tx L = dispatch_all now domain (map (λ a. a.1) cs) s in
        Has domain (queue ++ map (λ (a : ℕ × ℕ). (now, a.1)) cs) subs last
        × (last.listener ≡ s.listener)
        × (last.created ≡ s.created + length cs)
  unfolding dispatch_all
  all_queued now domain [] queue subs s reuse e =
      (subst (λ q. Has domain q subs s) (sym (append-nil queue)) e, refl, omega arith)
  all_queued now domain ((id, c) ∷ cs) queue subs s reuse e =
      let s' : AgentState Tx L = record s {
        subscribers =
            replace domain (record { queue = queue ++ (now, c) ∷ []; subscriptions = subs })
              s.subscribers;
        created = s.created + 1;
      } in
      let (has, same, made) =
        all_queued now domain cs (queue ++ (now, c) ∷ []) subs s' reuse
          (find-replace domain _ _ s.subscribers e) in
      rw (dispatch_all, queued now domain c queue subs s reuse e)
        (
          subst (λ q. Has domain q subs (dispatch_all now domain (map (λ a. a.1) cs) s'))
              (append_assoc queue ((now, c) ∷ []) (map (λ (a : ℕ × ℕ). (now, a.1)) cs)) has,
          same,
          omega (arith, made),
        )

-- What a listener says of a key that it accepts for a domain, now and after it took it.
abbrev pub Accepts : {L : Type 0} → Subscribe L → ℕ → ℕ → (L → Type 0) → Type 0
Accepts {L = L} net domain key Ready =
    (l : L)
    → Ready l
    → ((net.update_key domain key l).0 ≡ true) × Ready (net.update_key domain key l).1

module _ {Tx L : Type 0} (mpsc : Mpsc Tx) (net : Subscribe L) (holds : ℕ → Tx)
    (accepts : (c : ℕ) → mpsc.try_send c mpsc.channel ≡ some (holds c)) (domain key : ℕ)
    (Ready : L → Type 0) (updates : Accepts net domain key Ready) where
  joined :
      (now id c : ℕ) (queue : List (ℕ × ℕ)) (subs : List (ℕ × Tx)) (s : AgentState Tx L)
      → Ready s.listener
      → Has mpsc net domain ((now, c) ∷ queue) subs s
      → (subscribe mpsc net id domain key s).1 ≡ record s {
        listener = (net.update_key domain key s.listener).1;
        subscribers =
            replace domain
              (record { queue = queue; subscriptions = subs ++ (id, holds c) ∷ [] })
              s.subscribers;
      }
  unfolding subscribe join_domain first_send
  joined now id c queue subs s r e =
      let answer : net.update_key domain key s.listener
          ≡ (true, (net.update_key domain key s.listener).1) =
        ap (λ b. (b, (net.update_key domain key s.listener).1)) (updates s.listener r).0 in
      rw (e, subscribe)
        (ap
            (λ a.
              (join_domain mpsc net id domain
                (record { queue = (now, c) ∷ queue; subscriptions = subs }) a s).1)
            answer
          ∙ rw (join_domain, first_send, accepts c) refl)

  all_joined :
      (now : ℕ) (cs : List (ℕ × ℕ)) (subs : List (ℕ × Tx)) (s : AgentState Tx L)
      → Ready s.listener
      → Has mpsc net domain (map (λ (a : ℕ × ℕ). (now, a.1)) cs) subs s
      → Has mpsc net domain []
          (subs ++ map (λ (a : ℕ × ℕ). (a.0, holds a.1)) cs)
          (subscribe_all mpsc net domain key (map (λ a. a.0) cs) s)
  unfolding subscribe_all
  all_joined now [] subs s r e = subst (λ l. Has mpsc net domain [] l s) (sym (append-nil subs)) e
  all_joined now ((id, c) ∷ cs) subs s r e =
      let q : List (ℕ × ℕ) = map (λ (a : ℕ × ℕ). (now, a.1)) cs in
      let here : Has mpsc net domain ((now, c) ∷ q) subs s = e in
      let s' : AgentState Tx L = record s {
        listener = (net.update_key domain key s.listener).1;
        subscribers =
            replace domain (record { queue = q; subscriptions = subs ++ (id, holds c) ∷ [] })
              s.subscribers;
      } in
      rw (subscribe_all, joined now id c q subs s r here)
        (subst
          (λ l. Has mpsc net domain [] l (subscribe_all mpsc net domain key (map (λ a. a.0) cs) s'))
          (append_assoc subs ((id, holds c) ∷ []) (map (λ (a : ℕ × ℕ). (a.0, holds a.1)) cs))
          (all_joined now cs (subs ++ (id, holds c) ∷ []) s' (updates s.listener r).1
            (find-replace domain _ _ s.subscribers e)))

  -- If a new channel accepts a connection, and the listener accepts the key, then an agent that makes
  -- an instance per connection makes one for each of the connections that come in for a domain with no
  -- connection waiting; and the instances that subscribe after that get them, each one and in the
  -- order in which they came.
  pub delivers_in_order :
      (now : ℕ) (cs : List (ℕ × ℕ)) (sub : SubState Tx) (s : AgentState Tx L)
      → Ready s.listener
      → s.reuse_subscriber ≡ false
      → find domain s.subscribers ≡ some sub
      → sub.queue ≡ []
      → let came : AgentState Tx L = dispatch_all mpsc net now domain (map (λ a. a.1) cs) s in
        (find domain (subscribe_all mpsc net domain key (map (λ a. a.0) cs) came).subscribers
          ≡ some (record {
            queue = [];
            subscriptions = sub.subscriptions ++ map (λ (a : ℕ × ℕ). (a.0, holds a.1)) cs;
          }))
        × (came.created ≡ s.created + length cs)
  delivers_in_order now cs sub s r reuse e none_waits =
      let start : Has mpsc net domain [] sub.subscriptions s =
        e ∙ ap (λ q. some (record { queue = q; subscriptions = sub.subscriptions })) none_waits in
      let came : AgentState Tx L = dispatch_all mpsc net now domain (map (λ a. a.1) cs) s in
      let (has, same, made) =
        all_queued mpsc net now domain cs [] sub.subscriptions s reuse start in
      (all_joined now cs sub.subscriptions came (subst Ready (sym same) r) has, made)
