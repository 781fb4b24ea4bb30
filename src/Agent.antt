-- ===== src/Agent.antt =====
-- sni-tls-listener/src/agent.rs: the agent that hands TLS connections to the instances which subscribed
-- to a domain. Domains, keys and connections are numbers; instants and durations are nanoseconds. The
-- channel of tokio and the listener are parameters.
pub mod Delivery
pub mod OnListener
pub mod Invariant
use wapo.Prelude.{
  ℕ, ◌+◌, ◌-◌, ltb, if◌then◌else◌, List, [], ◌∷◌, ◌++◌, Option, none, some, Bool, true, false,
}
use wapo.Prelude.Result.{Result, ok, err}
use wapo.Prelude.Assoc.{find, replace, erase}

pub data AgentError : Type 0 where
  no_subscribers no_subscription update_failed subscribe_failed dispatch_failed : AgentError

-- `tokio::sync::mpsc`: the sender of a channel of capacity one that was just made, and `try_send`, which
-- answers nothing if the buffer is full or the receiver is gone.
pub record Mpsc (Tx : Type 0) : Type 0 where
  pub channel : Tx
  pub try_send : ℕ → Tx → Option Tx

-- `Subscribe`: the two calls answer whether they succeeded, and may change the listener.
pub record Subscribe (L : Type 0) : Type 0 where
  pub update_key : ℕ → ℕ → L → Bool × L
  pub subscribe : ℕ → ℕ → L → Bool × L

-- `SubState`; the subscriptions stand by rising id, as in a `BTreeMap`.
pub record SubState (Tx : Type 0) : Type 0 where
  pub queue : List (ℕ × ℕ)
  pub subscriptions : List (ℕ × Tx)

-- `AgentState`; `created` counts the calls of `create_instance`.
pub record AgentState (Tx L : Type 0) : Type 0 where
  pub listener : L
  pub subscribers : List (ℕ × SubState Tx)
  pub reuse_subscriber : Bool
  pub connect_timeout : ℕ
  pub created : ℕ

-- `retain(|(instant, _)| instant.elapsed() < threshold)` at the instant `now`.
unfoldable pub retain : ℕ → ℕ → List (ℕ × ℕ) → List (ℕ × ℕ)
retain now threshold [] = []
retain now threshold ((instant, conn) ∷ queue) =
    let rest = retain now threshold queue in
    if ltb (now - instant) threshold then (instant, conn) ∷ rest else rest

-- `SubState::clear_timeout_connections`.
unfoldable pub clear_timeout_connections : {Tx : Type 0} → ℕ → ℕ → SubState Tx → SubState Tx
unfolding retain
clear_timeout_connections now threshold sub = record sub { queue = retain now threshold sub.queue }

abbrev pub is_nil {ℓ} : {A : Type ℓ} → List A → Bool
is_nil [] = true
is_nil (x ∷ xs) = false

-- `values().next()` of a map, with its key.
abbrev pub first_entry {ℓ} : {A : Type ℓ} → List (ℕ × A) → Option (ℕ × A)
first_entry [] = none
first_entry (e ∷ m) = some e

module _ {Tx L : Type 0} (mpsc : Mpsc Tx) (net : Subscribe L) where
  -- The channel of a new subscription of a domain that others subscribed to: it gets the connection
  -- that has waited longest, if any; an error of the send is only logged.
  unfoldable pub first_send : List (ℕ × ℕ) → Tx × List (ℕ × ℕ)
  first_send [] = (mpsc.channel, [])
  first_send ((instant, conn) ∷ queue) = elim (mpsc.try_send conn mpsc.channel) [
    | none ↦ (mpsc.channel, queue)
    | some tx ↦ (tx, queue)
  ]

  -- The two cases of `AgentState::subscribe`, once the listener has answered. `id` is what the static
  -- NEXT_SUB_ID, which all agents share, gives the subscription; since it only rises, the newest
  -- subscription of an agent stands last. The answer is the id.
  unfoldable pub join_domain :
      ℕ → ℕ → SubState Tx → Bool × L → AgentState Tx L → Result AgentError ℕ × AgentState Tx L
  unfolding first_send
  join_domain id domain sub (false, l) s = (err update_failed, record s { listener = l })
  join_domain id domain sub (true, l) s =
      let (tx, queue) = first_send sub.queue in
      let sub' : SubState Tx = record {
        queue = queue;
        subscriptions = sub.subscriptions ++ (id, tx) ∷ [];
      } in
      (ok id, record s { listener = l; subscribers = replace domain sub' s.subscribers })

  unfoldable pub open_domain :
      ℕ → ℕ → Bool × L → AgentState Tx L → Result AgentError ℕ × AgentState Tx L
  open_domain id domain (false, l) s = (err subscribe_failed, record s { listener = l })
  open_domain id domain (true, l) s =
      let sub : SubState Tx = record { queue = []; subscriptions = (id, mpsc.channel) ∷ [] } in
      (ok id, record s { listener = l; subscribers = (domain, sub) ∷ s.subscribers })

  unfoldable pub subscribe : ℕ → ℕ → ℕ → AgentState Tx L → Result AgentError ℕ × AgentState Tx L
  unfolding join_domain open_domain
  subscribe id domain key s = elim (find domain s.subscribers) [
    | some sub ↦ join_domain id domain sub (net.update_key domain key s.listener) s
    | none ↦ open_domain id domain (net.subscribe domain key s.listener) s
  ]

  -- The rest of `dispatch_connection`, once the domain and a subscriber to reuse are looked up.
  unfoldable pub dispatch_to :
      ℕ
      → ℕ
      → ℕ
      → SubState Tx
      → Option (ℕ × Tx)
      → AgentState Tx L
      → Result AgentError (Unit {0}) × AgentState Tx L
  dispatch_to now domain conn sub (some (id, tx)) s = elim (mpsc.try_send conn tx) [
    | none ↦ (err dispatch_failed, s)
    | some tx' ↦
        let sub' : SubState Tx = record sub { subscriptions = replace id tx' sub.subscriptions } in
        (ok tt, record s { subscribers = replace domain sub' s.subscribers })
  ]
  dispatch_to now domain conn sub none s =
      let sub' : SubState Tx = record sub { queue = sub.queue ++ (now, conn) ∷ [] } in
      (ok tt, record s { subscribers = replace domain sub' s.subscribers; created = s.created + 1 })

  unfoldable pub dispatch_connection :
      ℕ → ℕ → ℕ → AgentState Tx L → Result AgentError (Unit {0}) × AgentState Tx L
  unfolding dispatch_to
  dispatch_connection now domain conn s = elim (find domain s.subscribers) [
    | none ↦ (err no_subscribers, s)
    | some sub ↦
        let subscriber : Option (ℕ × Tx) =
          if s.reuse_subscriber then first_entry sub.subscriptions else none in
        dispatch_to now domain conn sub subscriber s
  ]

module _ {Tx L : Type 0} where
  unfoldable pub unsubscribe : ℕ → AgentState Tx L → Result AgentError (Unit {0}) × AgentState Tx L
  unsubscribe domain s = elim (find domain s.subscribers) [
    | none ↦ (err no_subscribers, s)
    | some sub ↦ (ok tt, record s { subscribers = erase domain s.subscribers })
  ]

  -- `remove_sub`, which the drop of a subscription calls.
  unfoldable pub remove_sub :
      ℕ → ℕ → AgentState Tx L → Result AgentError (Unit {0}) × AgentState Tx L
  unfolding unsubscribe
  remove_sub domain id s = elim (find domain s.subscribers) [
    | none ↦ (err no_subscribers, s)
    | some sub ↦ elim (find id sub.subscriptions) [
      | none ↦ (err no_subscription, s)
      | some tx ↦
          let left = erase id sub.subscriptions in
          let s' : AgentState Tx L = record s {
            subscribers = replace domain (record sub { subscriptions = left }) s.subscribers;
          } in
          if is_nil left then unsubscribe domain s' else (ok tt, s')
    ]
  ]

  -- A round of the checker that `subscribe` starts for the domain.
  unfoldable pub check_timeouts : ℕ → ℕ → AgentState Tx L → AgentState Tx L
  unfolding clear_timeout_connections
  check_timeouts now domain s = elim (find domain s.subscribers) [
    | none ↦ s
    | some sub ↦ record s {
      subscribers =
          replace domain (clear_timeout_connections now s.connect_timeout sub) s.subscribers;
    }
  ]
