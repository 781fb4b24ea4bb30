-- ===== src/Agent/OnListener.antt =====
-- The agent of sni-tls-listener/src/agent.rs on the listener of listener.rs, which is its `DefaultConfig`.
use wapo.Prelude.{
  ℕ, ◌+◌, ◌≡◌, refl, List, [], ◌++◌, map, some, Bool, true, false, not, ◌&&◌, length,
}
use wapo.Prelude.Assoc.{find, find-replace}
use wapo.Prelude.Result.{Result, ok, err}
use wapo.Agent.{Mpsc, Subscribe, SubState, AgentState}
use wapo.Agent.Delivery.{dispatch_all, subscribe_all, Accepts, delivers_in_order}
use wapo.Listener
use wapo.Listener.{Channel, ListenerState, SubscribeInfo}

abbrev is_ok : {E A : Type 0} → Result E A → Bool
is_ok (ok a) = true
is_ok (err e) = false

module _ {C : Type 0} (valid : ℕ → ℕ → Bool) (channels : Channel C) where
  -- `Subscribe for SniTlsListener`; `valid` says for which domain a key is a valid certificate.
  abbrev pub sni_net : Subscribe (ListenerState × C)
  sni_net = record {
    update_key = λ domain key (l, c).
        let (r, l') = Listener.update_key (valid domain key) domain key l in (is_ok r, (l', c));
    subscribe = λ domain key (l, c).
        let (r, l', c') = Listener.subscribe channels (valid domain key) domain key l c in
        (is_ok r, (l', c'));
  }

  -- The domain is subscribed, and its key is a valid certificate, if that is to be verified.
  abbrev pub Takes : ℕ → ℕ → ListenerState × C → Type 0
  Takes domain key (l, c) =
      ((l.verify_certifacate && not (valid domain key)) ≡ false)
      × ((i : SubscribeInfo) × (find domain l.subscribers ≡ some i))

  sni_net-Accepts : (domain key : ℕ) → Accepts sni_net domain key (Takes domain key)
  unfolding Listener.update_key
  sni_net-Accepts domain key (l, c) (good, (i, e)) =
      rw (Listener.update_key, good, e)
        (refl, (good, (record i { key = key }, find-replace domain i _ l.subscribers e)))

  -- If a new channel accepts a connection, and the listener has a subscription of the domain and the key
  -- is a valid certificate for it or certificates are not verified, then an agent that makes an instance
  -- per connection makes one for each of the connections that come in for the domain while none waits;
  -- and the instances that subscribe with that key after that get them, each one and in the order in
  -- which they came.
  pub delivers-on_listener :
      {Tx : Type 0} (mpsc : Mpsc Tx) (holds : ℕ → Tx) (domain key now : ℕ) (cs : List (ℕ × ℕ))
      (sub : SubState Tx) (i : SubscribeInfo) (s : AgentState Tx (ListenerState × C))
      → ((c : ℕ) → mpsc.try_send c mpsc.channel ≡ some (holds c))
      → (s.listener.0.verify_certifacate && not (valid domain key)) ≡ false
      → find domain s.listener.0.subscribers ≡ some i
      → s.reuse_subscriber ≡ false
      → find domain s.subscribers ≡ some sub
      → sub.queue ≡ []
      → let came : AgentState Tx (ListenerState × C) =
          dispatch_all mpsc sni_net now domain (map (λ a. a.1) cs) s in
        (find domain (subscribe_all mpsc sni_net domain key (map (λ a. a.0) cs) came).subscribers
          ≡ some (record {
            queue = [];
            subscriptions = sub.subscriptions ++ map (λ (a : ℕ × ℕ). (a.0, holds a.1)) cs;
          }))
        × (came.created ≡ s.created + length cs)
  delivers-on_listener mpsc holds domain key now cs sub i s accepts good e reuse f none_waits =
      delivers_in_order mpsc sni_net holds accepts domain key (Takes domain key)
        (sni_net-Accepts domain key) now cs sub s (good, (i, e)) reuse f none_waits
