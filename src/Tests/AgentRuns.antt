-- ===== src/Tests/AgentRuns.antt =====
-- The agent with a buffer of one connection per channel.
use wapo.Prelude.{ℕ, ◌+◌, ◌≡◌, refl, [], ◌∷◌, ◌==◌, Bool, Option, some, none, true, false}
use wapo.Prelude.Assoc.{find}
use wapo.Agent.{Mpsc, Subscribe, SubState, AgentState, subscribe, dispatch_connection}
use wapo.Agent.Delivery.{dispatch_all, subscribe_all}
use wapo.Agent.OnListener.{sni_net, delivers-on_listener}
use wapo.Listener.{ListenerState}
use wapo.Tests.ListenerRuns.{Channels, unbounded, no_channels}
use wapo.Agent.Invariant.{IsServed, here, next, subscribes, dispatches, new_agent}
use wapo.Agent.Invariant.Steps.{reachable-IsServed}

-- A channel as what is in its buffer.
abbrev buffer : Mpsc (Option ℕ)
buffer = record {
  channel = none;
  try_send = λ c tx. elim tx [ none ↦ some (some c) | some d ↦ none ];
}

abbrev open_net : Subscribe (Unit {0})
open_net = record { update_key = λ domain key l. (true, l); subscribe = λ domain key l. (true, l) }

abbrev shared_sub : SubState (Option ℕ)
shared_sub = record { queue = []; subscriptions = (3, none) ∷ [] }

-- The listener, which verifies certificates, and has the domain 6.
abbrev valid : ℕ → ℕ → Bool
valid domain key = key == domain + 3

abbrev sni : ListenerState
sni = record { subscribers = (6, record { key = 9; tx = 0 }) ∷ []; verify_certifacate = true }

abbrev on_sni : AgentState (Option ℕ) (ListenerState × Channels)
on_sni = record (new_agent {Tx = Option ℕ} (sni, no_channels) false 10) {
  subscribers = (6, shared_sub) ∷ [];
}

abbrev came : AgentState (Option ℕ) (ListenerState × Channels)
came = dispatch_all buffer (sni_net valid unbounded) 100 6 (70 ∷ 80 ∷ []) on_sni

delivers-on_listener_example :
    (find 6 (subscribe_all buffer (sni_net valid unbounded) 6 9 (4 ∷ 7 ∷ []) came).subscribers
      ≡ some (record { queue = []; subscriptions = (3, none) ∷ (4, some 70) ∷ (7, some 80) ∷ [] }))
    × (came.created ≡ 0 + 2)
unfolding find
delivers-on_listener_example =
    delivers-on_listener valid unbounded buffer some 6 9 100 ((4, 70) ∷ (7, 80) ∷ []) shared_sub
      (record { key = 9; tx = 0 }) on_sni (λ c. refl) refl refl refl refl refl

abbrev start : AgentState (Option ℕ) (Unit {0})
start = new_agent tt true 10

abbrev served : AgentState (Option ℕ) (Unit {0})
served = (dispatch_connection buffer open_net 100 6 70 (subscribe buffer open_net 0 6 9 start).1).1

reachable-IsServed_example : IsServed served
reachable-IsServed_example =
    reachable-IsServed buffer open_net tt true 10 served
      (next (next here (subscribes 0 6 9)) (dispatches 100 6 70))
