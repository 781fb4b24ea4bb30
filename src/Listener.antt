-- ===== src/Listener.antt =====
-- sni-tls-listener/src/listener.rs: the listener that hands TLS connections to the subscription of their
-- domain. Names, keys and connections are numbers. The channel of tokio is a parameter that acts on the
-- state `C` of all channels; the answer of `verify_certifacate` is an argument.

pub mod Mirror
pub mod Operations
pub mod Delivery
use wapo.Prelude.{
  ℕ, zero, suc, ◌+◌, ◌-◌, ltb, ◌==◌, if◌then◌else◌, List, [], ◌∷◌, Option, none, some, Bool, true,
  false, ◌&&◌, not,
}
use wapo.Prelude.Result.{Result, ok, err}
use wapo.Prelude.Assoc.{find, replace, erase}

pub data ListenerError : Type 0 where
  bad_certificate not_subscribed already_subscribed : ListenerError

pub data Sent : Type 0 where
  sent full closed : Sent

-- `tokio::sync::mpsc`, with a number for each channel.
pub record Channel (C : Type 0) : Type 0 where
  pub channel : ℕ → C → ℕ × C
  pub try_send : ℕ → ℕ → C → Sent × C
  pub recv : ℕ → C → C
  pub drop_tx : ℕ → C → C
  pub drop_rx : ℕ → C → C

pub record Subscription : Type 0 where
  pub rx : ℕ
  pub sni : ℕ

pub record SubscribeInfo : Type 0 where
  pub key : ℕ
  pub tx : ℕ

-- `SniTlsListenerState`, spelled as in the source.
pub record ListenerState : Type 0 where
  pub subscribers : List (ℕ × SubscribeInfo)
  pub verify_certifacate : Bool

-- What becomes of a connection with a name.
pub data Dispatched : Type 0 where
  no_subscriber : Dispatched
  tried : Sent → Dispatched

unfoldable pub update_key :
    Bool → ℕ → ℕ → ListenerState → Result ListenerError (Unit {0}) × ListenerState
update_key valid server_name key l =
    if l.verify_certifacate && not valid
    then (err bad_certificate, l)
    else elim (find server_name l.subscribers) [
      | none ↦ (err not_subscribed, l)
      | some i ↦ (
        ok tt,
        record l { subscribers = replace server_name (record i { key = key }) l.subscribers },
      )
    ]

-- `ResolvesServerCert::resolve`, for a listener that is there or not.
unfoldable resolve : Option ListenerState → Option ℕ → Option ℕ
resolve none name = none
resolve (some l) none = none
resolve (some l) (some name) = elim (find name l.subscribers) [ none ↦ none | some i ↦ some i.key ]

module _ {C : Type 0} (mpsc : Channel C) where
  unfoldable pub subscribe :
      Bool → ℕ → ℕ → ListenerState → C → Result ListenerError Subscription × ListenerState × C
  subscribe valid server_name key l c =
      let (id, c') = mpsc.channel 32 c in
      let dropped = mpsc.drop_rx id (mpsc.drop_tx id c') in
      if l.verify_certifacate && not valid
      then (err bad_certificate, l, dropped)
      else elim (find server_name l.subscribers) [
        | some i ↦ (err already_subscribed, l, dropped)
        | none ↦ (
          ok (record { rx = id; sni = server_name }),
          record l { subscribers = (server_name, record { key = key; tx = id }) ∷ l.subscribers },
          c',
        )
      ]

  -- The match on the error of `try_send`.
  unfoldable pub after_send : ℕ → ℕ → ListenerState → Sent × C → Dispatched × ListenerState × C
  after_send server_name tx l (closed, c) =
      (tried closed, record l { subscribers = erase server_name l.subscribers }, mpsc.drop_tx tx c)
  after_send server_name tx l (s, c) = (tried s, l, c)

  -- The task of a connection, after its handshake.
  unfoldable pub dispatch : ℕ → ℕ → ListenerState → C → Dispatched × ListenerState × C
  unfolding after_send
  dispatch server_name conn l c = elim (find server_name l.subscribers) [
    | none ↦ (no_subscriber, l, c)
    | some i ↦ after_send server_name i.tx l (mpsc.try_send i.tx conn c)
  ]

  -- `Drop for Subscription`, up to the drop of its fields.
  unfoldable pub forget : ℕ → Option ListenerState → C → Option ListenerState × C
  forget sni none c = (none, c)
  forget sni (some l) c = elim (find sni l.subscribers) [
    | none ↦ (some l, c)
    | some i ↦ (some (record l { subscribers = erase sni l.subscribers }), mpsc.drop_tx i.tx c)
  ]

  unfoldable pub drop_subscription :
      Subscription → Option ListenerState → C → Option ListenerState × C
  unfolding forget
  drop_subscription s listener c =
      let (listener', c') = forget s.sni listener c in (listener', mpsc.drop_rx s.rx c')

  -- The drop of the listener's state, with the senders in it.
  unfoldable pub drop_all : List (ℕ × SubscribeInfo) → C → C
  drop_all [] c = c
  drop_all ((name, i) ∷ m) c = drop_all m (mpsc.drop_tx i.tx c)

-- The listener, if it is not dropped, the subscriptions that live, and the number of tasks that hold a
-- permit.
pub record Machine (C : Type 0) : Type 0 where
  pub listener : Option ListenerState
  pub subs : List Subscription
  pub channels : C
  pub in_flight : ℕ

-- Permits of the semaphore.
abbrev pub max_permits : ℕ
max_permits = 1024

abbrev pub after :
    Subscription
    → Option (Subscription × List Subscription)
    → Option (Subscription × List Subscription)
after s none = none
after s (some (t, rest)) = some (t, s ∷ rest)

abbrev pub take_at : ℕ → List Subscription → Option (Subscription × List Subscription)
take_at i [] = none
take_at zero (s ∷ subs) = some (s, subs)
take_at (suc i) (s ∷ subs) = after s (take_at i subs)

-- What happens to a listener: calls of its methods; a TCP connection; the end of a handshake, with the
-- name and the connection if it succeeds; the use and the drop of the subscription at a position; and
-- the drop of the listener's last reference. A handshake may end here also where no task is in flight.
pub data Event : Type 0 where
  updates subscribes : Bool → ℕ → ℕ → Event
  connects fails : Event
  dispatches : ℕ → ℕ → Event
  nexts drops : ℕ → Event
  shuts_down : Event

module _ {C : Type 0} (mpsc : Channel C) where
  -- The machine with a live listener.
  abbrev pub subscribed :
      Machine C → Result ListenerError Subscription × ListenerState × C → Machine C
  subscribed m (err e, l, c) = record m { listener = some l; channels = c }
  subscribed m (ok s, l, c) = record m { listener = some l; channels = c; subs = s ∷ m.subs }

  unfoldable pub on_live : Event → ListenerState → Machine C → Machine C
  unfolding update_key subscribe dispatch drop_all
  on_live (updates valid name key) l m = record m {
    listener = some (update_key valid name key l).1;
  }
  on_live (subscribes valid name key) l m =
      subscribed m (subscribe mpsc valid name key l m.channels)
  on_live connects l m =
      if ltb m.in_flight max_permits then record m { in_flight = m.in_flight + 1 } else m
  on_live fails l m = record m { in_flight = m.in_flight - 1 }
  on_live (dispatches name conn) l m =
      let (d, l', c) = dispatch mpsc name conn l m.channels in
      record m { listener = some l'; channels = c; in_flight = m.in_flight - 1 }
  on_live shuts_down l m =
      if m.in_flight == 0
      then record m { listener = none; channels = drop_all mpsc l.subscribers m.channels }
      else m
  on_live e l m = m

  abbrev pub used : Machine C → Option (Subscription × List Subscription) → Machine C
  used m none = m
  used m (some (s, rest)) = record m { channels = mpsc.recv s.rx m.channels }

  unfoldable pub dropped : Machine C → Option (Subscription × List Subscription) → Machine C
  unfolding drop_subscription
  dropped m none = m
  dropped m (some (s, rest)) =
      let (listener, c) = drop_subscription mpsc s m.listener m.channels in
      record m { listener = listener; channels = c; subs = rest }

  -- What needs no listener.
  unfoldable pub on_subs : Event → Machine C → Machine C
  unfolding dropped on_live
  on_subs (nexts i) m = used m (take_at i m.subs)
  on_subs (drops i) m = dropped m (take_at i m.subs)
  on_subs e m = elim m.listener [ none ↦ m | some l ↦ on_live e l m ]

  unfoldable pub run : List Event → Machine C → Machine C
  unfolding on_live on_subs
  run [] m = m
  run (e ∷ es) m = run es (on_subs e m)

-- `bind`.
abbrev pub bound : {C : Type 0} → Bool → C → Machine C
bound verify_certifacate c = record {
  listener = some (record { subscribers = []; verify_certifacate = verify_certifacate });
  subs = [];
  channels = c;
  in_flight = 0;
}
