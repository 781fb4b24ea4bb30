-- ===== src/Tests/ListenerRuns.antt =====
-- The SNI listener at concrete inputs.
use wapo.Prelude.{
  ℕ, suc, ◌<◌, ◌≡◌, ◌≢◌, ◌≤◌, refl, arith, List, [], ◌∷◌, true, false, ◌==◌, ◌||◌, Bool,
  if◌then◌else◌,
}
use wapo.Prelude.Assoc.{find, replace, erase}
use wapo.Listener.{
  Machine, Channel, Sent, ListenerState, Event, run, bound, subscribe, dispatch, tried, max_permits,
}
use wapo.Listener.Mirror.{IsChannel, live}
use wapo.Listener.Operations.{delivered, answer}
use wapo.Listener.Delivery.{run-delivers}

-- Channels that are never full: the number of those made, and the receivers that live.
pub record Channels : Type 0 where
  pub made : ℕ
  pub alive : List ℕ

abbrev pub contains : ℕ → List ℕ → Bool
contains x [] = false
contains x (y ∷ ys) = y == x || contains x ys

abbrev pub without : ℕ → List ℕ → List ℕ
without x [] = []
without x (y ∷ ys) = if y == x then without x ys else y ∷ without x ys

abbrev pub unbounded : Channel Channels
unbounded = record {
  channel = λ n c. (c.made, record { made = suc c.made; alive = c.made ∷ c.alive });
  try_send = λ x n c. ((if contains x c.alive then Sent.sent else Sent.closed), c);
  recv = λ x c. c;
  drop_tx = λ x c. c;
  drop_rx = λ x c. record c { alive = without x c.alive };
}

abbrev Open : ℕ → Channels → Type 0
Open x c = (x < c.made) × (contains x c.alive ≡ true)

contains-without :
    (x y : ℕ) (l : List ℕ) → x ≢ y → contains x l ≡ true → contains x (without y l) ≡ true
contains-without x y [] d h = cc
contains-without x y (z ∷ l) d h = ground (arith, d, contains-without x y l d)

unbounded-IsChannel : IsChannel unbounded Open
unbounded-IsChannel = record {
  fresh = λ n x c o. omega (arith, o.0);
  opens = λ n c. (omega arith, ground arith);
  channel = λ n x c o. (omega (arith, o.0), ground (arith, o.1));
  not_closed = λ x n c o. ground (arith, o.1);
  try_send = λ x y n c o. o;
  recv = λ x y c o. o;
  drop_tx = λ x y c o. o;
  drop_rx = λ x y c d o. (o.0, contains-without x y c.alive d o.1);
}

abbrev pub no_channels : Channels
no_channels = record { made = 0; alive = [] }

-- Two subscriptions, of which the older one is dropped and its name taken again, and a connection.
abbrev history : List Event
history =
    Event.subscribes true 7 1
    ∷ Event.subscribes true 8 2
    ∷ Event.connects
    ∷ Event.drops 1
    ∷ Event.subscribes true 7 3
    ∷ Event.dispatches 7 40
    ∷ []

abbrev listener : ListenerState
listener = record {
  subscribers = (7, record { key = 3; tx = 2 }) ∷ (8, record { key = 2; tx = 1 }) ∷ [];
  verify_certifacate = true;
}

run-delivers_example :
    let m : Machine Channels = run unbounded history (bound true no_channels) in
    (dispatch unbounded 7 5 listener m.channels
      ≡ delivered unbounded (live 7 m.subs) 5 listener m.channels)
    × ((subscribe unbounded true 7 4 listener m.channels).0 ≡ answer false 7 m.subs 3)
    × ((dispatch unbounded 7 5 listener m.channels).0 ≢ tried Sent.closed)
    × (m.in_flight ≤ max_permits)
unfolding run find erase replace
run-delivers_example =
    run-delivers unbounded Open unbounded-IsChannel history true true no_channels listener 7 4 5
      refl
