-- ===== src/Tests/PollRuns.antt =====
-- The ocalls that poll, at concrete inputs.
use wapo.Prelude.{ℕ, ◌+◌, ◌==◌, ◌≡◌, ltb, refl, arith, List, [], ◌∷◌, ◌++◌, none, some, false}
use wapo.Metrics.{default_meter}
use wapo.Host.Resources
use wapo.Host.Resources.Poll
use wapo.Host.Wakers
use wapo.Host.Resources.Poll.{Tokio, Attempt, would_block}
use wapo.Host.Resources.Poll.Counts.{IsTokio}
use wapo.Host.Wakers.{Polls, pending, Use}
use wapo.Host.Wakers.Arcs.{one_if}
use wapo.Host.Wakers.Counted.{Walks, bump, drops}
use wapo.Host.Context.Polls.{Machine}
use wapo.Host.Context.Polls.Events
use wapo.Host.Context.Polls.Events.{Event, run, times}
use wapo.Host.Context.Polls.Settled.{IsLawful}
use wapo.Host.Context.Polls.Drops.{run-drops}
use wapo.Guest.Wakers.{intern_waker}
use wapo.Guest.Io.{Guest, sleep_millis}
use wapo.Guest.Io.Sleep.{sleep_millis-keeps}
use wapo.Boundary.Polls.{Future, Registers, poll_future, poll_future-Registers}

-- Objects that are never ready, and keep a clone of each waker that they are given.
abbrev wait : {A : Type 0} → Polls (List ℕ) A
wait d w = (pending, Use.clone d ∷ [], d ∷ w)

abbrev blocked : {A : Type 0} → List ℕ → Attempt A × List ℕ
blocked w = (would_block, w)

abbrev idle : Tokio (List ℕ)
idle = record {
  recv = λ rx. wait;
  sleep = λ s. wait;
  tcp_connect = λ f. wait;
  tls_connect = λ f. wait;
  try_read = λ s n. blocked;
  poll_read_ready = λ s. wait;
  try_write = λ s b. blocked;
  poll_write_ready = λ s. wait;
  poll_read = λ s n. wait;
  poll_write = λ s b. wait;
  poll_shutdown = λ s. wait;
  poll_accept = λ l. wait;
  next_connection = λ s. wait;
  has_tls_config = λ l. false;
}

-- How many clones of a waker they keep.
abbrev kept : List ℕ → ℕ → ℕ
kept [] x = 0
kept (d ∷ w) x = one_if (d == x) + kept w x

stays : (d : ℕ) (w : List ℕ) → Walks (Use.clone d ∷ []) (bump d (kept w)) (bump d (kept (d ∷ w)))
stays d w = (ground arith, λ x. omega arith)

idle-IsTokio : IsTokio idle kept
idle-IsTokio = record {
  recv = λ rx. stays;
  sleep = λ s. stays;
  tcp_connect = λ f. stays;
  tls_connect = λ f. stays;
  try_read = λ s n w x. refl;
  poll_read_ready = λ s. stays;
  try_write = λ s b w x. refl;
  poll_write_ready = λ s. stays;
  poll_read = λ s n. stays;
  poll_write = λ s b. stays;
  poll_shutdown = λ s. stays;
  poll_accept = λ l. stays;
  next_connection = λ s. stays;
}

-- They let the latest waker go.
abbrev lets_go : List ℕ → List Use × List ℕ
lets_go [] = ([], [])
lets_go (d ∷ w) = (Use.wake d ∷ [], w)

abbrev machine : Machine (List ℕ)
machine = record {
  ctx = record {
    resources = some (Resources.tcp_stream 3) ∷ [];
    temp_return_value = none;
    ocall_trace_enabled = false;
    query_tx = none;
    http_connect_tx = none;
    tasks = record { awake_tasks = []; awake_wakers = [] };
    weight = 1;
    meter = default_meter 0;
  };
  guests = [];
  relays = [];
  this_task = 0;
  io = [];
}

abbrev history : List (Event (List ℕ))
history =
    Events.reads 2 8 5 0
    ∷ Events.polls 6 9
    ∷ Events.takes
    ∷ Events.acts lets_go
    ∷ Events.writes 2 (1 ∷ []) 7 0
    ∷ Events.acts lets_go
    ∷ []

lets_go-IsLawful : IsLawful kept (Events.acts lets_go)
lets_go-IsLawful [] = λ x. refl
lets_go-IsLawful (d ∷ w) = (ground arith, λ x. omega arith)

run-drops_example :
    drops 5 ((run idle history machine).0 ++ (run idle history machine).1.ctx.tasks.awake_wakers)
    ≡ times 5 history
unfolding run Resources.get_mut Poll.poll_write Poll.poll_read Wakers.get_task_cx
run-drops_example =
    run-drops kept idle idle-IsTokio history machine
      (tt, (tt, (tt, (lets_go-IsLawful, (tt, (lets_go-IsLawful, tt)))))) refl refl refl (λ x. refl)
      (λ x. refl) 5

-- A new instance, with a waker in its guest.
abbrev guest : Guest (Machine (List ℕ))
guest = record { wakers = record { wakers = some 8 ∷ []; cached = [] }; host = machine }

abbrev writing : Future
writing = Future.stream_writes 0 (4 ∷ 5 ∷ [])

poll_future-Registers_example :
    Registers kept 9 1 guest (poll_future idle 2 some (λ msg. none) writing 9 guest)
unfolding intern_waker
poll_future-Registers_example =
    poll_future-Registers kept idle idle-IsTokio 2 some (λ msg. none) writing 9 1
      (record { wakers = some 8 ∷ some 9 ∷ []; cached = [] }) guest
      (record { vacant = tt; distinct = tt })
      (record { guests = λ x. refl; relays = λ x. refl; total = λ k. refl }) refl

sleep_millis-keeps_example :
    (sleep_millis 0x1_0000_0005 == 0x1_0000_0005) ≡ ltb 0x1_0000_0005 0x8000_0000
sleep_millis-keeps_example = sleep_millis-keeps 0x1_0000_0005 (omega arith)
