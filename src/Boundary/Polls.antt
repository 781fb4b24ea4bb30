-- ===== src/Boundary/Polls.antt =====
-- The futures of the guest (wapo/src/net.rs, channel.rs, time.rs) on top of the ocalls of the host
-- (wapo-host/src/runtime/vm_context.rs): a poll hands the waker of its task to the host.
use wapo.Prelude.{ℕ, ◌+◌, ◌==◌, ◌≡◌, refl, sym, subst, List, Option, none, some, arith}
use wapo.Env.{OcallResult}
use wapo.Prelude.Result.{ok}
use wapo.Guest.Wakers.{Wakers, intern_waker}
use wapo.Guest.Wakers.Free.{IsFree, Interned, intern_waker-Interned}
use wapo.Guest.Io.{
  Ocalls, Guest, Outcome, panics, ready, ask, into_poll, or_pending, filled, woken_up, next_message,
  poll_tcp_accept, connector_poll, tokio_read, futures_read, stream_write, stream_close, sleep_poll,
  next_poll,
}
use wapo.Host.Wakers.Arcs.{one_if}
use wapo.Host.Wakers.Counted.{known}
use wapo.Host.Resources.Poll.{Tokio}
use wapo.Host.Resources.Poll.Counts.{IsTokio}
use wapo.Host.Context.Polls
use wapo.Host.Context.Polls.{Machine, store_of}
use wapo.Host.Context.Polls.Events
use wapo.Host.Context.Polls.Events.{
  Event, polls, poll_results, shuts_down, accepts, reads, writes, step,
}
use wapo.Host.Context.Polls.Settled.{Settled}
use wapo.Host.Context.Polls.Drops.{step-Goes}

-- The futures that ask the host, with the id of their resource.
pub data Future : Type 0 where
  acceptor connector closes sleep next : ℕ → Future
  tokio_reads futures_reads : ℕ → ℕ → Future
  stream_writes : ℕ → List ℕ → Future

module _ {W : Type 0} (tokio : Tokio W) (rounds : ℕ) where
  abbrev pub answers : {A : Type 0} → OcallResult A × Machine W → Option (OcallResult A) × Machine W
  answers (r, m) = (some r, m)

  -- The ocalls of an instance.
  abbrev pub ocalls : Ocalls (Machine W)
  ocalls = record {
    poll = λ id r m. answers (Polls.poll tokio id r m);
    poll_read = λ len id r m. Polls.poll_read tokio rounds len id r m;
    poll_write = λ buf id r m. Polls.poll_write tokio rounds buf id r m;
    poll_shutdown = λ id r m. answers (Polls.poll_shutdown tokio id r m);
    poll_res = λ id r m. answers (Polls.poll_res tokio id r m);
    tcp_accept = λ id r m. answers (Polls.tcp_accept tokio id r m);
  }

  -- Guest and host after a poll of a future, for any reading of addresses and messages.
  unfoldable pub poll_future :
      (ℕ → Option ℕ) → (List ℕ → Option ℕ) → Future → ℕ → Guest (Machine W) → Guest (Machine W)
  unfolding poll_tcp_accept connector_poll tokio_read futures_read stream_write stream_close
      sleep_poll next_poll
  poll_future parse decode (acceptor r) waker s = (poll_tcp_accept ocalls parse r waker s).1
  poll_future parse decode (connector r) waker s = (connector_poll ocalls (ok r) waker s).1
  poll_future parse decode (closes r) waker s = (stream_close ocalls r waker s).1
  poll_future parse decode (sleep r) waker s = (sleep_poll ocalls r waker s).1
  poll_future parse decode (next r) waker s = (next_poll ocalls decode r waker s).1
  poll_future parse decode (tokio_reads r n) waker s = (tokio_read ocalls r n waker s).1
  poll_future parse decode (futures_reads r n) waker s = (futures_read ocalls r n waker s).1
  poll_future parse decode (stream_writes r buf) waker s = (stream_write ocalls r buf waker s).1

  -- The ocall of a future, for an id of its waker.
  abbrev ocall_of : Future → ℕ → Event W
  ocall_of (acceptor r) id = accepts id r
  ocall_of (connector r) id = poll_results id r
  ocall_of (closes r) id = shuts_down id r
  ocall_of (sleep r) id = reads rounds 0 id r
  ocall_of (next r) id = polls id r
  ocall_of (tokio_reads r n) id = reads rounds n id r
  ocall_of (futures_reads r n) id = reads rounds n id r
  ocall_of (stream_writes r buf) id = writes rounds buf id r

  ask-some :
      {A B : Type 0} (waker id : ℕ) (g : Wakers)
      (ocall : ℕ → Machine W → Option (OcallResult A) × Machine W) (f : OcallResult A → Outcome B)
      (s : Guest (Machine W))
      → intern_waker waker s.wakers ≡ some (id, g)
      → (ask waker ocall f s).1 ≡ record { wakers = g; host = (ocall id s.host).1 }
  unfolding ask
  ask-some waker id g ocall f s e = rw (ask, e) refl

  -- The waker is interned, and the host does the ocall.
  poll_future-lem :
      (parse : ℕ → Option ℕ) (decode : List ℕ → Option ℕ) (fut : Future) (waker id : ℕ) (g : Wakers)
      (s : Guest (Machine W))
      → intern_waker waker s.wakers ≡ some (id, g)
      → poll_future parse decode fut waker s
        ≡ record { wakers = g; host = (step tokio (ocall_of fut id) s.host).1 }
  unfolding poll_future step
  poll_future-lem parse decode (acceptor r) waker id g s e =
      ask-some waker id g (λ i. ocalls.tcp_accept i r)
        (or_pending (λ a. elim (parse a.1) [ none ↦ panics | some addr ↦ ready (ok (a.0, addr)) ]))
        s e
  poll_future-lem parse decode (connector r) waker id g s e =
      ask-some waker id g (λ i. ocalls.poll_res i r) (or_pending (λ i. ready (ok i))) s e
  poll_future-lem parse decode (closes r) waker id g s e =
      ask-some waker id g (λ i. ocalls.poll_shutdown i r) into_poll s e
  poll_future-lem parse decode (sleep r) waker id g s e =
      ask-some waker id g (λ i. ocalls.poll_read 0 i r) woken_up s e
  poll_future-lem parse decode (next r) waker id g s e =
      ask-some waker id g (λ i. ocalls.poll i r) (next_message decode) s e
  poll_future-lem parse decode (tokio_reads r n) waker id g s e =
      ask-some waker id g (λ i. ocalls.poll_read n i r) (filled n) s e
  poll_future-lem parse decode (futures_reads r n) waker id g s e =
      ask-some waker id g (λ i. ocalls.poll_read n i r) into_poll s e
  poll_future-lem parse decode (stream_writes r buf) waker id g s e =
      ask-some waker id g (λ i. ocalls.poll_write buf i r) into_poll s e

-- How often the guest has yet to be told to drop the waker `k`.
abbrev pub knows : {W : Type 0} → ℕ → Machine W → ℕ
knows k m = known k (store_of m)

-- What a poll of a future does to guest and host: the waker is in the table of the guest, its id was
-- passed to the host once, and the host knows exactly what it knew before and that id.
pub record Registers {W : Type 0} (held : W → ℕ → ℕ) (waker id : ℕ) (s s' : Guest (Machine W))
    : Type 0 where
  pub interned : Interned waker id s.wakers s'.wakers
  pub settled : Settled held (λ k. knows k s'.host) s'.host
  pub passed : (k : ℕ) → knows k s'.host ≡ knows k s.host + one_if (id == k)

module _ {W : Type 0} (held : W → ℕ → ℕ) (tokio : Tokio W) (law : IsTokio tokio held)
    (rounds : ℕ) where
  -- No ocall of a future tells the guest to drop a waker, and each passes its id.
  asks :
      (fut : Future) (id : ℕ) (m : Machine W)
      → Settled held (λ k. knows k m) m
      → let m' : Machine W = (step tokio (ocall_of tokio rounds fut id) m).1 in
        Settled held (λ k. knows k m') m' × ((k : ℕ) → knows k m' ≡ knows k m + one_if (id == k))
  unfolding step
  asks (acceptor r) id m c =
      let (settled, all) = step-Goes held tokio law (Events.accepts id r) m tt c in
      (settled, λ k. omega (arith, all k))
  asks (connector r) id m c =
      let (settled, all) = step-Goes held tokio law (Events.poll_results id r) m tt c in
      (settled, λ k. omega (arith, all k))
  asks (closes r) id m c =
      let (settled, all) = step-Goes held tokio law (Events.shuts_down id r) m tt c in
      (settled, λ k. omega (arith, all k))
  asks (sleep r) id m c =
      let (settled, all) = step-Goes held tokio law (Events.reads rounds 0 id r) m tt c in
      (settled, λ k. omega (arith, all k))
  asks (next r) id m c =
      let (settled, all) = step-Goes held tokio law (Events.polls id r) m tt c in
      (settled, λ k. omega (arith, all k))
  asks (tokio_reads r n) id m c =
      let (settled, all) = step-Goes held tokio law (Events.reads rounds n id r) m tt c in
      (settled, λ k. omega (arith, all k))
  asks (futures_reads r n) id m c =
      let (settled, all) = step-Goes held tokio law (Events.reads rounds n id r) m tt c in
      (settled, λ k. omega (arith, all k))
  asks (stream_writes r buf) id m c =
      let (settled, all) = step-Goes held tokio law (Events.writes rounds buf id r) m tt c in
      (settled, λ k. omega (arith, all k))

  -- If the cached ids of the guest's table are vacant and distinct, and only tokio holds wakers of the
  -- host, then a poll of a future that interns its waker under an id puts the waker into a slot that no
  -- waker used, and the others stay, and its cached ids are again vacant and distinct; the host knows
  -- that id once more and every other id as often as before, and again only tokio holds its wakers.
  pub poll_future-Registers :
      (parse : ℕ → Option ℕ) (decode : List ℕ → Option ℕ) (fut : Future) (waker id : ℕ) (g : Wakers)
      (s : Guest (Machine W))
      → IsFree s.wakers
      → Settled held (λ k. knows k s.host) s.host
      → intern_waker waker s.wakers ≡ some (id, g)
      → Registers held waker id s (poll_future tokio rounds parse decode fut waker s)
  poll_future-Registers parse decode fut waker id g s f c e =
      let (settled, passed) = asks fut id s.host c in
      subst (Registers held waker id s)
        (sym (poll_future-lem tokio rounds parse decode fut waker id g s e))
        (record {
          interned = intern_waker-Interned waker id s.wakers g f e;
          settled = settled;
          passed = passed;
        })
