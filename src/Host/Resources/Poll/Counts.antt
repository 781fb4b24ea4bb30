-- ===== src/Host/Resources/Poll/Counts.antt =====
-- The polls of wapo-host/src/runtime/resource.rs keep the accounts of the wakers: whatever a poll finds,
-- and however often its loop runs, it uses up the guest waker of its context, and no other.
use wapo.Prelude.{ℕ, zero, suc, ◌<◌, ◌≡◌, List, Option, none, some, Bool, true, false, arith}
use wapo.Prelude.Result.{ok, err}
use wapo.Metrics.{Meter}
use wapo.Env.{OcallResult}
use wapo.Host.Wakers.{Poll, pending, ready, Polls}
use wapo.Host.Wakers.Counted.{
  Counted, bump, Behaves, get_task_cx-Counted, drop_guest-Counted, clone_guest-Counted, held_as,
}
use wapo.Host.Resources.{Resource}
use wapo.Host.Resources.Poll.{
  Tokio, PollState, Attempt, done, would_block, failed, poll_in, clone_ctx, discard, connected,
  read_done, write_done, shutdown_done, Stream, tcp, tls, duplex, after_ready, after_attempt, retry,
  after_retry, poll, poll_res, poll_read, poll_write, poll_shutdown,
}

-- What is relied on of tokio's objects, which hold `held w d` clones of the relay waker `d`: they use
-- wakers that they hold or are given, and none without a poll.
pub record IsTokio {W : Type 0} (tokio : Tokio W) (held : W → ℕ → ℕ) : Type 0 where
  pub recv : (rx : ℕ) → Behaves held (tokio.recv rx)
  pub sleep : (s : ℕ) → Behaves held (tokio.sleep s)
  pub tcp_connect : (fut : ℕ) → Behaves held (tokio.tcp_connect fut)
  pub tls_connect : (fut : ℕ) → Behaves held (tokio.tls_connect fut)
  pub try_read : (s n : ℕ) (w : W) (x : ℕ) → held w x ≡ held (tokio.try_read s n w).1 x
  pub poll_read_ready : (s : ℕ) → Behaves held (tokio.poll_read_ready s)
  pub try_write : (s : ℕ) (b : List ℕ) (w : W) (x : ℕ) → held w x ≡ held (tokio.try_write s b w).1 x
  pub poll_write_ready : (s : ℕ) → Behaves held (tokio.poll_write_ready s)
  pub poll_read : (s : _) (n : ℕ) → Behaves held (tokio.poll_read s n)
  pub poll_write : (s : _) (b : List ℕ) → Behaves held (tokio.poll_write s b)
  pub poll_shutdown : (s : _) → Behaves held (tokio.poll_shutdown s)
  pub poll_accept : (l : ℕ) → Behaves held (tokio.poll_accept l)
  pub next_connection : (s : ℕ) → Behaves held (tokio.next_connection s)

module _ {W : Type 0} (held : W → ℕ → ℕ) (sum : ℕ → ℕ) where
  -- The accounts of a poll, with `own` clones of guest wakers in its hands.
  abbrev pub Accounted : (ℕ → ℕ) → PollState W → Type 0
  Accounted own e = Counted own (held e.io) sum e.store

  module _ (own : ℕ → ℕ) (p : ℕ) where
    pub discard-Accounted :
        (e : PollState W) → Accounted (bump p own) e → Accounted own (discard p e)
    discard-Accounted e c = drop_guest-Counted e.store p c

    pub poll_in-Accounted :
        {A : Type 0} (f : Polls W A) (e : PollState W)
        → Behaves held f
        → Accounted (bump p own) e
        → Accounted own (poll_in p f e).1
    unfolding poll_in
    poll_in-Accounted f e behaves c = get_task_cx-Counted held own sum p f behaves e.store e.io c

  module _ (own : ℕ → ℕ) (p : ℕ) {A : Type 0} (attempt : W → Attempt A × W)
      (poll_ready : Polls W Bool) (quiet : (w : W) (x : ℕ) → held w x ≡ held (attempt w).1 x)
      (behaves : Behaves held poll_ready) where
    after_ready-Accounted :
        (again : PollState W → Option (OcallResult A) × PollState W)
        → ((e : PollState W) → Accounted (bump p own) e → Accounted (bump p own) (again e).1)
        → (r : Poll Bool × PollState W) → Accounted (bump p own) r.1
        → Accounted (bump p own) (after_ready again r).1
    unfolding after_ready
    after_ready-Accounted again h (pending, e) c = c
    after_ready-Accounted again h (ready false, e) c = c
    after_ready-Accounted again h (ready true, e) c = h e c

    after_attempt-Accounted :
        (wait : PollState W → Option (OcallResult A) × PollState W)
        → ((e : PollState W) → Accounted (bump p own) e → Accounted (bump p own) (wait e).1)
        → (a : Attempt A) (e : PollState W) → Accounted (bump p own) e
        → Accounted (bump p own) (after_attempt wait a e).1
    unfolding after_attempt
    after_attempt-Accounted wait h (done x) e c = c
    after_attempt-Accounted wait h failed e c = c
    after_attempt-Accounted wait h would_block e c = h e c

    retry-Accounted :
        (rounds : ℕ) (e : PollState W)
        → Accounted (bump p own) e
        → Accounted (bump p own) (retry rounds attempt poll_ready p e).1
    unfolding retry
    retry-Accounted zero e c = c
    retry-Accounted (suc rounds) e c =
        let again = retry rounds attempt poll_ready p in
        let polled = λ (e' : PollState W). poll_in p poll_ready (clone_ctx p e') in
        let mine : 0 < bump p own p = ground arith in
        after_attempt-Accounted (λ e'. after_ready again (polled e'))
          (λ e' c'.
            after_ready-Accounted again (λ e₂ c₂. retry-Accounted rounds e₂ c₂) (polled e')
              (poll_in-Accounted (bump p own) p poll_ready (clone_ctx p e') behaves
                (clone_guest-Counted e'.store p mine c')))
          (attempt e.io).0 (record e { io = (attempt e.io).1 }) (held_as e.store (quiet e.io) c)

    after_retry-Accounted :
        {B : Type 0} (f : A → B) (record_net : A → Meter → Meter)
        (r : Option (OcallResult A) × PollState W)
        → Accounted (bump p own) r.1
        → Accounted own (after_retry f record_net p r).1
    after_retry-Accounted f n (none, e) c = discard-Accounted own p e c
    after_retry-Accounted f n (some (err x), e) c = discard-Accounted own p e c
    after_retry-Accounted f n (some (ok a), e) c = drop_guest-Counted e.store p c

-- What is made of an answer leaves the accounts alone.
module _ {W : Type 0} (held : W → ℕ → ℕ) (sum own : ℕ → ℕ) where
  connected-Accounted :
      (stream : ℕ → Resource) (f : Meter → Meter) (r : Poll (Option ℕ) × PollState W)
      → Accounted held sum own r.1
      → Accounted held sum own (connected stream f r).1
  connected-Accounted stream f (pending, e') h = h
  connected-Accounted stream f (ready none, e') h = h
  connected-Accounted stream f (ready (some s), e') h = h

  read_done-Accounted :
      (r : Poll (Option (List ℕ)) × PollState W)
      → Accounted held sum own r.1
      → Accounted held sum own (read_done r).1
  read_done-Accounted (pending, e') h = h
  read_done-Accounted (ready none, e') h = h
  read_done-Accounted (ready (some s), e') h = h

  write_done-Accounted :
      (r : Poll (Option ℕ) × PollState W)
      → Accounted held sum own r.1
      → Accounted held sum own (write_done r).1
  write_done-Accounted (pending, e') h = h
  write_done-Accounted (ready none, e') h = h
  write_done-Accounted (ready (some s), e') h = h

  shutdown_done-Accounted :
      (r : Poll Bool × PollState W)
      → Accounted held sum own r.1
      → Accounted held sum own (shutdown_done r).1
  shutdown_done-Accounted (pending, e') h = h
  shutdown_done-Accounted (ready false, e') h = h
  shutdown_done-Accounted (ready true, e') h = h

module _ {W : Type 0} (tokio : Tokio W) (held : W → ℕ → ℕ) (law : IsTokio tokio held)
    (own sum : ℕ → ℕ) where
  -- A poll function uses up the guest waker that it is given.
  abbrev pub UsesUp : {A : Type 0} → (ℕ → Resource → PollState W → A × PollState W) → Type 0
  UsesUp f =
      (p : ℕ) (r : Resource) (e : PollState W)
      → Accounted held sum (bump p own) e
      → Accounted held sum own (f p r e).1

  -- A poll by tokio with the waker.
  pub polled :
      {A : Type 0} (f : Polls W A) (p : ℕ) (e : PollState W)
      → Behaves held f
      → Accounted held sum (bump p own) e
      → Accounted held sum own (poll_in p f e).1
  polled f p e = poll_in-Accounted held sum own p f e

  looped :
      {A B : Type 0} (rounds : ℕ) (attempt : W → Attempt A × W) (poll_ready : Polls W Bool)
      → ((w : W) (x : ℕ) → held w x ≡ held (attempt w).1 x)
      → Behaves held poll_ready
      → (f : A → B) (record_net : A → Meter → Meter) (p : ℕ) (e : PollState W)
      → Accounted held sum (bump p own) e
      → Accounted held sum own (after_retry f record_net p (retry rounds attempt poll_ready p e)).1
  looped rounds attempt poll_ready quiet behaves f record_net p e c =
      after_retry-Accounted held sum own p attempt poll_ready quiet behaves f record_net
        (retry rounds attempt poll_ready p e)
        (retry-Accounted held sum own p attempt poll_ready quiet behaves rounds e c)

  shut :
      (s : Stream) (p : ℕ) (e : PollState W)
      → Accounted held sum (bump p own) e
      → Accounted held sum own (shutdown_done (poll_in p (tokio.poll_shutdown s) e)).1
  shut s p e c =
      shutdown_done-Accounted held sum own (poll_in p (tokio.poll_shutdown s) e)
        (polled (tokio.poll_shutdown s) p e (law.poll_shutdown s) c)

  pub poll-UsesUp : UsesUp (poll tokio)
  unfolding poll
  poll-UsesUp p (Resource.channel_rx rx) e c = polled (tokio.recv rx) p e (law.recv rx) c
  poll-UsesUp p r e c = discard-Accounted held sum own p e c

  pub poll_res-UsesUp : UsesUp (poll_res tokio)
  unfolding poll_res
  poll_res-UsesUp p (Resource.tcp_connect fut) e c =
      connected-Accounted held sum own _ _ (poll_in p (tokio.tcp_connect fut) e)
        (polled (tokio.tcp_connect fut) p e (law.tcp_connect fut) c)
  poll_res-UsesUp p (Resource.tls_connect fut) e c =
      connected-Accounted held sum own _ _ (poll_in p (tokio.tls_connect fut) e)
        (polled (tokio.tls_connect fut) p e (law.tls_connect fut) c)
  poll_res-UsesUp p r e c = discard-Accounted held sum own p e c

  pub poll_read-UsesUp : (rounds len : ℕ) → UsesUp (poll_read tokio rounds len)
  unfolding poll_read
  poll_read-UsesUp rounds len p (Resource.sleep s) e c = polled (tokio.sleep s) p e (law.sleep s) c
  poll_read-UsesUp rounds len p (Resource.tcp_stream s) e c =
      looped rounds (tokio.try_read s len) (tokio.poll_read_ready s) (law.try_read s len)
        (law.poll_read_ready s) _ _ p e c
  poll_read-UsesUp rounds len p (Resource.tls_stream s) e c =
      read_done-Accounted held sum own (poll_in p (tokio.poll_read (tls s) len) e)
        (polled (tokio.poll_read (tls s) len) p e (law.poll_read (tls s) len) c)
  poll_read-UsesUp rounds len p (Resource.duplex_stream s) e c =
      read_done-Accounted held sum own (poll_in p (tokio.poll_read (duplex s) len) e)
        (polled (tokio.poll_read (duplex s) len) p e (law.poll_read (duplex s) len) c)
  poll_read-UsesUp rounds len p r e c = discard-Accounted held sum own p e c

  pub poll_write-UsesUp : (rounds : ℕ) (buf : List ℕ) → UsesUp (poll_write tokio rounds buf)
  unfolding poll_write
  poll_write-UsesUp rounds buf p (Resource.tcp_stream s) e c =
      looped rounds (tokio.try_write s buf) (tokio.poll_write_ready s) (law.try_write s buf)
        (law.poll_write_ready s) _ _ p e c
  poll_write-UsesUp rounds buf p (Resource.tls_stream s) e c =
      write_done-Accounted held sum own (poll_in p (tokio.poll_write (tls s) buf) e)
        (polled (tokio.poll_write (tls s) buf) p e (law.poll_write (tls s) buf) c)
  poll_write-UsesUp rounds buf p (Resource.duplex_stream s) e c =
      write_done-Accounted held sum own (poll_in p (tokio.poll_write (duplex s) buf) e)
        (polled (tokio.poll_write (duplex s) buf) p e (law.poll_write (duplex s) buf) c)
  poll_write-UsesUp rounds buf p r e c = discard-Accounted held sum own p e c

  pub poll_shutdown-UsesUp : UsesUp (poll_shutdown tokio)
  unfolding poll_shutdown
  poll_shutdown-UsesUp p (Resource.tcp_stream s) e c = shut (tcp s) p e c
  poll_shutdown-UsesUp p (Resource.tls_stream s) e c = shut (tls s) p e c
  poll_shutdown-UsesUp p (Resource.duplex_stream s) e c = shut (duplex s) p e c
  poll_shutdown-UsesUp p r e c = discard-Accounted held sum own p e c
