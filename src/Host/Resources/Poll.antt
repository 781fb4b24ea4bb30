-- ===== src/Host/Resources/Poll.antt =====
-- wapo-host/src/runtime/resource.rs: `Resource::poll`, `poll_res`, `poll_read`, `poll_write` and
-- `poll_shutdown`. What the objects of tokio answer is a parameter; a stream is polled by its number.
-- Each function owns the guest waker of its `PollContext`, which is at the position `p`, and drops it.
pub mod Counts
use wapo.Prelude.{
  ℕ, zero, suc, ◌%◌, List, [], Option, none, some, Bool, true, false, length, u32_mod,
}
use wapo.Prelude.Result.{ok, err}
use wapo.Metrics.{
  Meter, record_net_ingress, record_net_egress, record_tcp_connect_done, record_tls_connect_done,
  record_tcp_shutdown,
}
use wapo.Env.{OcallResult, OcallError}
use wapo.Host.Wakers.{Store, Poll, pending, ready, Polls, get_task_cx, clone_guest, drop_guest}
use wapo.Host.Resources.{Resource}

-- What an attempt without a waker answers.
pub data Attempt (A : Type 0) : Type 0 where
  done : A → Attempt A
  would_block failed : Attempt A

pub data Stream : Type 0 where
  tcp tls duplex : ℕ → Stream

-- The objects of tokio in the state `W`. In an answer `none` and `false` stand for an error, or, of
-- `recv` and `next_connection`, for the end.
pub record Tokio (W : Type 0) : Type 0 where
  pub recv : ℕ → Polls W (Option (List ℕ))
  pub sleep : ℕ → Polls W (Unit {0})
  pub tcp_connect : ℕ → Polls W (Option ℕ)
  pub tls_connect : ℕ → Polls W (Option ℕ)
  pub try_read : ℕ → ℕ → W → Attempt (List ℕ) × W
  pub poll_read_ready : ℕ → Polls W Bool
  pub try_write : ℕ → List ℕ → W → Attempt ℕ × W
  pub poll_write_ready : ℕ → Polls W Bool
  pub poll_read : Stream → ℕ → Polls W (Option (List ℕ))
  pub poll_write : Stream → List ℕ → Polls W (Option ℕ)
  pub poll_shutdown : Stream → Polls W Bool
  pub poll_accept : ℕ → Polls W (Option (ℕ × ℕ))
  pub next_connection : ℕ → Polls W (Option (ℕ × ℕ))
  -- Whether a listener has a TLS configuration.
  pub has_tls_config : ℕ → Bool

pub record PollState (W : Type 0) : Type 0 where
  pub store : Store
  pub meter : Meter
  pub io : W

abbrev pub received : Poll (Option (List ℕ)) → OcallResult (List ℕ)
received pending = err OcallError.pending
received (ready none) = err OcallError.end_of_file
received (ready (some data_)) = ok data_

-- What was read, and the number of bytes as a u32.
abbrev pub sized : List ℕ → ℕ × List ℕ
sized bytes = (length bytes % u32_mod, bytes)

abbrev pub slept : Poll (Unit {0}) → OcallResult (ℕ × List ℕ)
slept pending = err OcallError.pending
slept (ready u) = ok (0, [])

module _ {W : Type 0} where
  abbrev pub discard : ℕ → PollState W → PollState W
  discard p e = record e { store = drop_guest p e.store }

  abbrev pub clone_ctx : ℕ → PollState W → PollState W
  clone_ctx p e = record e { store = clone_guest p e.store }

  abbrev pub counted : (Meter → Meter) → PollState W → PollState W
  counted f e = record e { meter = f e.meter }

  -- `get_task_cx` and `poll_in_task_cx` in this state.
  unfoldable pub poll_in : {A : Type 0} → ℕ → Polls W A → PollState W → Poll A × PollState W
  poll_in p f e =
      let (answer, (store, io)) = get_task_cx p f (e.store, e.io) in
      (answer, record e { store = store; io = io })

  abbrev pub connected :
      (ℕ → Resource)
      → (Meter → Meter)
      → Poll (Option ℕ) × PollState W
      → OcallResult Resource × PollState W
  connected stream record_done (pending, e) = (err OcallError.pending, e)
  connected stream record_done (ready (some s), e) = (ok (stream s), counted record_done e)
  connected stream record_done (ready none, e) = (err OcallError.io_error, e)

  abbrev pub read_done :
      Poll (Option (List ℕ)) × PollState W → OcallResult (ℕ × List ℕ) × PollState W
  read_done (pending, e) = (err OcallError.pending, e)
  read_done (ready none, e) = (err OcallError.io_error, e)
  read_done (ready (some bytes), e) =
      (ok (sized bytes), counted (record_net_ingress (length bytes)) e)

  abbrev pub write_done : Poll (Option ℕ) × PollState W → OcallResult ℕ × PollState W
  write_done (pending, e) = (err OcallError.pending, e)
  write_done (ready none, e) = (err OcallError.io_error, e)
  write_done (ready (some n), e) = (ok (n % u32_mod), counted (record_net_egress n) e)

  abbrev pub shutdown_done : Poll Bool × PollState W → OcallResult (Unit {0}) × PollState W
  shutdown_done (pending, e) = (err OcallError.pending, e)
  shutdown_done (ready false, e) = (err OcallError.io_error, e)
  shutdown_done (ready true, e) = (ok tt, counted record_tcp_shutdown e)

  -- The loop after `poll_read_ready` or `poll_write_ready`.
  unfoldable pub after_ready :
      {A : Type 0}
      → (PollState W → Option (OcallResult A) × PollState W)
      → Poll Bool × PollState W
      → Option (OcallResult A) × PollState W
  after_ready again (pending, e) = (some (err OcallError.pending), e)
  after_ready again (ready false, e) = (some (err OcallError.io_error), e)
  after_ready again (ready true, e) = again e

  -- The loop after `try_read` or `try_write`.
  unfoldable pub after_attempt :
      {A : Type 0}
      → (PollState W → Option (OcallResult A) × PollState W)
      → Attempt A
      → PollState W
      → Option (OcallResult A) × PollState W
  after_attempt wait (done x) e = (some (ok x), e)
  after_attempt wait failed e = (some (err OcallError.io_error), e)
  after_attempt wait would_block e = wait e

  -- The `loop` of `poll_read` and `poll_write` on a TCP stream. `none` says that the rounds are over.
  unfoldable pub retry :
      {A : Type 0}
      → ℕ
      → (W → Attempt A × W)
      → Polls W Bool
      → ℕ
      → PollState W
      → Option (OcallResult A) × PollState W
  unfolding poll_in after_ready after_attempt
  retry zero attempt poll_ready p e = (none, e)
  retry (suc rounds) attempt poll_ready p e =
      after_attempt
        (λ e'.
          after_ready (retry rounds attempt poll_ready p) (poll_in p poll_ready (clone_ctx p e')))
        (attempt e.io).0 (record e { io = (attempt e.io).1 })

  -- What the loops do with the bytes, before the context is dropped.
  abbrev pub after_retry :
      {A B : Type 0}
      → (A → B)
      → (A → Meter → Meter)
      → ℕ
      → Option (OcallResult A) × PollState W
      → Option (OcallResult B) × PollState W
  after_retry f record_net p (none, e) = (none, discard p e)
  after_retry f record_net p (some (err x), e) = (some (err x), discard p e)
  after_retry f record_net p (some (ok a), e) =
      (some (ok (f a)), discard p (counted (record_net a) e))

  abbrev pub returns :
      {A : Type 0} → OcallResult A × PollState W → Option (OcallResult A) × PollState W
  returns (r, e) = (some r, e)

module _ {W : Type 0} (tokio : Tokio W) where
  unfoldable pub poll : ℕ → Resource → PollState W → OcallResult (List ℕ) × PollState W
  unfolding poll_in
  poll p (Resource.channel_rx rx) e = let (r, e') = poll_in p (tokio.recv rx) e in (received r, e')
  poll p r e = (err OcallError.unsupported_operation, discard p e)

  unfoldable pub poll_res : ℕ → Resource → PollState W → OcallResult Resource × PollState W
  unfolding poll_in
  poll_res p (Resource.tcp_connect fut) e =
      connected Resource.tcp_stream record_tcp_connect_done (poll_in p (tokio.tcp_connect fut) e)
  poll_res p (Resource.tls_connect fut) e =
      connected Resource.tls_stream record_tls_connect_done (poll_in p (tokio.tls_connect fut) e)
  poll_res p r e = (err OcallError.unsupported_operation, discard p e)

  -- With a buffer of `len` bytes.
  unfoldable pub poll_read :
      ℕ → ℕ → ℕ → Resource → PollState W → Option (OcallResult (ℕ × List ℕ)) × PollState W
  unfolding poll_in retry
  poll_read rounds len p (Resource.sleep handle) e =
      let (r, e') = poll_in p (tokio.sleep handle) e in (some (slept r), e')
  poll_read rounds len p (Resource.tcp_stream s) e =
      after_retry sized (λ bytes. record_net_ingress (length bytes)) p
        (retry rounds (tokio.try_read s len) (tokio.poll_read_ready s) p e)
  poll_read rounds len p (Resource.tls_stream s) e =
      returns (read_done (poll_in p (tokio.poll_read (tls s) len) e))
  poll_read rounds len p (Resource.duplex_stream s) e =
      returns (read_done (poll_in p (tokio.poll_read (duplex s) len) e))
  poll_read rounds len p r e = (some (err OcallError.unsupported_operation), discard p e)

  unfoldable pub poll_write :
      ℕ → List ℕ → ℕ → Resource → PollState W → Option (OcallResult ℕ) × PollState W
  unfolding poll_in retry
  poll_write rounds buf p (Resource.tcp_stream s) e =
      after_retry (λ n. n % u32_mod) record_net_egress p
        (retry rounds (tokio.try_write s buf) (tokio.poll_write_ready s) p e)
  poll_write rounds buf p (Resource.tls_stream s) e =
      returns (write_done (poll_in p (tokio.poll_write (tls s) buf) e))
  poll_write rounds buf p (Resource.duplex_stream s) e =
      returns (write_done (poll_in p (tokio.poll_write (duplex s) buf) e))
  poll_write rounds buf p r e = (some (err OcallError.unsupported_operation), discard p e)

  unfoldable pub poll_shutdown : ℕ → Resource → PollState W → OcallResult (Unit {0}) × PollState W
  unfolding poll_in
  poll_shutdown p (Resource.tcp_stream s) e =
      shutdown_done (poll_in p (tokio.poll_shutdown (tcp s)) e)
  poll_shutdown p (Resource.tls_stream s) e =
      shutdown_done (poll_in p (tokio.poll_shutdown (tls s)) e)
  poll_shutdown p (Resource.duplex_stream s) e =
      shutdown_done (poll_in p (tokio.poll_shutdown (duplex s)) e)
  poll_shutdown p r e = (err OcallError.unsupported_operation, discard p e)
