-- ===== src/Host/Context/Polls.antt =====
-- wapo-host/src/runtime/vm_context.rs: the ocalls that poll, and `tcp_accept`. `rounds` bounds the loops
-- of `poll_read` and `poll_write`; where they are over, `poll_read` and `poll_write` answer `none`.
pub mod Events
pub mod Settled
pub mod Drops
use wapo.Prelude.{ℕ, List, Option, none, some, Bool, length, if◌then◌else◌}
use wapo.Prelude.Result.{ok, err}
use wapo.Metrics.{record_net_ingress, record_net_egress}
use wapo.Env.{OcallResult, OcallError}
use wapo.Host.Wakers.{Store, WakerData, Poll, pending, ready, from_id}
use wapo.Host.Wakers.Arcs.{Arc}
use wapo.Host.Resources.{Resource, get_mut}
use wapo.Host.Resources.Poll
use wapo.Host.Resources.Poll.{Tokio, PollState, poll_in, discard, counted}
use wapo.Host.Context.{WapoCtx, charge, push_resource}

-- An instance, the wakers that its polls have made, and the objects of tokio.
pub record Machine (W : Type 0) : Type 0 where
  pub ctx : WapoCtx
  pub guests : List (Arc ℕ)
  pub relays : List (Arc WakerData)
  pub this_task : ℕ
  pub io : W

-- An error of `poll_read` and `poll_write`.
abbrev pub failed_read : {A : Type 0} → OcallError → Option (OcallResult A)
failed_read x = some (err x)

module _ {W : Type 0} where
  abbrev pub store_of : Machine W → Store
  store_of m = record {
    guests = m.guests;
    relays = m.relays;
    tasks = m.ctx.tasks;
    this_task = m.this_task;
  }

  abbrev pub enter : Machine W → PollState W
  enter m = record { store = store_of m; meter = m.ctx.meter; io = m.io }

  abbrev pub leave : Machine W → PollState W → Machine W
  leave m e = record {
    ctx = record m.ctx { tasks = e.store.tasks; meter = e.meter };
    guests = e.store.guests;
    relays = e.store.relays;
    this_task = e.store.this_task;
    io = e.io;
  }

  abbrev pub with_ctx : Machine W → WapoCtx → Machine W
  with_ctx m c = record m { ctx = c }

  -- `self.resources.get_mut(resource_id)?`, and the poll of what it finds; the context is dropped if
  -- it finds nothing.
  unfoldable pub poll_found :
      {B : Type 0}
      → (OcallError → B)
      → (ℕ → Resource → PollState W → B × PollState W)
      → ℕ
      → OcallResult Resource
      → PollState W
      → B × PollState W
  poll_found fails f p (err x) e = (fails x, discard p e)
  poll_found fails f p (ok r) e = f p r e

  -- An ocall that polls: the gas, `make_poll_context`, and the poll.
  unfoldable pub polling :
      {B : Type 0}
      → ℕ
      → (OcallError → B)
      → (ℕ → Resource → PollState W → B × PollState W)
      → ℕ
      → ℕ
      → Machine W
      → B × Machine W
  unfolding charge from_id poll_found
  polling gas fails f waker_id resource_id m =
      let m' = with_ctx m (charge gas m.ctx) in
      let e = enter m' in
      let e' = record e { store = from_id waker_id e.store } in
      let (b, e'') =
        poll_found fails f (length m'.guests) (get_mut resource_id m'.ctx.resources) e' in
      (b, leave m' e'')

  -- `?`, and the push of a new resource.
  unfoldable pub push_polled : OcallResult Resource × Machine W → OcallResult ℕ × Machine W
  unfolding push_resource
  push_polled (err x, m) = (err x, m)
  push_polled (ok r, m) = let (id, c) = push_resource r m.ctx in (id, with_ctx m c)

  unfoldable pub push_accepted :
      OcallResult (Resource × ℕ) × Machine W → OcallResult (ℕ × ℕ) × Machine W
  unfolding push_resource
  push_accepted (err x, m) = (err x, m)
  push_accepted (ok (r, addr), m) =
      let (id, c) = push_resource r m.ctx in
      (elim id [ err x ↦ err x | ok i ↦ ok (i, addr) ], with_ctx m c)

  -- The handshake that a TLS listener counts.
  abbrev pub counted_handshake : PollState W → PollState W
  counted_handshake e = counted (record_net_egress 1024) (counted (record_net_ingress 1024) e)

  unfoldable pub accepted_tcp :
      Bool → Poll (Option (ℕ × ℕ)) × PollState W → OcallResult (Resource × ℕ) × PollState W
  accepted_tcp has_tls (pending, e) = (err OcallError.pending, e)
  accepted_tcp has_tls (ready none, e) = (err OcallError.io_error, e)
  accepted_tcp has_tls (ready (some (stream, addr)), e) =
      let e' = counted (record_net_ingress 128) e in
      if has_tls
      then (ok (Resource.tls_stream stream, addr), counted_handshake e')
      else (ok (Resource.tcp_stream stream, addr), e')

  unfoldable pub accepted_sni :
      Poll (Option (ℕ × ℕ)) × PollState W → OcallResult (Resource × ℕ) × PollState W
  accepted_sni (pending, e) = (err OcallError.pending, e)
  accepted_sni (ready none, e) = (err OcallError.end_of_file, e)
  accepted_sni (ready (some (stream, addr)), e) =
      (ok (Resource.tls_stream stream, addr), counted_handshake e)

module _ {W : Type 0} (tokio : Tokio W) where
  -- The match of `tcp_accept` on the resource.
  unfoldable pub accept : ℕ → Resource → PollState W → OcallResult (Resource × ℕ) × PollState W
  unfolding poll_in accepted_tcp accepted_sni
  accept p (Resource.tcp_listener l) e =
      accepted_tcp (tokio.has_tls_config l) (poll_in p (tokio.poll_accept l) e)
  accept p (Resource.sni_subscription s) e = accepted_sni (poll_in p (tokio.next_connection s) e)
  accept p r e = (err OcallError.unsupported_operation, discard p e)

  unfoldable pub poll : ℕ → ℕ → Machine W → OcallResult (List ℕ) × Machine W
  unfolding polling
  poll = polling 200 err (Poll.poll tokio)

  unfoldable pub poll_read :
      ℕ → ℕ → ℕ → ℕ → Machine W → Option (OcallResult (ℕ × List ℕ)) × Machine W
  unfolding polling
  poll_read rounds len = polling 200 failed_read (Poll.poll_read tokio rounds len)

  unfoldable pub poll_write : ℕ → List ℕ → ℕ → ℕ → Machine W → Option (OcallResult ℕ) × Machine W
  unfolding polling
  poll_write rounds buf = polling 200 failed_read (Poll.poll_write tokio rounds buf)

  unfoldable pub poll_shutdown : ℕ → ℕ → Machine W → OcallResult (Unit {0}) × Machine W
  unfolding polling
  poll_shutdown = polling 200 err (Poll.poll_shutdown tokio)

  unfoldable pub poll_res : ℕ → ℕ → Machine W → OcallResult ℕ × Machine W
  unfolding polling push_polled
  poll_res waker_id resource_id m =
      push_polled (polling 200 err (Poll.poll_res tokio) waker_id resource_id m)

  unfoldable pub tcp_accept : ℕ → ℕ → Machine W → OcallResult (ℕ × ℕ) × Machine W
  unfolding polling accept push_accepted
  tcp_accept waker_id tcp_res_id m = push_accepted (polling 1000 err accept waker_id tcp_res_id m)

  unfoldable pub tcp_accept_no_addr : ℕ → ℕ → Machine W → OcallResult ℕ × Machine W
  unfolding tcp_accept
  tcp_accept_no_addr waker_id resource_id m =
      let (r, m') = tcp_accept waker_id resource_id m in
      (elim r [ err x ↦ err x | ok a ↦ ok a.0 ], m')
