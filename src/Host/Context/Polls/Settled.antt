-- ===== src/Host/Context/Polls/Settled.antt =====
-- Between ocalls only tokio holds wakers: what the ocalls of wapo-host/src/runtime/vm_context.rs that
-- poll do to the accounts.
use wapo.Prelude.{ℕ, Option, none, some, length, Bool, true, false}
use wapo.Prelude.Result.{ok, err}
use wapo.Env.{OcallResult, OcallError}
use wapo.Host.Wakers.{from_id, Poll, pending, ready}
use wapo.Host.Wakers.Counted.{Counted, bump, Walks, from_id-Counted}
use wapo.Host.Resources.{Resource, get_mut}
use wapo.Host.Resources.Poll.{Tokio, PollState, poll_in}
use wapo.Host.Resources.Poll.Counts.{IsTokio, Accounted, UsesUp, polled, discard-Accounted}
use wapo.Host.Context.{push_resource, charge}
use wapo.Host.Context.Polls.{
  Machine, store_of, enter, with_ctx, poll_found, polling, push_polled, push_accepted, accept,
  accepted_tcp, accepted_sni,
}
use wapo.Host.Context.Polls.Events.{Event, acts}

module _ {W : Type 0} (held : W → ℕ → ℕ) where
  -- Only tokio holds wakers; `sum` as in `Counted`.
  abbrev pub Settled : (ℕ → ℕ) → Machine W → Type 0
  Settled sum m = Counted (λ x. 0) (held m.io) sum (store_of m)

  abbrev pub IsLawful : Event W → Type 0
  IsLawful (acts f) = (w : W) → Walks (f w).0 (held w) (held (f w).1)
  IsLawful e = Unit {0}

  pub push_polled-Settled :
      (sum : ℕ → ℕ) (r : OcallResult Resource × Machine W)
      → Settled sum r.1
      → Settled sum (push_polled r).1
  unfolding push_polled push_resource
  push_polled-Settled sum (ok r, m) c = c
  push_polled-Settled sum (err e, m) c = c

  pub push_accepted-Settled :
      (sum : ℕ → ℕ) (r : OcallResult (Resource × ℕ) × Machine W)
      → Settled sum r.1
      → Settled sum (push_accepted r).1
  unfolding push_accepted push_resource
  push_accepted-Settled sum (ok r, m) c = c
  push_accepted-Settled sum (err e, m) c = c

  accepted_tcp-Accounted :
      (sum own : ℕ → ℕ) (has_tls : Bool) (r : Poll (Option (ℕ × ℕ)) × PollState W)
      → Accounted held sum own r.1
      → Accounted held sum own (accepted_tcp has_tls r).1
  unfolding accepted_tcp
  accepted_tcp-Accounted sum own b (pending, e) c = c
  accepted_tcp-Accounted sum own b (ready none, e) c = c
  accepted_tcp-Accounted sum own true (ready (some a), e) c = c
  accepted_tcp-Accounted sum own false (ready (some a), e) c = c

  accepted_sni-Accounted :
      (sum own : ℕ → ℕ) (r : Poll (Option (ℕ × ℕ)) × PollState W)
      → Accounted held sum own r.1
      → Accounted held sum own (accepted_sni r).1
  unfolding accepted_sni
  accepted_sni-Accounted sum own (pending, e) c = c
  accepted_sni-Accounted sum own (ready none, e) c = c
  accepted_sni-Accounted sum own (ready (some a), e) c = c

  module _ (tokio : Tokio W) (law : IsTokio tokio held) (sum : ℕ → ℕ) where
    poll_found-UsesUp :
        {B : Type 0} (fails : OcallError → B) (f : ℕ → Resource → PollState W → B × PollState W)
        (own : ℕ → ℕ)
        → UsesUp tokio held law own sum f
        → (r : OcallResult Resource) (p : ℕ) (e : PollState W) → Accounted held sum (bump p own) e
        → Accounted held sum own (poll_found fails f p r e).1
    unfolding poll_found
    poll_found-UsesUp fails f own h (ok r) p e c = h p r e c
    poll_found-UsesUp fails f own h (err x) p e c = discard-Accounted held sum own p e c

    pub accept-UsesUp : (own : ℕ → ℕ) → UsesUp tokio held law own sum (accept tokio)
    unfolding accept
    accept-UsesUp own p (Resource.tcp_listener l) e c =
        accepted_tcp-Accounted sum own (tokio.has_tls_config l) (poll_in p (tokio.poll_accept l) e)
          (polled tokio held law own sum (tokio.poll_accept l) p e (law.poll_accept l) c)
    accept-UsesUp own p (Resource.sni_subscription s) e c =
        accepted_sni-Accounted sum own (poll_in p (tokio.next_connection s) e)
          (polled tokio held law own sum (tokio.next_connection s) p e (law.next_connection s) c)
    accept-UsesUp own p r e c = discard-Accounted held sum own p e c

  module _ (tokio : Tokio W) (law : IsTokio tokio held) (sum : ℕ → ℕ) where
    pub polling-Settled :
        {B : Type 0} (gas : ℕ) (fails : OcallError → B)
        (f : ℕ → Resource → PollState W → B × PollState W) (id r : ℕ) (m : Machine W)
        → UsesUp tokio held law (λ x. 0) (bump id sum) f
        → Settled sum m
        → Settled (bump id sum) (polling gas fails f id r m).1
    unfolding polling charge
    polling-Settled gas fails f id r m h c =
        let m' = with_ctx m (charge gas m.ctx) in
        let e = record (enter m') { store = from_id id (store_of m') } in
        poll_found-UsesUp tokio law (bump id sum) fails f (λ x. 0) h (get_mut r m.ctx.resources)
          (length m.guests) e (from_id-Counted (store_of m') id c)
