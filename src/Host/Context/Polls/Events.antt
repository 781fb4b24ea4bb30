-- ===== src/Host/Context/Polls/Events.antt =====
-- Runs of an instance, as far as wakers are concerned: the ocalls of
-- wapo-host/src/runtime/vm_context.rs that poll, `awake_wakers`, and what tokio does in between.
use wapo.Prelude.{ℕ, ◌+◌, ◌==◌, List, [], ◌∷◌, ◌++◌}
use wapo.Prelude.Int.{ℤ}
use wapo.Prelude.Result.{ok, err}
use wapo.Env.{OcallResult}
use wapo.Host.Wakers.{Use, run_uses}
use wapo.Host.Wakers.Arcs.{one_if}
use wapo.Host.Resources.Poll.{Tokio}
use wapo.Host.Context.{awake_wakers}
use wapo.Host.Context.Polls.{
  Machine, store_of, with_ctx, poll, poll_read, poll_write, poll_shutdown, poll_res, tcp_accept,
  tcp_accept_no_addr,
}

-- What happens to an instance: its ocalls that poll, with the ids of waker and resource; its ocall
-- `awake_wakers`; and what tokio does of itself, or while a resource is dropped.
pub data Event (W : Type 0) : Type 0 where
  polls poll_results shuts_down accepts accepts_no_addr : ℕ → ℕ → Event W
  reads : ℕ → ℕ → ℕ → ℕ → Event W
  writes : ℕ → List ℕ → ℕ → ℕ → Event W
  takes : Event W
  acts : (W → List Use × W) → Event W

-- How often an event passes a waker to the host.
abbrev pub passed : {W : Type 0} → ℕ → Event W → ℕ
passed k (polls id r) = one_if (id == k)
passed k (poll_results id r) = one_if (id == k)
passed k (shuts_down id r) = one_if (id == k)
passed k (accepts id r) = one_if (id == k)
passed k (accepts_no_addr id r) = one_if (id == k)
passed k (reads n len id r) = one_if (id == k)
passed k (writes n buf id r) = one_if (id == k)
passed k takes = 0
passed k (acts f) = 0

abbrev pub times : {W : Type 0} → ℕ → List (Event W) → ℕ
times k [] = 0
times k (e ∷ es) = passed k e + times k es

module _ {W : Type 0} (tokio : Tokio W) where
  abbrev pub told : OcallResult (List ℤ) → List ℤ
  told (ok ids) = ids
  told (err e) = []

  -- The instance after an event, and what `awake_wakers` has told the guest.
  unfoldable pub step : Event W → Machine W → List ℤ × Machine W
  unfolding poll poll_res poll_shutdown tcp_accept tcp_accept_no_addr poll_read poll_write
      awake_wakers run_uses
  step (polls id r) m = ([], (poll tokio id r m).1)
  step (poll_results id r) m = ([], (poll_res tokio id r m).1)
  step (shuts_down id r) m = ([], (poll_shutdown tokio id r m).1)
  step (accepts id r) m = ([], (tcp_accept tokio id r m).1)
  step (accepts_no_addr id r) m = ([], (tcp_accept_no_addr tokio id r m).1)
  step (reads n len id r) m = ([], (poll_read tokio n len id r m).1)
  step (writes n buf id r) m = ([], (poll_write tokio n buf id r m).1)
  step takes m = let (ids, c) = awake_wakers m.ctx in (told ids, with_ctx m c)
  step (acts f) m =
      let (uses, io) = f m.io in
      let s = run_uses uses (store_of m) in
      (
        [],
        record m {
          ctx = record m.ctx { tasks = s.tasks };
          guests = s.guests;
          relays = s.relays;
          io = io;
        },
      )

  unfoldable pub run : List (Event W) → Machine W → List ℤ × Machine W
  unfolding step
  run [] m = ([], m)
  run (e ∷ es) m = let (ids, m') = step e m in let (more, last) = run es m' in (ids ++ more, last)
