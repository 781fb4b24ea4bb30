-- ===== src/Host/Context/Polls/Drops.antt =====
-- The wakers that the guest passes to the ocalls of wapo-host/src/runtime/vm_context.rs that poll: the
-- guest is told to drop each of them, once.
use wapo.Prelude.{
  ℕ, suc, ◌+◌, ◌==◌, ◌≡◌, refl, sym, ◌∙◌, ap, ap₂, List, [], ◌∷◌, ◌++◌, All, Bool, arith,
}
use wapo.Prelude.Int.{ℤ, pos, negsuc}
use wapo.Prelude.Result.{err}
use wapo.Host.TaskSet.{take_awake_wakers}
use wapo.Host.Wakers.Arcs.{Arc, one_if, alive, refs_at}
use wapo.Host.Wakers.Counted.{bump, known, drops, run_uses-Counted}
use wapo.Host.Resources.Poll
use wapo.Host.Resources.Poll.{Tokio, PollState, poll_in, discard, Stream}
use wapo.Host.Resources.Poll.Counts.{
  IsTokio, poll-UsesUp, poll_res-UsesUp, poll_read-UsesUp, poll_write-UsesUp, poll_shutdown-UsesUp,
}
use wapo.Host.Context.Polls.{
  Machine, store_of, polling, accept, poll, poll_read, poll_write, poll_shutdown, poll_res,
  tcp_accept, failed_read,
}
use wapo.Host.Context.Polls.Events.{
  Event, polls, poll_results, shuts_down, accepts, accepts_no_addr, reads, writes, takes, acts,
  passed, times, step, run,
}
use wapo.Host.Context.Polls.Settled.{
  Settled, IsLawful, push_polled-Settled, push_accepted-Settled, accept-UsesUp, polling-Settled,
}

-- If nobody holds a clone, then nothing lives.
alive-none :
    {A : Type 0} (test : A → Bool) (l : List (Arc A))
    → ((x : ℕ) → refs_at l x ≡ 0)
    → alive test l ≡ 0
alive-none test [] h = refl
alive-none test (r ∷ l) h = ground (arith, h 0, alive-none test l (λ x. h (suc x)))

drops-append : (k : ℕ) (es fs : List ℤ) → drops k (es ++ fs) ≡ drops k es + drops k fs
drops-append k [] fs = omega arith
drops-append k (pos n ∷ es) fs = drops-append k es fs
drops-append k (negsuc n ∷ es) fs = omega (arith, drops-append k es fs)

module _ {W : Type 0} (held : W → ℕ → ℕ) (tokio : Tokio W) (law : IsTokio tokio held) where
  abbrev pub known_at : ℕ → Machine W → ℕ
  known_at k m = known k (store_of m)

  -- Only tokio holds wakers, and the guest is told of what is no longer known.
  abbrev pub Goes : Event W → Machine W → List ℤ × Machine W → Type 0
  Goes e m (ids, m') =
      Settled held (λ k. known_at k m') m'
      × ((k : ℕ) → known_at k m' + drops k ids ≡ known_at k m + passed k e)

  goes_on :
      (id : ℕ) (m m' : Machine W)
      → Settled held (bump id (λ k. known_at k m)) m'
      → Settled held (λ k. known_at k m') m'
        × ((k : ℕ) → known_at k m' + 0 ≡ known_at k m + one_if (id == k))
  goes_on id m m' c = (
    record { guests = c.guests; relays = c.relays; total = λ k. refl },
    λ k. omega (arith, c.total k),
  )

  accepted :
      (id r : ℕ) (m : Machine W)
      → Settled held (λ k. known_at k m) m
      → Settled held (bump id (λ k. known_at k m)) (tcp_accept tokio id r m).1
  unfolding tcp_accept
  accepted id r m c =
      let sum = λ (k : ℕ). known_at k m in
      let polled = polling-Settled held tokio law sum 1000 err (accept tokio) id r m in
      push_accepted-Settled held (bump id sum) (polling 1000 err (accept tokio) id r m)
        (polled (accept-UsesUp held tokio law (bump id sum) (λ x. 0)) c)

  pub step-Goes :
      (e : Event W) (m : Machine W)
      → IsLawful held e
      → Settled held (λ k. known_at k m) m
      → Goes e m (step tokio e m)
  unfolding step take_awake_wakers
  step-Goes (polls id r) m l c =
      let sum = λ (k : ℕ). known_at k m in
      let polled = polling-Settled held tokio law sum 200 err (Poll.poll tokio) id r m in
      goes_on id m (poll tokio id r m).1
        (polled (poll-UsesUp tokio held law (λ x. 0) (bump id sum)) c)
  step-Goes (poll_results id r) m l c =
      let sum = λ (k : ℕ). known_at k m in
      let polled = polling-Settled held tokio law sum 200 err (Poll.poll_res tokio) id r m in
      let found = polling 200 err (Poll.poll_res tokio) id r m in
      goes_on id m (poll_res tokio id r m).1 (
        push_polled-Settled held (bump id sum) found
          (polled (poll_res-UsesUp tokio held law (λ x. 0) (bump id sum)) c))
  step-Goes (shuts_down id r) m l c =
      let sum = λ (k : ℕ). known_at k m in
      let polled = polling-Settled held tokio law sum 200 err (Poll.poll_shutdown tokio) id r m in
      goes_on id m (poll_shutdown tokio id r m).1
        (polled (poll_shutdown-UsesUp tokio held law (λ x. 0) (bump id sum)) c)
  step-Goes (accepts id r) m l c = goes_on id m (tcp_accept tokio id r m).1 (accepted id r m c)
  step-Goes (accepts_no_addr id r) m l c =
      goes_on id m (tcp_accept tokio id r m).1 (accepted id r m c)
  step-Goes (reads n len id r) m l c =
      let sum = λ (k : ℕ). known_at k m in
      let polled =
        polling-Settled held tokio law sum 200 failed_read (Poll.poll_read tokio n len) id r m in
      goes_on id m (poll_read tokio n len id r m).1
        (polled (poll_read-UsesUp tokio held law (λ x. 0) (bump id sum) n len) c)
  step-Goes (writes n buf id r) m l c =
      let sum = λ (k : ℕ). known_at k m in
      let polled =
        polling-Settled held tokio law sum 200 failed_read (Poll.poll_write tokio n buf) id r m in
      goes_on id m (poll_write tokio n buf id r m).1
        (polled (poll_write-UsesUp tokio held law (λ x. 0) (bump id sum) n buf) c)
  step-Goes takes m l c =
      (record { guests = c.guests; relays = c.relays; total = λ k. refl }, λ k. omega arith)
  step-Goes (acts f) m l c =
      let acted =
        run_uses-Counted (f m.io).0 (held m.io) (held (f m.io).1) (store_of m) (l m.io) c in
      (
        record { guests = acted.guests; relays = acted.relays; total = λ k. refl },
        λ k. omega (arith, acted.total k),
      )

  run-Goes :
      (es : List (Event W)) (m : Machine W)
      → All (IsLawful held) es
      → Settled held (λ k. known_at k m) m
      → Settled held (λ k. known_at k (run tokio es m).1) (run tokio es m).1
        × ((k : ℕ)
            → known_at k (run tokio es m).1 + drops k (run tokio es m).0
              ≡ known_at k m + times k es)
  unfolding run
  run-Goes [] m l c = (c, λ k. refl)
  run-Goes (e ∷ es) m l c =
      let ids = (step tokio e m).0 in
      let m' = (step tokio e m).1 in
      let (now, same) = step-Goes e m l.0 c in
      let (last, all) = run-Goes es m' l.1 now in
      (last, λ k. omega (arith, same k, all k, drops-append k ids (run tokio es m').0))

  -- If tokio uses only wakers that it holds or is given, and holds none when a new instance begins and
  -- none in the end, then whatever ocalls poll, and however they end, the guest has been told, or will
  -- be by the events that are queued, to drop each waker id exactly as often as it was passed.
  pub run-drops :
      (es : List (Event W)) (m : Machine W)
      → All (IsLawful held) es
      → m.guests ≡ []
      → m.relays ≡ []
      → m.ctx.tasks.awake_wakers ≡ []
      → ((x : ℕ) → held m.io x ≡ 0)
      → ((x : ℕ) → held (run tokio es m).1.io x ≡ 0)
      → (k : ℕ)
      → drops k ((run tokio es m).0 ++ (run tokio es m).1.ctx.tasks.awake_wakers) ≡ times k es
  run-drops es m l no_guests no_relays no_events begins ends k =
      let last = (run tokio es m).1 in
      let no_refs : (x : ℕ) → refs_at m.relays x ≡ 0 = λ x. ap (λ t. refs_at t x) no_relays in
      let start : Settled held (λ i. known_at i m) m = record {
        guests = λ x. omega (
          arith,
          ap (λ t. refs_at t x) no_guests,
          alive-none (λ d. d.guest_waker == x) m.relays no_refs,
        );
        relays = λ x. no_refs x ∙ sym (begins x);
        total = λ i. refl;
      } in
      let (settled, all) = run-Goes es m l start in
      let unused = λ (x : ℕ).
        alive-none (λ d. d.guest_waker == x) last.relays (λ y. settled.relays y ∙ ends y) in
      let none_lives =
        alive-none (λ id. id == k) last.guests (λ x. omega (arith, settled.guests x, unused x)) in
      let first : known_at k m ≡ 0 =
        ap₂ (λ t es. alive (λ id. id == k) t + drops k es) no_guests no_events in
      omega (
        arith,
        all k,
        first,
        none_lives,
        drops-append k (run tokio es m).0 last.ctx.tasks.awake_wakers,
      )
