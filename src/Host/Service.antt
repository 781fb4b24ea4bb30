-- ===== src/Host/Service.antt =====
-- wapo-host/src/service.rs: the task of one instance, from `ServiceHandle::start` to its exit. The
-- instants at which the `select!` of the task is woken are given; wasmtime and the module loader
-- answer as their parameters say.
pub mod Runs
pub mod Ends
use wapo.Prelude.{
  ℕ, suc, ◌+◌, ◌*◌, ◌-◌, ◌≤◌, ltb, if◌then◌else◌, List, [], ◌∷◌, ◌++◌, Option, none, some, Bool,
  true, false, not, ◌&&◌,
}

pub data ExitReason : Type 0 where
  exited : ℕ → ExitReason
  stopped input_closed trap cancelled restore waiting_for_code code_too_large : ExitReason
  failed_to_start : ExitReason

pub data VmStatus : Type 0 where
  loading_code creating_instance running : VmStatus
  stopped_because : Option ExitReason → VmStatus

pub data ControlCommand : Type 0 where
  stop : ControlCommand
  update_weight : ℕ → ControlCommand

-- A command, known by a number.
pub data Command : Type 0 where
  push_query : ℕ → Command
  http_request : ℕ → Command

-- The end of a run of the program: its return from `main`, `proc_exit`, or a trap.
pub data RunResult : Type 0 where
  returned : RunResult
  proc_exit : ℕ → RunResult
  trapped : RunResult

-- What happens to a running instance. `meter_stopped` is the first effect of `VmHandle::stop`, which
-- does not wake the task; the others do, and `none` is a closed channel.
pub data Event : Type 0 where
  run_ended : RunResult → Event
  command : Option Command → Event
  control : Option ControlCommand → Event
  meter_stopped : Event

-- What the task was started with. `rerun` says whether the restart with the given number succeeds.
pub record Config : Type 0 where
  pub auto_restart : Bool
  pub time_limit : Option ℕ
  pub rerun : ℕ → Bool

-- The task between two turns of its loop; `since` is the start of the turn.
pub record Run : Type 0 where
  pub since : ℕ
  pub start_time : ℕ
  pub restarts : ℕ
  pub weight : ℕ
  pub meter_off : Bool
  pub pushed : List Command

-- `MIN_LIVE_TIME`, in nanoseconds.
abbrev pub min_live_time : ℕ
min_live_time = 10 * 1_000_000_000

-- How a turn ends: with `break` at an instant, or with another turn.
pub data Turn : Type 0 where
  break : ℕ → ExitReason → Run → Turn
  next : Run → Turn

-- The exit reason of a run that is not restarted.
unfoldable pub exit_reason : RunResult → ExitReason
exit_reason returned = exited 0
exit_reason (proc_exit code) = exited code
exit_reason trapped = trap

abbrev pub is_none {ℓ} : {A : Type ℓ} → Option A → Bool
is_none none = true
is_none (some a) = false

unfoldable pub need_restart : Config → ℕ → Run → Bool
need_restart c now r =
    c.auto_restart
    && ltb min_live_time (now - r.start_time)
    && not r.meter_off
    && is_none c.time_limit

-- The arm of the `select!` that an event at the instant `now` chooses.
unfoldable pub on_event : Config → ℕ → Event → Run → Turn
unfolding need_restart exit_reason
on_event c now (run_ended rv) r =
    if need_restart c now r
    then (if c.rerun r.restarts
        then next (record r { since = now; start_time = now; restarts = suc r.restarts })
        else break now failed_to_start (record r { start_time = now }))
    else break now (exit_reason rv) r
on_event c now (command none) r = break now input_closed r
on_event c now (command (some cmd)) r =
    next (record r { since = now; pushed = r.pushed ++ cmd ∷ [] })
on_event c now (control none) r = break now input_closed r
on_event c now (control (some stop)) r = break now stopped r
on_event c now (control (some (update_weight w))) r = next (record r { since = now; weight = w })
on_event c now meter_stopped r = next (record r { meter_off = true })

-- `time_limit_fut` is new in every turn; its time counts from the turn's start. It wins if its time is
-- over before the instant `now` of the event whose arm is `turn`.
unfoldable pub limited : Option ℕ → ℕ → Run → Turn → Turn
limited none now r turn = turn
limited (some limit) now r turn =
    if ltb (r.since + limit) now then break (r.since + limit) stopped r else turn

-- The turn that the event at the instant `now` would end.
unfoldable pub select : Config → ℕ → Event → Run → Turn
unfolding limited on_event
select c now e r = limited c.time_limit now r (on_event c now e r)

-- With no event left, the task waits for the time limit, if there is one.
unfoldable pub wait : Option ℕ → Run → Turn
wait none r = next r
wait (some limit) r = break (r.since + limit) stopped r

-- The next turn, unless the loop is left.
abbrev pub and_then : Turn → (Run → Turn) → Turn
and_then (break at reason r) f = break at reason r
and_then (next r) f = f r

-- The loop on the events that come.
unfoldable pub serve : Config → List (ℕ × Event) → Run → Turn
unfolding select wait
serve c [] r = wait c.time_limit r
serve c ((now, e) ∷ es) r = and_then (select c now e r) (serve c es)

-- The task at its start, at the instant `now`.
unfoldable pub new_run : ℕ → ℕ → Run
new_run now weight = record {
  since = now;
  start_time = now;
  restarts = 0;
  weight = weight;
  meter_off = false;
  pushed = [];
}

-- The task that `start` spawns: the statuses that it sends, and its exit reason if it ends. The
-- module loads and the first instance is made as the two flags say, at the instant `now`.
unfoldable pub instance_task :
    Bool → Bool → Config → ℕ → ℕ → List (ℕ × Event) → List VmStatus × Option ExitReason
unfolding serve new_run
instance_task loads runs c now weight events =
    if loads
    then if runs
      then (elim (serve c events (new_run now weight)) [
        | break at reason r ↦ (
          loading_code ∷ creating_instance ∷ running ∷ stopped_because (some reason) ∷ [],
          some reason,
        )
        | next r ↦ (loading_code ∷ creating_instance ∷ running ∷ [], none)
      ])
      else (loading_code ∷ creating_instance ∷ stopped_because none ∷ [], some failed_to_start)
    else (loading_code ∷ stopped_because none ∷ [], some failed_to_start)
