-- ===== src/Guest/Tasks.antt =====
-- wapo-env/src/tasks.rs: the tasks of a guest and its scheduler, with the host's queue of ready tasks
-- and of waker events, which it uses by ocalls. A future is known by a number; what a poll of it does
-- is a parameter. A waker is known by the task that it wakes.
pub mod Spawned
use wapo.Prelude.{
  ℕ, zero, suc, ◌+◌, ltb, if◌then◌else◌, List, [], ◌∷◌, ◌++◌, Option, none, some, Bool, true, false,
  length, set, get_elem?,
}
use wapo.Boundary.{process_events}
use wapo.Guest.Wakers.{Wakers}
use wapo.Host.TaskSet.{TaskSet, push_task, pop_task, take_awake_wakers}

-- What a poll of a future leaves: the future it is from then on, or that it is done; the futures that
-- it spawned; the tasks that it marked as ready; and the table of wakers.
pub record Polled : Type 0 where
  pub pending : Option ℕ
  pub spawns : List ℕ
  pub wakes : List ℕ
  pub wakers : Wakers

-- TASKS, SPAWNING_TASKS, CURRENT_TASK and WAKERS, and the host's queues.
pub record Executor : Type 0 where
  pub tasks : List (Option ℕ)
  pub spawning : List ℕ
  pub current_task : ℕ
  pub wakers : Wakers
  pub host : TaskSet

-- `MAX_N_TASKS`, `i32::MAX / 2`.
abbrev pub max_n_tasks : ℕ
max_n_tasks = 0x3fff_ffff

-- `spawn_named`, less the channel of the `JoinHandle`.
unfoldable pub spawn : ℕ → Executor → Executor
spawn task e = record e { spawning = e.spawning ++ task ∷ [] }

-- The first vacant slot from the one with the number `id` on.
unfoldable pub first_vacant_task : ℕ → List (Option ℕ) → Option ℕ
first_vacant_task id [] = none
first_vacant_task id (none ∷ ts) = some id
first_vacant_task id (some t ∷ ts) = first_vacant_task (suc id) ts

-- The search of `start_task`, which skips the main task.
unfoldable pub free_task_id : List (Option ℕ) → Option ℕ
unfolding first_vacant_task
free_task_id [] = none
free_task_id (main ∷ ts) = first_vacant_task 1 ts

-- `start_task`; `none` is its panic.
unfoldable pub start_task : ℕ → List (Option ℕ) × TaskSet → Option (List (Option ℕ) × TaskSet)
unfolding free_task_id push_task
start_task task (tasks, host) = elim (free_task_id tasks) [
  | some id ↦ some (set tasks id (some task), push_task id host)
  | none ↦
      if ltb (length tasks) max_n_tasks
      then some (tasks ++ some task ∷ [], push_task (length tasks) host)
      else none
]

-- The loop of `start_spawned_tasks`.
unfoldable pub start_tasks : List ℕ → List (Option ℕ) × TaskSet → Option (List (Option ℕ) × TaskSet)
unfolding start_task
start_tasks [] s = some s
start_tasks (task ∷ spawned) s = elim (start_task task s) [
  | none ↦ none
  | some s' ↦ start_tasks spawned s'
]

unfoldable pub start_spawned_tasks : Executor → Option Executor
unfolding start_tasks
start_spawned_tasks e = elim (start_tasks e.spawning (e.tasks, e.host)) [
  | none ↦ none
  | some (tasks, host) ↦ some (record e { tasks = tasks; host = host; spawning = [] })
]

-- `mark_task_ready` for each of some tasks.
unfoldable pub mark_ready : List ℕ → TaskSet → TaskSet
unfolding push_task
mark_ready [] t = t
mark_ready (id ∷ ids) t = mark_ready ids (push_task id t)

-- The first part of a poll: the events of `awake_wakers`.
unfoldable pub handle_wakers : Executor → Executor
unfolding take_awake_wakers process_events mark_ready
handle_wakers e =
    let (events, host) = take_awake_wakers e.host in
    let (woken, wakers) = process_events events e.wakers in
    record e { wakers = wakers; host = mark_ready woken host }

-- `tasks[0].is_none()`.
unfoldable pub main_exited : List (Option ℕ) → Bool
main_exited [] = true
main_exited (none ∷ ts) = true
main_exited (some t ∷ ts) = false

module _ (poll : ℕ → Executor → Polled) where
  -- `poll_with_guest_context` for the task in a slot.
  unfoldable pub poll_task : ℕ → ℕ → Executor → Executor
  unfolding mark_ready
  poll_task task_id task e =
      let started = record e { current_task = task_id } in
      let p = poll task started in
      record started {
        tasks = set e.tasks task_id p.pending;
        spawning = e.spawning ++ p.spawns;
        wakers = p.wakers;
        host = mark_ready p.wakes e.host;
      }

  -- What follows the poll of a task: whether the main task is done, and the start of what was spawned.
  unfoldable pub after_poll : Executor → Option (Bool × Executor)
  unfolding main_exited start_spawned_tasks
  after_poll e =
      if main_exited e.tasks
      then some (true, e)
      else elim (start_spawned_tasks e) [ none ↦ none | some e' ↦ some (false, e') ]

  -- `wapo_poll`: whether it returns 1, and the executor after it; `none` is a panic.
  unfoldable pub wapo_poll : Executor → Option (Bool × Executor)
  unfolding handle_wakers pop_task poll_task after_poll
  wapo_poll e =
      let e₁ = handle_wakers e in
      let (next, host) = pop_task e₁.host in
      let e₂ = record e₁ { host = host } in
      elim next [
        | none ↦ some (false, e₂)
        | some task_id ↦ elim (get_elem? e₂.tasks task_id) [
          | some (some task) ↦ after_poll (poll_task task_id task e₂)
          | _ ↦ some (false, e₂)
        ]
      ]
