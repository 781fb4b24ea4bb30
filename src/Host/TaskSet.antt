-- ===== src/Host/TaskSet.antt =====
-- wapo-host/src/runtime/vm_context.rs, `TaskSet`, and async_context.rs, `GuestWaker`: which guest tasks
-- are ready, and which guest wakers are to be woken or dropped. A task id is the bit pattern of an
-- i32. Each method holds a lock while it works, and is one step.
pub mod Ready
use mathlib.Core.List.{reverse}
use wapo.Prelude.{
  ℕ, ◌==◌, if◌then◌else◌, List, [], ◌∷◌, ◌++◌, Option, none, some, Bool, true, false, ◌&&◌, ◌||◌,
  take,
}
use wapo.Prelude.Int.{ℤ, pos, neg_one_minus}

pub record TaskSet : Type 0 where
  pub awake_tasks : List ℕ
  pub awake_wakers : List ℤ

unfoldable pub with_task0 : TaskSet
with_task0 = record { awake_tasks = 0 ∷ []; awake_wakers = [] }

-- `.any(|&id| id == task_id)`.
unfoldable pub any_eq : ℕ → List ℕ → Bool
any_eq task_id [] = false
any_eq task_id (id ∷ ids) = id == task_id || any_eq task_id ids

unfoldable pub push_task : ℕ → TaskSet → TaskSet
unfolding any_eq
push_task task_id t =
    let exists = any_eq task_id (take 8 (reverse t.awake_tasks)) in
    if exists then t else record t { awake_tasks = t.awake_tasks ++ task_id ∷ [] }

unfoldable pub pop_task : TaskSet → Option ℕ × TaskSet
pop_task t = elim t.awake_tasks [
  | [] ↦ (none, t)
  | id ∷ ids ↦ (some id, record t { awake_tasks = ids })
]

-- `VecDeque::is_empty`.
abbrev pub is_nil {ℓ} : {A : Type ℓ} → List A → Bool
is_nil [] = true
is_nil (x ∷ xs) = false

unfoldable pub is_empty : TaskSet → Bool
is_empty t = is_nil t.awake_tasks && is_nil t.awake_wakers

-- `GuestWaker::wake_by_ref`.
unfoldable pub wake_guest_waker : ℕ → TaskSet → TaskSet
wake_guest_waker id t = record t { awake_wakers = t.awake_wakers ++ pos id ∷ [] }

-- `Drop` of the last clone of a `GuestWaker`.
unfoldable pub drop_guest_waker : ℕ → TaskSet → TaskSet
drop_guest_waker id t = record t { awake_wakers = t.awake_wakers ++ neg_one_minus (pos id) ∷ [] }

-- `WakerData::wake_by_ref`, but for the waker of the host's own executor.
unfoldable pub wake_task : ℕ → ℕ → TaskSet → TaskSet
unfolding push_task wake_guest_waker
wake_task this_task waker_id t = wake_guest_waker waker_id (push_task this_task t)

-- `OcallFuncs::awake_wakers`: all that is queued.
unfoldable pub take_awake_wakers : TaskSet → List ℤ × TaskSet
take_awake_wakers t = (t.awake_wakers, record t { awake_wakers = [] })
