-- ===== src/Guest/Tasks/Spawned.antt =====
-- What becomes of the futures that a task spawns, in wapo-env/src/tasks.rs.
use mathlib.Core.List.{Mem, mem-append_left}
use wapo.Prelude.{
  ℕ, suc, ◌+◌, ◌≤◌, ◌<◌, ◌≡◌, ◌≢◌, refl, sym, subst, ◌∙◌, inl, inr, ltb, List, [], ◌∷◌, ◌++◌,
  Option, none, some, true, length, length-append, length-set, set, get_elem?, get_elem?-set_self,
  get_elem?-set_ne, get_elem?-lt, get_elem?-append_lt, get_elem?-snoc_self, All, Option-cases,
  arith,
}
use wapo.Guest.Tasks.{max_n_tasks, first_vacant_task, free_task_id, start_task, start_tasks}
use wapo.Host.TaskSet.{TaskSet, push_task}
use wapo.Host.TaskSet.Ready.{push_task-ready}

-- The slots of the tasks, and the queue of the host.
abbrev State : Type 0
State = List (Option ℕ) × TaskSet

-- The future has a slot that is not the main task's, and its task is ready.
abbrev pub IsStarted : State → ℕ → Type 0
IsStarted s f = (id : ℕ) × (1 ≤ id) × (get_elem? s.0 id ≡ some (some f)) × Mem id s.1.awake_tasks

-- The tasks of `s` keep their slots in `t`, and those that are ready stay so.
abbrev pub Kept : State → State → Type 0
Kept s t =
    ((j g : ℕ) → get_elem? s.0 j ≡ some (some g) → get_elem? t.0 j ≡ some (some g))
    × ((id : ℕ) → Mem id s.1.awake_tasks → Mem id t.1.awake_tasks)

push_task-keeps :
    (id x : ℕ) (t : TaskSet) → Mem x t.awake_tasks → Mem x (push_task id t).awake_tasks
push_task-keeps id x t m = elim (push_task-ready id t).1 [
  | inl e ↦ subst (λ l. Mem x l) (sym e) m
  | inr e ↦ subst (λ l. Mem x l) (sym e) (mem-append_left (id ∷ []) m)
]

first_vacant_task-vacant :
    (n : ℕ) (ts : List (Option ℕ)) (id : ℕ)
    → first_vacant_task n ts ≡ some id
    → (k : ℕ) × (id ≡ n + k) × (get_elem? ts k ≡ some none)
unfolding first_vacant_task
first_vacant_task-vacant n [] id h = cc
first_vacant_task-vacant n (none ∷ ts) id h = let same : n ≡ id = cc in (0, omega arith, refl)
first_vacant_task-vacant n (some t ∷ ts) id h =
    let (k, e, v) = first_vacant_task-vacant (suc n) ts id h in (suc k, omega (arith, e), v)

free_task_id-vacant :
    (tasks : List (Option ℕ)) (id : ℕ)
    → free_task_id tasks ≡ some id
    → (1 ≤ id) × (get_elem? tasks id ≡ some none)
unfolding free_task_id
free_task_id-vacant [] id h = cc
free_task_id-vacant (main ∷ ts) id h =
    let (k, e, v) = first_vacant_task-vacant 1 ts id h in
    let next : suc k ≡ id = omega (arith, e) in
    (omega (arith, e), subst (λ i. get_elem? (main ∷ ts) i ≡ some none) next v)

-- What a start does: nobody panics, the future is started, the others are kept, and there is at most
-- one slot more.
abbrev Starts : ℕ → State → State → Type 0
Starts f s t =
    (start_task f s ≡ some t)
    × IsStarted t f
    × Kept s t
    × (length s.0 ≤ length t.0)
    × (length t.0 ≤ suc (length s.0))

start_task-Starts :
    (f : ℕ) (tasks : List (Option ℕ)) (host : TaskSet)
    → 1 ≤ length tasks
    → length tasks < max_n_tasks
    → (t : State) × Starts f (tasks, host) t
unfolding start_task
start_task-Starts f tasks host h n = elim (Option-cases (free_task_id tasks)) [
  | inr (id, e) ↦
      let (first, v) = free_task_id-vacant tasks id e in
      let inside = get_elem?-lt tasks id none v in
      let other : (j g : ℕ) → get_elem? tasks j ≡ some (some g) → id ≢ j = λ j g w same.
        let here : get_elem? tasks id ≡ some (some g) =
          subst (λ i. get_elem? tasks i ≡ some (some g)) (sym same) w in
        cc in
      (
        (set tasks id (some f), push_task id host),
        (
          rw (start_task, e) refl,
          (id, first, get_elem?-set_self tasks id (some f) inside, (push_task-ready id host).0),
          (
            λ j g w. get_elem?-set_ne tasks id j (some f) (other j g w) ∙ w,
            λ x m. push_task-keeps id x host m,
          ),
          omega (arith, length-set tasks id (some f)),
          omega (arith, length-set tasks id (some f)),
        ),
      )
  | inl e ↦
      let room : ltb (length tasks) max_n_tasks ≡ true = ground arith in
      (
        (tasks ++ some f ∷ [], push_task (length tasks) host),
        (
          rw (start_task, e, room) refl,
          (
            length tasks,
            h,
            get_elem?-snoc_self tasks (some f),
            (push_task-ready (length tasks) host).0,
          ),
          (
            λ j g w.
                get_elem?-append_lt tasks (some f ∷ []) j (get_elem?-lt tasks j (some g) w) ∙ w,
            λ x m. push_task-keeps (length tasks) x host m,
          ),
          omega (arith, length-append tasks (some f ∷ [])),
          omega (arith, length-append tasks (some f ∷ [])),
        ),
      )
]

-- If the guest has its main task and room for all futures that were spawned, then
-- start_spawned_tasks does not panic: it gives each of them a slot other than the main task's and
-- makes it ready, and the tasks there were keep their slots and stay ready if they were.
pub start_tasks-starts :
    (spawned : List ℕ) (tasks : List (Option ℕ)) (host : TaskSet)
    → 1 ≤ length tasks
    → length tasks + length spawned ≤ max_n_tasks
    → (t : State) × (start_tasks spawned (tasks, host) ≡ some t)
      × All (IsStarted t) spawned
      × Kept (tasks, host) t
unfolding start_tasks
start_tasks-starts [] tasks host h n = ((tasks, host), refl, tt, (λ j g w. w, λ x m. m))
start_tasks-starts (f ∷ spawned) tasks host h n =
    let (s, (e, started, kept, more, most)) = start_task-Starts f tasks host h (omega arith) in
    let (t, done, all, kept') = start_tasks-starts spawned s.0 s.1 (omega arith) (omega arith) in
    let (id, first, slot, ready) = started in
    (
      t,
      rw (start_tasks, e) done,
      ((id, first, kept'.0 id f slot, kept'.1 id ready), all),
      (λ j g w. kept'.0 j g (kept.0 j g w), λ x m. kept'.1 x (kept.1 x m)),
    )
