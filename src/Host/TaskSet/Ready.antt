-- ===== src/Host/TaskSet/Ready.antt =====
-- No wake-up of a task is lost by the short look-back of `push_task`.
use mathlib.Core.List.{
  Mem, reverse, mem-cons_self, mem-cons_of_mem, mem-append_right, mem-reverse, mem-cons,
  not-mem-nil, Mem-prop,
}
use mathlib.Core.Logic.Or
use wapo.Prelude.{
  ℕ, zero, suc, ◌≡◌, refl, sym, subst, arith, List, [], ◌∷◌, ◌++◌, true, ◌==◌, ==_iff, Bool-cases,
  inl, inr, take, ◌⊎◌,
}
use wapo.Host.TaskSet.{TaskSet, any_eq, push_task}

any_eq-mem : (id : ℕ) (ids : List ℕ) → any_eq id ids ≡ true → Mem id ids
unfolding any_eq
any_eq-mem id [] h = cc
any_eq-mem id (x ∷ xs) h = elim (Bool-cases (x == id)) [
  | inl e ↦ subst (λ y. Mem id (y ∷ xs)) (sym ((==_iff x id).0 e)) mem-cons_self
  | inr e ↦ mem-cons_of_mem x (any_eq-mem id xs (ground arith))
]

mem-take : (n id : ℕ) (ids : List ℕ) → Mem id (take n ids) → Mem id ids
mem-take zero id ids m = absurd (not-mem-nil m)
mem-take (suc n) id [] m = absurd (not-mem-nil m)
mem-take (suc n) id (x ∷ xs) m =
    Or.elim Mem-prop (mem-cons.0 m) (λ e. subst (λ y. Mem id (y ∷ xs)) e mem-cons_self)
      (λ r. mem-cons_of_mem x (mem-take n id xs r))

-- After a push the task is in the ready queue, and the queue is what it was or has the task as one
-- more entry at its end; the events for wakers are as they were.
pub push_task-ready :
    (id : ℕ) (t : TaskSet)
    → Mem id (push_task id t).awake_tasks
      × (((push_task id t).awake_tasks ≡ t.awake_tasks)
          ⊎ ((push_task id t).awake_tasks ≡ t.awake_tasks ++ id ∷ []))
      × ((push_task id t).awake_wakers ≡ t.awake_wakers)
unfolding push_task
push_task-ready id t = elim (Bool-cases (any_eq id (take 8 (reverse t.awake_tasks)))) [
  | inl e ↦
      rw e
        (mem-reverse.0 (mem-take 8 id (reverse t.awake_tasks) (any_eq-mem id _ e)), inl refl, refl)
  | inr e ↦ rw e (mem-append_right t.awake_tasks mem-cons_self, inr refl, refl)
]
