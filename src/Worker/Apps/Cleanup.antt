-- ===== src/Worker/Apps/Cleanup.antt =====
-- What taking an instance out of an app does to the metrics of the app.
use mathlib.Core.List.{map-append, perm_middle}
use wapo.Prelude.{
  ℕ, ◌==◌, ◌≡◌, refl, sym, ap, ◌∙◌, List, [], ◌∷◌, ◌++◌, some, arith, Option-cases, Bool-cases, inl,
  inr, ==_iff,
}
use wapo.Metrics.{merge, merge_all, to_metrics}
use wapo.Metrics.Total.{merge_all-perm}
use wapo.Worker.{WorkerState, AppState, Instance, get_app, instance_metrics, app_metrics}
use wapo.Worker.Instances.Resize.Counts.{get_app-set_app}
use wapo.Worker.Apps.{remove_instance, instance_stopped}

-- The instances around the one that is taken out.
abbrev pub Split : ℕ → Instance → List (ℕ × Instance) → List (ℕ × Instance) → Type 0
Split sn i m left =
    (before : List (ℕ × Instance)) × (after : List (ℕ × Instance)) × (m ≡ before ++ (sn, i) ∷ after)
    × (left ≡ before ++ after)

pub remove_instance-Split :
    (sn : ℕ) (m left : List (ℕ × Instance)) (i : Instance)
    → remove_instance sn m ≡ some (i, left)
    → Split sn i m left
unfolding remove_instance
remove_instance-Split sn [] left i e = cc
remove_instance-Split sn ((k, j) ∷ m) left i e = elim (Bool-cases (k == sn)) [
  | inl b ↦ let same : k ≡ sn = (==_iff k sn).0 b in ([], m, ground arith, ground arith)
  | inr b ↦ elim (Option-cases (remove_instance sn m)) [
    | inl p ↦ ground arith
    | inr ((h, l), p) ↦
        let same : h ≡ i = ground arith in
        let longer : left ≡ (k, j) ∷ l = ground arith in
        let (before, after, q, r) =
          remove_instance-Split sn m l i (p ∙ ap (λ x. some (x, l)) same) in
        ((k, j) ∷ before, after, ap (λ x. (k, j) ∷ x) q, longer ∙ ap (λ x. (k, j) ∷ x) r)
  ]
]

-- The metrics of a run first, and those of the other instances after it.
pub app_metrics-Split :
    (now sn : ℕ) (a : AppState) (i : Instance) (left : List (ℕ × Instance))
    → Split sn i a.instances left
    → app_metrics now a
      ≡ merge_all a.hist_metrics (to_metrics now i.vm_handle.meter ∷ instance_metrics now left)
unfolding app_metrics
app_metrics-Split now sn a i left (before, after, p, q) =
    let m = to_metrics now i.vm_handle.meter in
    let all : instance_metrics now a.instances
        ≡ instance_metrics now before ++ m ∷ instance_metrics now after =
      ap (instance_metrics now) p ∙ map-append _ before ((sn, i) ∷ after) in
    let rest : instance_metrics now left
        ≡ instance_metrics now before ++ instance_metrics now after =
      ap (instance_metrics now) q ∙ map-append _ before after in
    ap (merge_all a.hist_metrics) all
    ∙ merge_all-perm a.hist_metrics _ _
        (perm_middle (instance_metrics now before) (instance_metrics now after))
    ∙ ap (λ l. merge_all a.hist_metrics (m ∷ l)) (sym rest)

-- When an instance that the worker still lists has stopped, it is taken off the list, and the
-- metrics that the app reports at that instant stay what they were.
pub instance_stopped-metrics :
    (now address sn : ℕ) (w : WorkerState) (a : AppState) (i : Instance)
    (left : List (ℕ × Instance))
    → get_app address w.apps ≡ some a
    → remove_instance sn a.instances ≡ some (i, left)
    → (a' : AppState) × (get_app address (instance_stopped now address sn w).apps ≡ some a')
      × (a'.instances ≡ left)
      × (app_metrics now a' ≡ app_metrics now a)
unfolding instance_stopped app_metrics merge_all
instance_stopped-metrics now address sn w a i left e r =
    let hist = merge a.hist_metrics (to_metrics now i.vm_handle.meter) in
    let a' : AppState = record a { hist_metrics = hist; instances = left } in
    (
      a',
      rw (e, instance_stopped, r) (get_app-set_app address a a' w.apps e),
      refl,
      sym (app_metrics-Split now sn a i left (remove_instance-Split sn a.instances left i r)),
    )
