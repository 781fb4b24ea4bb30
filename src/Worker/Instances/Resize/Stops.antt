-- ===== src/Worker/Instances/Resize/Stops.antt =====
-- What evicting and stopping instances do to their number and to the metrics of the app.
use mathlib.Core.List.{Perm, map-append, append_assoc, append-nil, perm_middle}
use mathlib.Core.List.Perm
use wapo.Prelude.{
  ℕ, zero, suc, ◌+◌, ◌≤◌, ◌≡◌, refl, subst, ap, sym, ◌∙◌, arith, ◌==◌, List, [], ◌∷◌, ◌++◌, some,
  length, length-append, ◌⊎◌, Option-cases, inl, inr, Bool-cases,
}
use wapo.Prelude.Result.{ok}
use wapo.Metrics.{merge, to_metrics, merge_all}
use wapo.Metrics.Total.{merge_all-perm}
use wapo.Worker.{
  AppState, VmHandle, Instance, get_app, running_instances, app_metrics, instance_metrics,
}
use wapo.Worker.Instances.{pop_last, evict, stop_many}
use wapo.Worker.Instances.Resize.Counts.{pop_last-none, pop_last-snoc}

-- An app without its last instance, whose metrics it keeps.
abbrev popped : ℕ → AppState → Instance → List (ℕ × Instance) → AppState
popped now a i left = record a {
  hist_metrics = merge a.hist_metrics (to_metrics now i.vm_handle.meter);
  instances = left;
}

app_metrics-popped :
    (now sn : ℕ) (a : AppState) (i : Instance) (left : List (ℕ × Instance))
    → a.instances ≡ left ++ (sn, i) ∷ []
    → app_metrics now (popped now a i left) ≡ app_metrics now a
unfolding app_metrics merge_all
app_metrics-popped now sn a i left e =
    let m = to_metrics now i.vm_handle.meter in
    let ms = instance_metrics now left in
    let split : instance_metrics now a.instances ≡ ms ++ m ∷ [] =
      ap (instance_metrics now) e ∙ map-append _ left ((sn, i) ∷ []) in
    let moved : Perm (m ∷ ms) (ms ++ m ∷ []) =
      Perm.symm (subst (λ l. Perm (ms ++ m ∷ []) (m ∷ l)) (append-nil ms) (perm_middle ms [])) in
    merge_all-perm a.hist_metrics (m ∷ ms) (ms ++ m ∷ []) moved
    ∙ ap (merge_all a.hist_metrics) (sym split)

-- What stopping the last `n` instances leaves.
pub record Stopped (now n : ℕ) (a a' : AppState) (removed : List VmHandle) : Type 0 where
  pub kept : (tail : List (ℕ × Instance)) × (a.instances ≡ a'.instances ++ tail) × (length tail ≡ n)
  pub removed_all : length removed ≡ n
  pub manifest : a'.manifest ≡ a.manifest
  pub metrics : app_metrics now a' ≡ app_metrics now a

-- Stopping `n` instances of an app that has at least `n` does not panic, takes the last `n` off the
-- list, and leaves the metrics that the app reports at that instant as they were.
pub stop_many-Stopped :
    (now n : ℕ) (a : AppState)
    → n ≤ length a.instances
    → (a' : AppState) × (removed : List VmHandle) × (stop_many now n a ≡ ok (a', removed))
      × Stopped now n a a' removed
unfolding stop_many
stop_many-Stopped now zero a h = (
  a,
  [],
  refl,
  record {
    kept = ([], sym (append-nil a.instances), refl);
    removed_all = refl;
    manifest = refl;
    metrics = refl;
  },
)
stop_many-Stopped now (suc n) a h = elim (Option-cases (pop_last a.instances)) [
  | inl e ↦ absurd (omega (arith, ap length (pop_last-none a.instances e)))
  | inr (((sn, i), left), e) ↦
      let split = pop_last-snoc a.instances (sn, i) left e in
      let b = popped now a i left in
      let (a', removed, made, s) =
        stop_many-Stopped now n b
          (omega (arith, ap length split, length-append left ((sn, i) ∷ []))) in
      let (tail, q, l) = s.kept in
      (
        a',
        i.vm_handle ∷ removed,
        rw (e, stop_many, made),
        record {
          kept = (
            tail ++ (sn, i) ∷ [],
            split ∙ ap (λ l. l ++ (sn, i) ∷ []) q ∙ append_assoc a'.instances tail ((sn, i) ∷ []),
            omega (arith, length-append tail ((sn, i) ∷ []), l),
          );
          removed_all = ap suc s.removed_all;
          manifest = s.manifest;
          metrics = s.metrics ∙ app_metrics-popped now sn a i left split;
        },
      )
]

-- An eviction takes one instance off an app that has one, and leaves an app with none as it was.
pub record Evicted (apps apps' : List (ℕ × AppState)) : Type 0 where
  pub frees : running_instances apps' + 1 ≡ running_instances apps
  pub idle :
      (k : ℕ) (a : AppState) → get_app k apps ≡ some a → a.instances ≡ [] → get_app k apps' ≡ some a

Evicted-here :
    (now k sn : ℕ) (a : AppState) (i : Instance) (left : List (ℕ × Instance))
    (apps : List (ℕ × AppState))
    → pop_last a.instances ≡ some ((sn, i), left)
    → Evicted ((k, a) ∷ apps) ((k, popped now a i left) ∷ apps)
unfolding running_instances get_app
Evicted-here now k sn a i left apps e =
    let split = pop_last-snoc a.instances (sn, i) left e in
    let longer = ap length split ∙ length-append left ((sn, i) ∷ []) in
    record {
      frees = omega (arith, longer);
      idle = λ j b f p. elim (Bool-cases (k == j)) [
        | inl h ↦
            let same : a ≡ b = ground arith in
            absurd (omega (arith, longer, ap (λ c. length c.instances) same, ap length p))
        | inr h ↦ ground arith
      ];
    }

Evicted-later :
    (k : ℕ) (a : AppState) (apps apps' : List (ℕ × AppState))
    → Evicted apps apps'
    → Evicted ((k, a) ∷ apps) ((k, a) ∷ apps')
unfolding running_instances get_app
Evicted-later k a apps apps' v = record {
  frees = omega (arith, v.frees);
  idle = λ j b f p. elim (Bool-cases (k == j)) [
    | inl h ↦ ground arith
    | inr h ↦ ground (arith, v.idle j b)
  ];
}

-- Either the app at the head gives up its last instance, or a later app does.
evict-cases :
    (now k : ℕ) (a : AppState) (apps apps' : List (ℕ × AppState)) (h : VmHandle)
    → evict now ((k, a) ∷ apps) ≡ some (h, apps')
    → ((sn : ℕ) × (i : Instance) × (left : List (ℕ × Instance)) × (pop_last a.instances
          ≡ some ((sn, i), left))
        × (apps' ≡ (k, popped now a i left) ∷ apps))
      ⊎ ((rest : List (ℕ × AppState)) × (evict now apps ≡ some (h, rest)) × (apps' ≡ (k, a) ∷ rest))
unfolding evict
evict-cases now k a apps apps' h e = elim (Option-cases (evict now apps)) [
  | inl p ↦ elim (Option-cases (pop_last a.instances)) [
    | inl q ↦ ground arith
    | inr (((sn, i), left), q) ↦ inl (sn, i, left, q, ground arith)
  ]
  | inr ((h', rest), p) ↦ elim (Option-cases (pop_last a.instances)) [
    | inl q ↦ inr (rest, ground arith, ground arith)
    | inr (((sn, i), left), q) ↦ elim (Bool-cases a.manifest.resizable) [
      | inl r ↦ inl (sn, i, left, q, ground arith)
      | inr r ↦ inr (rest, ground arith, ground arith)
    ]
  ]
]

pub evict-Evicted :
    (now : ℕ) (apps apps' : List (ℕ × AppState)) (h : VmHandle)
    → evict now apps ≡ some (h, apps')
    → Evicted apps apps'
evict-Evicted now [] apps' h e = unfold evict in cc
evict-Evicted now ((k, a) ∷ apps) apps' h e = elim (evict-cases now k a apps apps' h e) [
  | inl (sn, i, left, q, p) ↦
      subst (Evicted ((k, a) ∷ apps)) (sym p) (Evicted-here now k sn a i left apps q)
  | inr (rest, q, p) ↦
      subst (Evicted ((k, a) ∷ apps)) (sym p)
        (Evicted-later k a apps rest (evict-Evicted now apps rest h q))
]
