-- ===== src/Worker/Instances.antt =====
-- wapod/src/state.rs, `WorkerState`: starting, stopping and counting instances. A method returns its
-- result and the state that it leaves, also when it fails.
pub mod Resize
use wapo.Prelude.{
  ℕ, zero, suc, ◌+◌, ◌-◌, ◌<◌, ltb, ◌==◌, if◌then◌else◌, List, [], ◌∷◌, ◌++◌, Option, none, some,
  Bool, true, false, not, ◌&&◌, length, min, u64_max,
}
use wapo.Prelude.Result.{Result, ok, err}
use wapo.Metrics.{merge, to_metrics}
use wapo.Worker.{
  WorkerState, AppState, Instance, VmHandle, Error, app_not_found, instance_not_found,
  instance_already_started, start_failed, no_available_slots, on_demand_not_direct,
  too_many_instances, bug_no_instance, get_app, set_app, available_slots,
}

-- `&mut self` and `Result`: the state stays what it became when `?` returns early.
abbrev pub M : Type 0 → Type 0
M A = WorkerState → Result Error A × WorkerState

infixl 5 ◌>>=◌ ◌>>◌
abbrev pub ◌>>=◌ : {A B : Type 0} → M A → (A → M B) → M B
◌>>=◌ m f w = let (r, w') = m w in elim r [ ok a ↦ f a w' | err e ↦ (err e, w') ]

abbrev pub ◌>>◌ : {A B : Type 0} → M A → M B → M B
m >> k = m >>= λ _. k

abbrev pub is_nil {ℓ} : {A : Type ℓ} → List A → Bool
is_nil [] = true
is_nil (x ∷ xs) = false

abbrev pub is_none {ℓ} : {A : Type ℓ} → Option A → Bool
is_none none = true
is_none (some a) = false

-- `BTreeMap::pop_last`.
unfoldable pub pop_last {ℓ} : {A : Type ℓ} → List A → Option (A × List A)
pop_last [] = none
pop_last (x ∷ xs) = elim (pop_last xs) [ none ↦ some (x, []) | some (y, rest) ↦ some (y, x ∷ rest) ]

-- `service.start`: the handle of the call with the given number, for an app with the given code, if
-- the service can start it.
abbrev pub Launch : Type 0
Launch = ℕ → ℕ → Option VmHandle

module _ (launch : Launch) where
  -- What `start_app` does with an app that it found: the answer is the new run's sequence number,
  -- which stands for the `InstanceInfo`.
  unfoldable pub start_found : ℕ → Option ℕ → AppState → M ℕ
  start_found address time_limit app w =
      if not app.manifest.resizable && not (is_nil app.instances) && is_none time_limit
      then (err instance_already_started, w)
      else elim (launch w.launches app.manifest.code_hash) [
        | none ↦ (err start_failed, record w { launches = w.launches + 1 })
        | some handle ↦
            let sn = w.next_run_sn in
            let instance_ : Instance = record { sequence_number = sn; vm_handle = handle } in
            let app' = record app { instances = app.instances ++ (sn, instance_) ∷ [] } in
            (
              ok sn,
              record w {
                apps = set_app address app' w.apps;
                next_run_sn = sn + 1;
                launches = w.launches + 1;
              },
            )
      ]

  unfoldable pub start_app : ℕ → Option ℕ → M ℕ
  unfolding start_found
  start_app address time_limit w = elim (get_app address w.apps) [
    | none ↦ (err instance_not_found, w)
    | some app ↦ start_found address time_limit app w
  ]

  -- `for i in 0..creating { created.push(self.start_app(..)?) }`.
  unfoldable pub start_many : ℕ → ℕ → Option ℕ → M (List ℕ)
  start_many zero address time_limit w = (ok [], w)
  start_many (suc n) address time_limit w =
      (do
        sn ← start_app address time_limit
        created ← start_many n address time_limit
        λ w'. (ok (sn ∷ created), w'))
        w

-- The first resizable app with an instance loses its last one, and keeps the metrics of it.
unfoldable pub evict : ℕ → List (ℕ × AppState) → Option (VmHandle × List (ℕ × AppState))
evict now [] = none
evict now ((k, app) ∷ apps) =
    let skip : Option (VmHandle × List (ℕ × AppState)) = elim (evict now apps) [
      | none ↦ none
      | some (h, rest) ↦ some (h, (k, app) ∷ rest)
    ] in
    if app.manifest.resizable
    then elim (pop_last app.instances) [
      | none ↦ skip
      | some ((sn, i), left) ↦
          let hist = merge app.hist_metrics (to_metrics now i.vm_handle.meter) in
          some (i.vm_handle, (k, record app { hist_metrics = hist; instances = left }) ∷ apps)
    ]
    else skip

unfoldable pub reserve_slot_if_needed : ℕ → ℕ → M (Option VmHandle)
unfolding evict available_slots
reserve_slot_if_needed now for_address w = elim (get_app for_address w.apps) [
  | none ↦ (err app_not_found, w)
  | some app ↦
      if not (is_nil app.instances)
      then (ok none, w)
      else if ltb 0 (available_slots w)
      then (ok none, w)
      else elim (evict now w.apps) [
        | none ↦ (err no_available_slots, w)
        | some (handle, apps) ↦ (ok (some handle), record w { apps = apps })
      ]
]

-- `for i in 0..stop_count`: the last instances of an app are taken off.
unfoldable pub stop_many : ℕ → ℕ → AppState → Result Error (AppState × List VmHandle)
unfolding pop_last
stop_many now zero app = ok (app, [])
stop_many now (suc n) app = elim (pop_last app.instances) [
  | none ↦ err bug_no_instance
  | some ((sn, i), left) ↦
      let hist = merge app.hist_metrics (to_metrics now i.vm_handle.meter) in
      elim (stop_many now n (record app { hist_metrics = hist; instances = left })) [
        | err e ↦ err e
        | ok (app', removed) ↦ ok (app', i.vm_handle ∷ removed)
      ]
]
