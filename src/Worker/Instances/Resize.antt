-- ===== src/Worker/Instances/Resize.antt =====
-- wapod/src/state.rs, `WorkerState::resize_app_instances` and `try_inc_instances`.
pub mod Counts
pub mod Stops
pub mod Capacity
pub mod Outcome
use wapo.Prelude.{
  ℕ, suc, ◌+◌, ◌-◌, ltb, ◌==◌, if◌then◌else◌, List, [], ◌∷◌, ◌++◌, Option, none, some, ◌&&◌, length,
  min, u64_max,
}
use wapo.Prelude.Result.{Result, ok, err}
use wapo.Worker.{
  WorkerState, AppState, VmHandle, app_not_found, on_demand_not_direct, too_many_instances, get_app,
  set_app, available_slots,
}
use wapo.Worker.Instances.{
  M, ◌>>=◌, Launch, is_none, start_app, start_many, reserve_slot_if_needed, stop_many,
}

-- The handle that `reserve_slot_if_needed` freed, if any.
abbrev pub option_list {ℓ} : {A : Type ℓ} → Option A → List A
option_list none = []
option_list (some a) = a ∷ []

-- `new.into_iter().next()`.
abbrev pub first {ℓ} : {A : Type ℓ} → List A → Option A
first [] = none
first (x ∷ xs) = some x

module _ (launch : Launch) (now : ℕ) where
  unfoldable pub reserved : ℕ → Option ℕ → M (List VmHandle)
  unfolding reserve_slot_if_needed
  reserved address on_demand_timeout w =
      if is_none on_demand_timeout
      then (ok [], w)
      else (do handle ← reserve_slot_if_needed now address; λ w'. (ok (option_list handle), w')) w

  -- The match on `current.cmp(&count)`, once the app is found.
  unfoldable pub resize_found :
      ℕ → ℕ → Option ℕ → List VmHandle → AppState → M (List ℕ × List VmHandle)
  resize_found address count on_demand_timeout removed app w =
      let current = length app.instances in
      if ltb current count
      then if app.manifest.on_demand && is_none on_demand_timeout
        then (err on_demand_not_direct, w)
        else (do
          created ←
              start_many launch (min (available_slots w) (count - current)) address
                on_demand_timeout
          λ w'. (ok (created, removed), w'))
            w
      else if current == count
      then (ok ([], removed), w)
      else elim (stop_many now (current - count) app) [
        | err e ↦ (err e, w)
        | ok (app', stopped) ↦
            (ok ([], removed ++ stopped), record w { apps = set_app address app' w.apps })
      ]

  -- What follows the reservation.
  unfoldable pub resize_reserved : ℕ → ℕ → Option ℕ → List VmHandle → M (List ℕ × List VmHandle)
  unfolding resize_found
  resize_reserved address count on_demand_timeout removed w = elim (get_app address w.apps) [
    | none ↦ (err app_not_found, w)
    | some app ↦ resize_found address count on_demand_timeout removed app w
  ]

  unfoldable pub resize_app_instances : ℕ → ℕ → Option ℕ → M (List ℕ × List VmHandle)
  unfolding reserved
  resize_app_instances address count on_demand_timeout =
      reserved address on_demand_timeout >>= resize_reserved address count on_demand_timeout

  unfoldable pub try_inc_instances : ℕ → M (Option ℕ)
  try_inc_instances address w = elim (get_app address w.apps) [
    | none ↦ (err app_not_found, w)
    | some app ↦
        if length app.instances == u64_max
        then (err too_many_instances, w)
        else (do
          (new, stopped) ←
              resize_app_instances address (length app.instances + 1)
                (some w.args.on_demand_connection_timeout)
          λ w'. (ok (first new), w'))
            w
  ]
