-- ===== src/Host/Wakers.antt =====
-- wapo-host/src/runtime/async_context.rs: the wakers that a poll hands to tokio. A `GuestWaker` is an
-- `Arc` of the id of a guest waker; a relay waker is an `Arc` of its `WakerData`, which owns one clone
-- of a `GuestWaker`. Both are known by their positions. The instance is alive throughout, so that
-- `upgrade` succeeds; the waker of the host's own executor is left out.
pub mod Arcs
pub mod Counted
use wapo.Prelude.{ℕ, List, [], ◌∷◌, Option, none, some, length, get_elem?}
use wapo.Host.TaskSet.{TaskSet, wake_task, drop_guest_waker}
use wapo.Host.Wakers.Arcs.{Arc, new_arc, clone_arc, drop_arc}

-- `WakerData`: the task of its environment, and the position of its guest waker.
pub record WakerData : Type 0 where
  pub this_task : ℕ
  pub guest_waker : ℕ

pub record Store : Type 0 where
  pub guests : List (Arc ℕ)
  pub relays : List (Arc WakerData)
  pub tasks : TaskSet
  -- The task of `TLS_TASK_ENV`.
  pub this_task : ℕ

-- `GuestWaker::from_id`, at the position `length s.guests`.
unfoldable pub from_id : ℕ → Store → Store
unfolding new_arc
from_id id s = record s { guests = new_arc id s.guests }

-- `Clone` and `Drop` of `GuestWaker`.
unfoldable pub clone_guest : ℕ → Store → Store
unfolding clone_arc
clone_guest p s = record s { guests = clone_arc p s.guests }

unfoldable pub drop_guest : ℕ → Store → Store
unfolding drop_arc drop_guest_waker
drop_guest p s =
    let (last, guests) = drop_arc p s.guests in
    record s {
      guests = guests;
      tasks = elim last [ none ↦ s.tasks | some id ↦ drop_guest_waker id s.tasks ];
    }

-- `relay_waker`, which takes the guest waker; the new waker is at the position `length s.relays`.
unfoldable pub relay_waker : ℕ → Store → Store
unfolding new_arc
relay_waker p s = record s {
  relays = new_arc (record { this_task = s.this_task; guest_waker = p }) s.relays;
}

-- `WakerData::wake_by_ref`, once the guest waker's allocation is read.
unfoldable pub wake_relay : Option (Arc WakerData) → Store → Store
unfolding wake_task
wake_relay none s = s
wake_relay (some r) s = elim (get_elem? s.guests r.value.guest_waker) [
  | none ↦ s
  | some g ↦ record s { tasks = wake_task r.value.this_task g.value s.tasks }
]

-- The functions of the vtable.
unfoldable pub clone_waker : ℕ → Store → Store
unfolding clone_arc
clone_waker d s = record s { relays = clone_arc d s.relays }

unfoldable pub wake_by_ref_waker : ℕ → Store → Store
unfolding wake_relay
wake_by_ref_waker d s = wake_relay (get_elem? s.relays d) s

unfoldable pub drop_waker : ℕ → Store → Store
unfolding drop_arc drop_guest
drop_waker d s =
    let (last, relays) = drop_arc d s.relays in
    let s' = record s { relays = relays } in
    elim last [ none ↦ s' | some data_ ↦ drop_guest data_.guest_waker s' ]

unfoldable pub wake_waker : ℕ → Store → Store
unfolding wake_by_ref_waker drop_waker
wake_waker d s = drop_waker d (wake_by_ref_waker d s)

-- What tokio does with wakers, through the vtable alone.
pub data Use : Type 0 where
  clone wake wake_by_ref drop : ℕ → Use

unfoldable pub run_uses : List Use → Store → Store
unfolding clone_waker wake_waker wake_by_ref_waker drop_waker
run_uses [] s = s
run_uses (clone d ∷ us) s = run_uses us (clone_waker d s)
run_uses (wake d ∷ us) s = run_uses us (wake_waker d s)
run_uses (wake_by_ref d ∷ us) s = run_uses us (wake_by_ref_waker d s)
run_uses (drop d ∷ us) s = run_uses us (drop_waker d s)

pub data Poll (A : Type 0) : Type 0 where
  pending : Poll A
  ready : A → Poll A

-- A poll of an object of tokio with a waker: its answer, and how it uses wakers meanwhile.
abbrev pub Polls : Type 0 → Type 0 → Type 0
Polls W A = ℕ → W → Poll A × List Use × W

-- `get_task_cx`, and `poll_in_task_cx`: the waker that is made for the call is dropped after it.
unfoldable pub get_task_cx : {W A : Type 0} → ℕ → Polls W A → Store × W → Poll A × (Store × W)
unfolding relay_waker run_uses drop_waker
get_task_cx p f (s, w) =
    let d = length s.relays in
    let (answer, uses, w') = f d w in (answer, (drop_waker d (run_uses uses (relay_waker p s)), w'))
