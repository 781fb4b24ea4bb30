-- ===== src/Boundary.antt =====
-- How guest and host share wakers: tasks.rs (the event loop of `wapo_poll`) together with
-- async_context.rs (`GuestWaker`), as one system of steps.
pub mod Entries
pub mod Ownership
pub mod Wakes
pub mod Polls
use mathlib.Core.List.{Mem}
use wapo.Prelude.{ℕ, suc, ◌≡◌, List, [], ◌∷◌, ◌++◌, map, Option, none, some}
use wapo.Prelude.Int.{ℤ, pos, negsuc, neg_one_minus, pos_part}
use wapo.Guest.Wakers.{Wakers, intern_waker, wake_waker, drop_waker}

-- `wapo_poll`'s loop over the events: the wakers that it wakes, in order, and the table after it.
unfoldable pub process_events : List ℤ → Wakers → List ℕ × Wakers
process_events [] g = ([], g)
process_events (pos id ∷ es) g =
    let (woken, g') = process_events es g in
    (elim (wake_waker id g) [ none ↦ woken | some w ↦ w ∷ woken ], g')
process_events (negsuc n ∷ es) g =
    process_events es (drop_waker (pos_part (neg_one_minus (negsuc n))) g)

-- A `GuestWakerInner`: its id, the number of its clones, and the waker for which the guest interned
-- the id (which the host does not know).
pub record Handle : Type 0 where
  pub id : ℕ
  pub refs : ℕ
  pub waker : ℕ

-- The guest's table, the handles of the host, and the events of `awake_wakers`, each with the waker of
-- the handle that caused it.
pub record System : Type 0 where
  pub guest : Wakers
  pub handles : List Handle
  pub events : List (ℤ × ℕ)

abbrev pub raw : List (ℤ × ℕ) → List ℤ
raw = map (λ e. e.0)

pub data Step (s : System) : System → Type 0 where
  -- An ocall that polls: the guest interns a waker, and the host makes a handle for its id.
  register :
      (waker id : ℕ) (g : Wakers)
      → intern_waker waker s.guest ≡ some (id, g)
      → Step s (record s {
        guest = g;
        handles = record { id = id; refs = 1; waker = waker } ∷ s.handles;
      })
  -- A clone of a handle.
  clones :
      (before after : List Handle) (h : Handle)
      → s.handles ≡ before ++ h ∷ after
      → Step s (record s { handles = before ++ record h { refs = suc h.refs } ∷ after })
  -- A clone is dropped, and another remains.
  releases :
      (before after : List Handle) (h : Handle) (n : ℕ)
      → s.handles ≡ before ++ h ∷ after
      → h.refs ≡ suc (suc n)
      → Step s (record s { handles = before ++ record h { refs = suc n } ∷ after })
  -- The last clone is dropped.
  expires :
      (before after : List Handle) (h : Handle)
      → s.handles ≡ before ++ h ∷ after
      → h.refs ≡ 1
      → Step s (record s {
        handles = before ++ after;
        events = s.events ++ (neg_one_minus (pos h.id), h.waker) ∷ [];
      })
  -- `wake_by_ref` of a handle.
  wakes :
      (h : Handle)
      → Mem h s.handles
      → Step s (record s { events = s.events ++ (pos h.id, h.waker) ∷ [] })
  -- A round of `wapo_poll` takes all events and works through them.
  polls : Step s (record s { guest = (process_events (raw s.events) s.guest).1; events = [] })

pub data Steps (s : System) : System → Type 0 where
  here : Steps s s
  next : {t u : System} → Steps s t → Step t u → Steps s u

-- A new instance.
abbrev pub fresh : System
fresh = record { guest = record { wakers = []; cached = [] }; handles = []; events = [] }
