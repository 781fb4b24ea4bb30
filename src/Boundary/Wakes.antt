-- ===== src/Boundary/Wakes.antt =====
-- What the protocol gives: handles never share an id, and a wake-up reaches its waker.
use mathlib.Core.List.{Mem, Nodup, map-append, map-map, mem-append_left, mem-map_of_mem}
use wapo.Prelude.{◌≡◌, ap, subst, ◌∙◌, ◌++◌, map, some}
use wapo.Guest.Wakers.{wake_waker}
use wapo.Guest.Wakers.Free.{wake_waker-slot}
use wapo.Boundary.Entries.{entries, drops, wakes_of, ids}
use wapo.Boundary.Ownership.{Steps-IsOwned, fresh-IsOwned, process_events-Owned}
use wapo.Boundary.{Handle, System, Steps, fresh, raw, process_events}

all_ids :
    (s : System)
    → ids (entries s.handles ++ drops s.events)
      ≡ map (λ h. h.id) s.handles ++ map (λ e. e.0) (drops s.events)
all_ids s =
    map-append (λ e. e.0) (entries s.handles) (drops s.events)
    ∙ ap (λ l. l ++ ids (drops s.events)) (map-map (λ e. e.0) (λ h. (h.id, h.waker)) s.handles)

-- In every state that a new instance can reach, the handles of the host have ids that differ from one
-- another and from those of the drops still queued; and the slot of a handle's id holds the waker for
-- which the guest interned it.
pub handles_own_slots :
    (s : System)
    → Steps fresh s
    → Nodup (map (λ h. h.id) s.handles ++ map (λ e. e.0) (drops s.events))
      × ((h : Handle) → Mem h s.handles → wake_waker h.id s.guest ≡ some h.waker)
handles_own_slots s r =
    let o = Steps-IsOwned r fresh-IsOwned in
    (
      subst Nodup (all_ids s) o.distinct,
      λ h m.
          wake_waker-slot h.id h.waker s.guest
            (o.slots (h.id, h.waker) (mem-append_left _ (mem-map_of_mem (λ h. (h.id, h.waker)) m))),
    )

-- In every state that a new instance can reach, a round of `wapo_poll` wakes exactly the wakers of the
-- handles through which the host woke since the last round, in that order, each the one for
-- which the guest interned the handle's id, though ids are reused.
pub process_events-wakes :
    (s : System) → Steps fresh s → (process_events (raw s.events) s.guest).0 ≡ wakes_of s.events
process_events-wakes s r =
    (process_events-Owned s.guest (entries s.handles) s.events (Steps-IsOwned r fresh-IsOwned)).0
