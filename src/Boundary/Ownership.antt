-- ===== src/Boundary/Ownership.antt =====
-- Every id in use has one owner, a handle or a drop event, and its slot holds the owner's waker.
use mathlib.Core.List.{
  Mem, Nodup, map-append, append-nil, Nodup-cons, Nodup-nil, not-mem-nil, mem-cons_of_mem,
  mem-map_of_mem, mem-cons_self, perm_middle, mem-cons, mem-map,
}
use mathlib.Core.List.Perm
use mathlib.Core.Logic.{∥∥₁_elim}
use mathlib.Core.Logic.Or
use mathlib.Core.HLevel.{⊥_prop}
use wapo.Prelude.{
  ℕ, ◌≡◌, ◌≢◌, refl, sym, ap, subst, ◌∙◌, List, [], ◌∷◌, ◌++◌, Option, some, get_elem?,
}
use wapo.Prelude.Int.{ℤ, pos, negsuc}
use wapo.Guest.Wakers.{Wakers, drop_waker}
use wapo.Guest.Wakers.Free.{
  IsFree, Interned, intern_waker-Interned, drop_waker-IsFree, drop_waker-others, wake_waker-slot,
}
use wapo.Boundary.Entries.{
  Entry, entries, drops, wakes_of, ids, InTime, drops-append, InTime-append, InTime-cons, move_last,
}
use wapo.Boundary.{
  Handle, System, Step, Steps, fresh, raw, process_events, register, clones, releases, expires,
  wakes, polls, here, next,
}

-- What holds between the table, the entries of the handles, and the events.
pub record Owned (g : Wakers) (hs : List Entry) (es : List (ℤ × ℕ)) : Type 0 where
  pub free : IsFree g
  pub slots : (e : Entry) → Mem e (hs ++ drops es) → get_elem? g.wakers e.0 ≡ some (some e.1)
  pub distinct : Nodup (ids (hs ++ drops es))
  pub in_time : InTime hs es

-- Dropping the owner of an id leaves the other slots alone.
drop-Owned :
    (g : Wakers) (hs : List Entry) (n w : ℕ) (es : List (ℤ × ℕ))
    → Owned g hs ((negsuc n, w) ∷ es)
    → Owned (drop_waker n g) hs es
drop-Owned g hs n w es o =
    let middle = perm_middle {a = (n, w)} hs (drops es) in
    let all : Nodup (n ∷ ids (hs ++ drops es)) =
      Perm.nodup (Perm.map (λ e. e.0) middle) o.distinct in
    let slot = o.slots (n, w) ((Perm.mem_iff middle).1 mem-cons_self) in
    record {
      free = drop_waker-IsFree n w g slot o.free;
      slots = λ e m.
          drop_waker-others n e.0 g (λ h.
            (Nodup-cons.0 all).0
              (subst (λ k. Mem k (ids (hs ++ drops es))) h (mem-map_of_mem (λ e. e.0) m)))
          ∙ o.slots e ((Perm.mem_iff middle).1 (mem-cons_of_mem (n, w) m));
      distinct = (Nodup-cons.0 all).1;
      in_time = o.in_time;
    }

-- Working through the events wakes the wakers of the wake events, in order.
pub process_events-Owned :
    (g : Wakers) (hs : List Entry) (es : List (ℤ × ℕ))
    → Owned g hs es
    → ((process_events (raw es) g).0 ≡ wakes_of es) × Owned (process_events (raw es) g).1 hs []
unfolding process_events
process_events-Owned g hs [] o = (refl, o)
process_events-Owned g hs ((pos id, w) ∷ es) o =
    let rest =
      process_events-Owned g hs es
        (record { free = o.free; slots = o.slots; distinct = o.distinct; in_time = o.in_time.1 }) in
    (
      rw (wake_waker-slot id w g (o.slots (id, w) o.in_time.0), process_events) (ap (◌∷◌ w) rest.0),
      rest.1,
    )
process_events-Owned g hs ((negsuc n, w) ∷ es) o =
    process_events-Owned (drop_waker n g) hs es (drop-Owned g hs n w es o)

abbrev pub IsOwned : System → Type 0
IsOwned s = Owned s.guest (entries s.handles) s.events

slot_set : IsSet (Option (Option ℕ))
slot_set = hlevel

register-Owned :
    (g g' : Wakers) (hs : List Entry) (es : List (ℤ × ℕ)) (waker id : ℕ)
    → Interned waker id g g'
    → Owned g hs es
    → Owned g' ((id, waker) ∷ hs) es
register-Owned g g' hs es waker id n o = record {
  free = n.free;
  slots = λ e m.
      Or.elim (slot_set _ _) (mem-cons.0 m)
        (λ p.
          ap (λ (x : Entry). get_elem? g'.wakers x.0) p
          ∙ n.stored
          ∙ ap (λ (x : Entry). some (some x.1)) (sym p))
        (λ r. n.others e.0 (old e r) ∙ o.slots e r);
  distinct = Nodup-cons.1 (λ m. ∥∥₁_elim (mem-map.0 m) ⊥_prop (λ (e, r, p). old e r p), o.distinct);
  in_time = InTime-cons (id, waker) hs es o.in_time;
}
  where
    old : (e : Entry) → Mem e (hs ++ drops es) → e.0 ≢ id
    old e r p = n.unused e.1 (subst (λ k. get_elem? g.wakers k ≡ some (some e.1)) p (o.slots e r))

expires-Owned :
    (g : Wakers) (before after : List Entry) (es : List (ℤ × ℕ)) (id w : ℕ)
    → Owned g (before ++ (id, w) ∷ after) es
    → Owned g (before ++ after) (es ++ (negsuc id, w) ∷ [])
expires-Owned g before after es id w o =
    let moved = move_last before after (drops es) (id, w) in
    let d = drops-append es ((negsuc id, w) ∷ []) in
    record {
      free = o.free;
      slots = λ e m.
          o.slots e ((Perm.mem_iff moved).1 (subst (λ ds. Mem e ((before ++ after) ++ ds)) d m));
      distinct =
          subst (λ ds. Nodup (ids ((before ++ after) ++ ds))) (sym d)
            (Perm.nodup (Perm.map (λ e. e.0) moved) o.distinct);
      in_time =
          InTime-append _ _ es ((negsuc id, w) ∷ [])
            (λ x ds. (Perm.mem_iff (move_last before after ds (id, w))).0) o.in_time tt;
    }

wakes-Owned :
    (g : Wakers) (hs : List Entry) (es : List (ℤ × ℕ)) (id w : ℕ)
    → Mem (id, w) hs
    → Owned g hs es
    → Owned g hs (es ++ (pos id, w) ∷ [])
wakes-Owned g hs es id w m o =
    let d = drops-append es ((pos id, w) ∷ []) ∙ append-nil (drops es) in
    record {
      free = o.free;
      slots = λ e k. o.slots e (subst (λ ds. Mem e (hs ++ ds)) d k);
      distinct = subst (λ ds. Nodup (ids (hs ++ ds))) (sym d) o.distinct;
      in_time =
          InTime-append hs hs es ((pos id, w) ∷ []) (λ x ds k. rw append-nil k) o.in_time
            (rw append-nil m, tt);
    }

same_entries :
    (s : System) (before after : List Handle) (h h' : Handle)
    → s.handles ≡ before ++ h ∷ after
    → ◌≡◌ {A = Entry} (h'.id, h'.waker) (h.id, h.waker)
    → IsOwned s
    → IsOwned (record s { handles = before ++ h' ∷ after })
same_entries s before after h h' e p o = subst (λ hs. Owned s.guest hs s.events) q o
  where
    q : entries s.handles ≡ entries (before ++ h' ∷ after)
    q = rw (e, map-append, map-append, p)

Step-IsOwned : {s t : System} → Step s t → IsOwned s → IsOwned t
Step-IsOwned {s} (register waker id g e) o =
    register-Owned s.guest g (entries s.handles) s.events waker id
      (intern_waker-Interned waker id s.guest g o.free e) o
Step-IsOwned {s} (clones before after h e) o = same_entries s before after h _ e refl o
Step-IsOwned {s} (releases before after h n e r) o = same_entries s before after h _ e refl o
Step-IsOwned {s} (expires before after h e r) o =
    let o' = subst (λ hs. Owned s.guest (entries hs) s.events) e o in
    rw (map-append) (
      expires-Owned s.guest (entries before) (entries after) s.events h.id h.waker
        (rw map-append at o'))
Step-IsOwned {s} (wakes h m) o =
    wakes-Owned s.guest (entries s.handles) s.events h.id h.waker (mem-map_of_mem _ m) o
Step-IsOwned {s} polls o = (process_events-Owned s.guest (entries s.handles) s.events o).1

pub fresh-IsOwned : IsOwned fresh
fresh-IsOwned = record {
  free = record { vacant = tt; distinct = tt };
  slots = λ e m. absurd (not-mem-nil m);
  distinct = Nodup-nil;
  in_time = tt;
}

pub Steps-IsOwned : {s t : System} → Steps s t → IsOwned s → IsOwned t
Steps-IsOwned here o = o
Steps-IsOwned (next r st) o = Step-IsOwned st (Steps-IsOwned r o)
