-- ===== src/Guest/Wakers.antt =====
-- wapo-env/src/tasks.rs, WAKERS and CACHED_WAKER_IDS: the table that gives the guest's wakers the ids
-- under which the host knows them. A waker is known by the data word of its `RawWaker`. Ids stay far
-- below i32::MAX, and so are plain numbers.
pub mod Free
use wapo.Prelude.{
  ℕ, suc, ◌+◌, ltb, leb, ◌==◌, if◌then◌else◌, List, [], ◌∷◌, ◌++◌, Option, none, some, length, set,
  get_elem?,
}

pub record Wakers : Type 0 where
  pub wakers : List (Option ℕ)
  pub cached : List ℕ

-- `MAX_CACHE_WAKER_IDS`.
abbrev pub max_cache_waker_ids : ℕ
max_cache_waker_ids = 1024

-- `MAX_N_WAKERS`, `i32::MAX / 2`.
abbrev pub max_n_wakers : ℕ
max_n_wakers = 0x3fff_ffff

unfoldable pub maybe_cache_waker_id : ℕ → List ℕ → List ℕ
maybe_cache_waker_id waker_id ids =
    if ltb (length ids) max_cache_waker_ids then ids ++ waker_id ∷ [] else ids

-- The loop of `get_free_waker_id` over the vacant slots from the one with the number `id` on.
unfoldable pub collect_vacant : ℕ → List (Option ℕ) → List ℕ → List ℕ
collect_vacant id [] ids = ids
collect_vacant id (some w ∷ ws) ids = collect_vacant (suc id) ws ids
collect_vacant id (none ∷ ws) ids =
    let rest = collect_vacant (suc id) ws (ids ++ id ∷ []) in
    if leb max_cache_waker_ids (length ids + 1) then ids ++ id ∷ [] else rest

-- `ids.pop_front()`.
abbrev pub pop_front {ℓ} : {A : Type ℓ} → List A → Option A × List A
pop_front [] = (none, [])
pop_front (x ∷ xs) = (some x, xs)

unfoldable pub get_free_waker_id : Wakers → Option ℕ × List ℕ
unfolding collect_vacant
get_free_waker_id g =
    pop_front (if length g.cached == 0 then collect_vacant 0 g.wakers [] else g.cached)

-- `none` is a panic: an index out of range, or too many wakers.
unfoldable pub place_waker : ℕ → List (Option ℕ) → Option ℕ × List ℕ → Option (ℕ × Wakers)
place_waker waker wakers (some id, ids) =
    if ltb id (length wakers)
    then some (id, record { wakers = set wakers id (some waker); cached = ids })
    else none
place_waker waker wakers (none, ids) =
    if ltb (length wakers) max_n_wakers
    then some (length wakers, record { wakers = wakers ++ some waker ∷ []; cached = ids })
    else none

unfoldable pub intern_waker : ℕ → Wakers → Option (ℕ × Wakers)
unfolding get_free_waker_id place_waker
intern_waker waker g = place_waker waker g.wakers (get_free_waker_id g)

-- The waker that is woken, if the id has one.
unfoldable pub wake_waker : ℕ → Wakers → Option ℕ
wake_waker waker_id g = elim (get_elem? g.wakers waker_id) [ none ↦ none | some w ↦ w ]

unfoldable pub drop_waker : ℕ → Wakers → Wakers
unfolding maybe_cache_waker_id
drop_waker waker_id g = elim (get_elem? g.wakers waker_id) [
  | none ↦ g
  | some w ↦ record {
    wakers = set g.wakers waker_id none;
    cached = maybe_cache_waker_id waker_id g.cached;
  }
]
