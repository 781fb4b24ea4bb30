-- ===== src/Worker/Locks.antt =====
-- wapod/src/state.rs, `SharedState`: the named locks of an instance. `start_app` makes a new set for each
-- instance that it starts; its restarts and the clones of its calls share that one. A path is its UTF-8
-- bytes. The set of locks is a list without a path twice.
pub mod Exclusion
use wapo.Prelude.{ℕ, ltb, ◌==◌, if◌then◌else◌, List, [], ◌∷◌, Bool, true, false, ◌&&◌, ◌||◌, length}

-- The comparison of two strings.
unfoldable pub same_path : List ℕ → List ℕ → Bool
same_path [] [] = true
same_path [] (y ∷ ys) = false
same_path (x ∷ xs) [] = false
same_path (x ∷ xs) (y ∷ ys) = x == y && same_path xs ys

-- `locks.contains(path)`.
unfoldable pub contains : List ℕ → List (List ℕ) → Bool
contains path [] = false
contains path (p ∷ ps) = same_path p path || contains path ps

-- `locks.remove(path)`.
unfoldable pub remove_lock : List ℕ → List (List ℕ) → List (List ℕ)
remove_lock path [] = []
remove_lock path (p ∷ ps) = if same_path p path then ps else p ∷ remove_lock path ps

unfoldable pub try_lock : List ℕ → List (List ℕ) → Bool × List (List ℕ)
unfolding contains
try_lock path locks =
    if ltb 64 (length path)
    then (false, locks)
    else if ltb 64 (length locks)
    then (false, locks)
    else if contains path locks
    then (false, locks)
    else (true, path ∷ locks)

unfoldable pub unlock : List ℕ → List (List ℕ) → Bool × List (List ℕ)
unfolding contains remove_lock
unlock path locks = (contains path locks, remove_lock path locks)

-- The sets of the instances, by the number of the start.
abbrev pub Sets : Type 0
Sets = ℕ → List (List ℕ)

abbrev pub with_set : ℕ → List (List ℕ) → Sets → Sets
with_set i locks sets j = if i == j then locks else sets j

-- An instance starts, with `AppRuntimeCalls::new`; or an instance calls one of the two.
pub data Event : Type 0 where
  starts : ℕ → Event
  locks unlocks : ℕ → List ℕ → Event

unfoldable pub lock_step : Event → Sets → Sets
unfolding try_lock unlock
lock_step (starts i) sets = with_set i [] sets
lock_step (locks i path) sets = with_set i (try_lock path (sets i)).1 sets
lock_step (unlocks i path) sets = with_set i (unlock path (sets i)).1 sets

unfoldable pub run : List Event → Sets → Sets
unfolding lock_step
run [] sets = sets
run (e ∷ es) sets = run es (lock_step e sets)
