-- ===== src/Tests/AccessRuns.antt =====
-- Named locks, and the filter of hosts, at concrete inputs.
use wapo.Prelude.{
  ℕ, List, ap, arith, leb, ◌≡◌, ◌==◌, if◌then◌else◌, refl, [], ◌∷◌, none, some, true, false,
}
use wapo.Worker.Locks.{Sets, Event, starts, locks, unlocks, try_lock, lock_step, run}
use wapo.Worker.Locks.Exclusion.{try_lock-per_instance}
use wapo.Worker.HostFilter.{Ip, is_comment, from_iter, is_host_allowed}
use wapo.Worker.HostFilter.Blacklist.{net4, is_host_allowed-from_iter}

abbrev start_of : Event → ℕ
start_of (starts i) = i
start_of (locks i p) = i
start_of (unlocks i p) = i

abbrev free_sets : Sets
free_sets i = []

abbrev lock_events : List Event
lock_events = locks 1 (2 ∷ []) ∷ starts 4 ∷ unlocks 4 (1 ∷ []) ∷ unlocks 1 (2 ∷ []) ∷ []

try_lock-per_instance_example :
    let later : Sets = run lock_events (lock_step (locks 1 (1 ∷ [])) free_sets) in
    ((try_lock (1 ∷ []) (later 1)).0 ≡ false)
    × ((try_lock (1 ∷ []) (lock_step (starts 5) later 5)).0 ≡ true)
unfolding try_lock
try_lock-per_instance_example =
    try_lock-per_instance 1 5 (1 ∷ []) free_sets lock_events (omega arith) refl (
      ((λ e. cc), (λ e. cc)),
      (
        ((λ e. ground (arith, ap start_of e)), (λ e. cc)),
        (((λ e. cc), (λ e. ground (arith, ap start_of e))), (((λ e. cc), (λ e. cc)), tt)),
      ),
    )

-- Nets are upper bounds of addresses; a line that begins with 4 is a net, and with 5 an address.
abbrev toy_ip : Ip ℕ ℕ ℕ ℕ
toy_ip = record {
  trim = λ l. l;
  parse_net4 = λ l. elim l [ [] ↦ none | x ∷ r ↦ if x == 4 then some 100 else none ];
  parse_net6 = λ l. none;
  parse_ip4 = λ l. elim l [ [] ↦ none | x ∷ r ↦ if x == 5 then some 50 else none ];
  parse_ip6 = λ l. none;
  host4 = λ a. a;
  host6 = λ a. a;
  contains4 = λ n a. leb a n;
  contains6 = λ n a. leb a n;
}

is_host_allowed-from_iter_example :
    is_host_allowed toy_ip (from_iter toy_ip ((7 ∷ []) ∷ (4 ∷ []) ∷ (8 ∷ []) ∷ [])) (5 ∷ []) ≡ false
unfolding is_comment
is_host_allowed-from_iter_example =
    is_host_allowed-from_iter toy_ip ((7 ∷ []) ∷ []) ((8 ∷ []) ∷ []) (4 ∷ []) (5 ∷ []) refl
      (net4 100 50 refl refl refl)
