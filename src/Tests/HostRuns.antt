-- ===== src/Tests/HostRuns.antt =====
-- A table with a vacant slot, and a context with a reply channel.
use wapo.Prelude.{replicate, ◌≡◌, refl, arith, List, [], ◌∷◌, Option, none, some, true, false}
use wapo.Host.Memory.{MemoryPool, Memory, Request, new_pool, resize, pop, new_memory}
use wapo.Host.Memory.Isolation.{new_memory-zero}
use wapo.Host.Memory.Supply.{Supply, here, next, grants, IsConserved, pool-IsConserved}
use wapo.Metrics.{default_meter}
use wapo.Host.TaskSet.{with_task0}
use wapo.Host.Resources.{Resource, push, get_mut}
use wapo.Host.Context.{WapoCtx, push_query, PushError}
use wapo.Host.Context.Replies.{SameOpen, push_query-SameOpen}

-- What a run computes with.
program : Unit {0}
unfolding push push_query get_mut new_pool resize pop new_memory
program = tt

abbrev table : List (Option Resource)
table = some (Resource.sleep 1) ∷ none ∷ some (Resource.oneshot_tx (some 3)) ∷ []

abbrev context : WapoCtx
context = record {
  resources = table;
  temp_return_value = none;
  ocall_trace_enabled = false;
  query_tx = some 4;
  http_connect_tx = none;
  tasks = with_task0;
  weight = 1;
  meter = default_meter 0;
}

push_query-SameOpen_example : SameOpen table (push_query (λ tx id. false) 7 context).1.resources
unfolding program
push_query-SameOpen_example =
    push_query-SameOpen (λ tx id. false) 7 PushError.not_sent context (omega arith) refl

abbrev request : Request
request = record {
  is_64 = false;
  is_shared = false;
  minimum = 2;
  maximum = none;
  reserved_size = none;
  guard_size = 0;
}

-- A pool of one memory, which its last user has left dirty.
abbrev dirty : MemoryPool
dirty = record { limit = 4; pool = some ((9 ∷ 9 ∷ 9 ∷ []) ∷ []) }

abbrev granted : Memory
granted = record { limit = 4; memory = 0 ∷ 0 ∷ []; pooled = true }

new_memory-zero_example : granted.memory ≡ replicate 2 0
unfolding program
new_memory-zero_example = new_memory-zero request dirty granted refl

abbrev supplied : Supply
supplied = record { pool = record { limit = 4; pool = some [] }; live = granted ∷ [] }

pool-IsConserved_example : IsConserved 1 supplied
unfolding program
pool-IsConserved_example =
    pool-IsConserved 4 1 supplied (omega arith)
      (next here (grants request granted (record { limit = 4; pool = some [] }) refl))
