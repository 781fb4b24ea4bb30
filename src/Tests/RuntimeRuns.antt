-- ===== src/Tests/RuntimeRuns.antt =====
-- Metrics, the codecs of ocalls, ready tasks and wakers at concrete inputs.
use mathlib.Core.List.{Mem, Nodup, Perm}
use mathlib.Core.List.Perm
use wapo.Prelude.{
  ℕ, ◌-◌, ◌<◌, ◌≡◌, ◌↔◌, refl, arith, min, [], ◌∷◌, ◌++◌, map, none, some, Bool, replicate, u64_max,
  u64_mod,
}
use wapo.Prelude.Int.{pos}
use wapo.Prelude.Result.{Result, err}
use wapo.Metrics.{Metrics, default_metrics, default_meter, merge_all, tip_fetch}
use wapo.Metrics.Total.{IsTotal, merge_all-IsTotal}
use wapo.Metrics.Tip
use wapo.Metrics.Tip.{Race, TipSteps, here, next, fetches, add_tip_concurrent}
use wapo.Env.{OcallError}
use wapo.Env.Codec.Enums.{bool_codec, error_codec}
use wapo.Env.Codec.Return.{encode_ret, decode_ret, decode_ret-encode_ret}
use wapo.Env.Int64.{encode_i64, decode_i64, decode_i64-lossy}
use wapo.Env.Stack.{Shape, ptr, pair, n_args, load, dump, load-dump}
use wapo.Guest.Wakers.{Wakers, intern_waker}
use wapo.Host.TaskSet.{TaskSet}
use wapo.Guest.Wakers.{wake_waker}
use wapo.Boundary.{Handle, System, Steps, fresh, process_events, raw}
use wapo.Boundary
use wapo.Boundary.Entries.{drops, wakes_of}
use wapo.Boundary.Wakes.{handles_own_slots, process_events-wakes}

abbrev used : Metrics
used = record default_metrics { gas_consumed = 50; tip = 3; starts = 1 }

merge_all-IsTotal_example :
    IsTotal used (used ∷ default_metrics ∷ []) (merge_all used (used ∷ default_metrics ∷ []))
merge_all-IsTotal_example = merge_all-IsTotal used (used ∷ default_metrics ∷ []) (record {
  gas_consumed = omega arith;
  net_egress = omega arith;
  net_ingress = omega arith;
  storage_read = omega arith;
  storage_written = omega arith;
  memory_used = omega arith;
  starts = omega arith;
  tip = omega arith;
  duration = omega arith;
})

abbrev tipped : Race
tipped = record { meter = (tip_fetch 5 (default_meter 0)).0; overflowed = 0; tipped = 5 }

add_tip_concurrent_example : tipped.meter.tip ≡ min u64_max 5
unfolding tip_fetch
add_tip_concurrent_example = add_tip_concurrent 0 tipped (next here (fetches (Tip.fresh 0) 5)) refl

abbrev answer : Result OcallError Bool
answer = err OcallError.not_found

decode_ret-encode_ret_example :
    (decode_ret bool_codec error_codec (encode_ret bool_codec error_codec answer) ≡ some answer)
    × (encode_ret bool_codec error_codec answer < u64_mod)
decode_ret-encode_ret_example = decode_ret-encode_ret bool_codec error_codec answer tt

decode_i64-lossy_example : (decode_i64 (encode_i64 1000) ≡ 1000) ↔ (◌≡◌ {A = ℕ} 1000 0)
decode_i64-lossy_example = decode_i64-lossy 1000 (omega arith)

abbrev shape : Shape
shape = pair (pair ptr ptr) ptr

load-dump_example : load shape (dump shape ((4, 5), 6)) ≡ some (((4, 5), 6), replicate (4 - 3) 0)
unfolding n_args
load-dump_example = load-dump shape ((4, 5), 6) (omega arith)

abbrev queued : TaskSet
queued = record { awake_tasks = 0 ∷ 4 ∷ []; awake_wakers = [] }

abbrev table : Wakers
table = record { wakers = some 70 ∷ none ∷ []; cached = 1 ∷ [] }

abbrev filled : Wakers
filled = record { wakers = some 70 ∷ some 80 ∷ []; cached = [] }

-- A handle is made, and wakes.
abbrev handle : Handle
handle = record { id = 0; refs = 1; waker = 80 }

abbrev woken : System
woken = record {
  guest = record { wakers = some 80 ∷ []; cached = [] };
  handles = handle ∷ [];
  events = (pos 0, 80) ∷ [];
}

to_woken : Steps fresh woken
unfolding intern_waker
to_woken =
    Boundary.Steps.next
      (Boundary.Steps.next Boundary.Steps.here
        (Boundary.Step.register 80 0 (record { wakers = some 80 ∷ []; cached = [] }) refl))
      (Boundary.Step.wakes handle mathlib.Core.List.mem-cons_self)

handles_own_slots_example :
    Nodup (map (λ h. h.id) woken.handles ++ map (λ e. e.0) (drops woken.events))
    × ((h : Handle) → Mem h woken.handles → wake_waker h.id woken.guest ≡ some h.waker)
handles_own_slots_example = handles_own_slots woken to_woken

process_events-wakes_example :
    (process_events (raw woken.events) woken.guest).0 ≡ wakes_of woken.events
process_events-wakes_example = process_events-wakes woken to_woken
