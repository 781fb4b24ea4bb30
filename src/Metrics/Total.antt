-- ===== src/Metrics/Total.antt =====
-- What a fold of `merge` computes: each counter is the exact sum, cut off at the type's maximum.
use mathlib.Core.List.{Perm, Permᴰ}
use mathlib.Core.Logic.{∥∥₁_elim}
use wapo.Prelude.{
  ℕ, ◌+◌, ◌≤◌, ◌≡◌, refl, ap, ap₂, ◌∙◌, List, [], ◌∷◌, map, arith, min, saturating_add, u64_max,
}
use wapo.Metrics.{Metrics, duration_max, merge, merge_all}

abbrev pub sum : List ℕ → ℕ
sum [] = 0
sum (x ∷ xs) = x + sum xs

-- A counter of a fold, if the counter of `merge` is a saturating addition.
counter_of_fold :
    (top : ℕ) (field : Metrics → ℕ)
    → ((a b : Metrics) → field (merge a b) ≡ saturating_add top (field a) (field b))
    → (init : Metrics) (ms : List Metrics) → field init ≤ top
    → field (merge_all init ms) ≡ min top (field init + sum (map field ms))
unfolding merge_all
counter_of_fold top field step init [] h = omega arith
counter_of_fold top field step init (m ∷ ms) h =
    ground (arith, step init m, counter_of_fold top field step (merge init m) ms)

-- Every counter of a metrics record is within its type.
pub record InRange (m : Metrics) : Type 0 where
  pub gas_consumed : m.gas_consumed ≤ u64_max
  pub net_egress : m.net_egress ≤ u64_max
  pub net_ingress : m.net_ingress ≤ u64_max
  pub storage_read : m.storage_read ≤ u64_max
  pub storage_written : m.storage_written ≤ u64_max
  pub memory_used : m.memory_used ≤ u64_max
  pub starts : m.starts ≤ u64_max
  pub tip : m.tip ≤ u64_max
  pub duration : m.duration ≤ duration_max

abbrev Capped : ℕ → (Metrics → ℕ) → Metrics → List Metrics → Metrics → Type 0
Capped top field init ms r = field r ≡ min top (field init + sum (map field ms))

-- `r` holds the sum of `init` and all of `ms`, counter by counter, capped at the type's maximum.
pub record IsTotal (init : Metrics) (ms : List Metrics) (r : Metrics) : Type 0 where
  pub gas_consumed : Capped u64_max (λ m. m.gas_consumed) init ms r
  pub net_egress : Capped u64_max (λ m. m.net_egress) init ms r
  pub net_ingress : Capped u64_max (λ m. m.net_ingress) init ms r
  pub storage_read : Capped u64_max (λ m. m.storage_read) init ms r
  pub storage_written : Capped u64_max (λ m. m.storage_written) init ms r
  pub memory_used : Capped u64_max (λ m. m.memory_used) init ms r
  pub starts : Capped u64_max (λ m. m.starts) init ms r
  pub tip : Capped u64_max (λ m. m.tip) init ms r
  pub duration : Capped duration_max (λ m. m.duration) init ms r

-- If every counter of `init` is within its type, then folding `merge` over any list of metrics
-- gives in each counter but `storage_used` the sum of all of them, or the maximum of the counter's
-- type where the sum is larger.
pub merge_all-IsTotal :
    (init : Metrics) (ms : List Metrics) → InRange init → IsTotal init ms (merge_all init ms)
unfolding merge
merge_all-IsTotal init ms h = record {
  gas_consumed = counter_of_fold _ (λ m. m.gas_consumed) (λ a b. refl) init ms h.gas_consumed;
  net_egress = counter_of_fold _ (λ m. m.net_egress) (λ a b. refl) init ms h.net_egress;
  net_ingress = counter_of_fold _ (λ m. m.net_ingress) (λ a b. refl) init ms h.net_ingress;
  storage_read = counter_of_fold _ (λ m. m.storage_read) (λ a b. refl) init ms h.storage_read;
  storage_written =
      counter_of_fold _ (λ m. m.storage_written) (λ a b. refl) init ms h.storage_written;
  memory_used = counter_of_fold _ (λ m. m.memory_used) (λ a b. refl) init ms h.memory_used;
  starts = counter_of_fold _ (λ m. m.starts) (λ a b. refl) init ms h.starts;
  tip = counter_of_fold _ (λ m. m.tip) (λ a b. refl) init ms h.tip;
  duration = counter_of_fold _ (λ m. m.duration) (λ a b. refl) init ms h.duration;
}

saturating_right_comm :
    (top a b c : ℕ)
    → saturating_add top (saturating_add top a b) c ≡ saturating_add top (saturating_add top a c) b
saturating_right_comm top a b c = ground arith

merge_right_comm : (a b c : Metrics) → merge (merge a b) c ≡ merge (merge a c) b
unfolding merge
merge_right_comm a b c = λ i. record {
  gas_consumed = saturating_right_comm u64_max a.gas_consumed b.gas_consumed c.gas_consumed i;
  net_egress = saturating_right_comm u64_max a.net_egress b.net_egress c.net_egress i;
  net_ingress = saturating_right_comm u64_max a.net_ingress b.net_ingress c.net_ingress i;
  storage_read = saturating_right_comm u64_max a.storage_read b.storage_read c.storage_read i;
  storage_written =
      saturating_right_comm u64_max a.storage_written b.storage_written c.storage_written i;
  storage_used = 0;
  memory_used = saturating_right_comm u64_max a.memory_used b.memory_used c.memory_used i;
  starts = saturating_right_comm u64_max a.starts b.starts c.starts i;
  tip = saturating_right_comm u64_max a.tip b.tip c.tip i;
  duration = saturating_right_comm duration_max a.duration b.duration c.duration i;
}

Metrics-set : IsSet Metrics
Metrics-set = hlevel

merge_all-permd :
    {ms ns : List Metrics} → Permᴰ ms ns → (init : Metrics) → merge_all init ms ≡ merge_all init ns
unfolding merge_all
merge_all-permd Permᴰ.nil init = refl
merge_all-permd (Permᴰ.cons {l₁ = l₁} e p) init =
    ap (λ m. merge_all (merge init m) l₁) e ∙ merge_all-permd p (merge init _)
merge_all-permd (Permᴰ.swap {a} {b} {l = l} e f) init =
    ap (λ m. merge_all m l) (merge_right_comm init a b)
    ∙ ap₂ (λ m n. merge_all (merge (merge init m) n) l) f e
merge_all-permd (Permᴰ.trans p q) init = merge_all-permd p init ∙ merge_all-permd q init

-- The metrics of an app are the same in whatever order its runs are merged.
pub merge_all-perm :
    (init : Metrics) (ms ns : List Metrics) → Perm ms ns → merge_all init ms ≡ merge_all init ns
merge_all-perm init ms ns p = ∥∥₁_elim p (Metrics-set _ _) (λ d. merge_all-permd d init)
