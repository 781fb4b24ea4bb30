-- ===== src/Prices/Cost.antt =====
-- What `Prices::cost_of` of wapod-types/src/ticket.rs computes.
use wapo.Prelude.{ℕ, ◌+◌, ◌*◌, ◌/◌, ◌≡◌, ap, ◌∙◌, Option, none, some, min, u128_max, arith}
use wapo.Prices.{Prices, AppMetrics, add_mul, cost_of}

-- The exact due for a usage; nothing without a price.
abbrev pub due : Option ℕ → ℕ → ℕ
due none usage = 0
due (some price) usage = price * usage

add_mul-min :
    (total : ℕ) (price : Option ℕ) (usage : ℕ)
    → add_mul (min u128_max total) price usage ≡ min u128_max (total + due price usage)
unfolding add_mul
add_mul-min total none usage = omega arith
add_mul-min total (some price) usage = ground arith

-- The cost of metrics is the exact sum of all nine charges, or the largest balance if the sum is
-- larger; it never wraps around.
pub cost_of-total :
    (p : Prices) (m : AppMetrics)
    → cost_of p m
      ≡ min u128_max (
          due p.general_fee_per_second (m.running_time_ms / 1000)
          + due p.gas_price m.gas_consumed
          + due p.net_ingress_price m.network_ingress
          + due p.net_egress_price m.network_egress
          + due p.storage_read_price m.storage_read
          + due p.storage_write_price m.storage_write
          + due p.storage_price m.storage_used
          + due p.memory_price m.memory_used
          + due p.tip_price m.tip)
unfolding cost_of
cost_of-total p m =
    let step = λ (price : Option ℕ) (usage a b : ℕ) (h : a ≡ min u128_max b).
      ap (λ t. add_mul t price usage) h ∙ add_mul-min b price usage in
    let s₁ = step p.general_fee_per_second (m.running_time_ms / 1000) 0 0 (omega arith) in
    let s₂ = step p.gas_price m.gas_consumed _ _ s₁ in
    let s₃ = step p.net_ingress_price m.network_ingress _ _ s₂ in
    let s₄ = step p.net_egress_price m.network_egress _ _ s₃ in
    let s₅ = step p.storage_read_price m.storage_read _ _ s₄ in
    let s₆ = step p.storage_write_price m.storage_write _ _ s₅ in
    let s₇ = step p.storage_price m.storage_used _ _ s₆ in
    let s₈ = step p.memory_price m.memory_used _ _ s₇ in
    step p.tip_price m.tip _ _ s₈ ∙ ap (min u128_max) (omega arith)
