-- ===== src/Prices.antt =====
-- wapod-types/src/ticket.rs and wapod-types/src/metrics.rs: the prices of a ticket, and what the
-- metrics of an app cost. A `Balance` is a u128 kept as a number.
pub mod Cost
use wapo.Prelude.{
  ℕ, ◌+◌, ◌*◌, ◌/◌, if◌then◌else◌, leb, Option, none, some, saturating_add, u128_max,
}

pub record AppMetrics : Type 0 where
  pub address : ℕ
  pub session : ℕ
  pub running_time_ms : ℕ
  pub gas_consumed : ℕ
  pub network_ingress : ℕ
  pub network_egress : ℕ
  pub storage_read : ℕ
  pub storage_write : ℕ
  pub storage_used : ℕ
  pub memory_used : ℕ
  pub tip : ℕ
  pub starts : ℕ

pub record Prices : Type 0 where
  pub general_fee_per_second : Option ℕ
  pub gas_price : Option ℕ
  pub net_ingress_price : Option ℕ
  pub net_egress_price : Option ℕ
  pub storage_read_price : Option ℕ
  pub storage_write_price : Option ℕ
  pub storage_price : Option ℕ
  pub memory_price : Option ℕ
  pub tip_price : Option ℕ

abbrev pub saturating_mul : ℕ → ℕ → ℕ
saturating_mul a b = if leb (a * b) u128_max then a * b else u128_max

-- The macro `add_mul!` of `cost_of`, with the total before it as its first argument.
unfoldable pub add_mul : ℕ → Option ℕ → ℕ → ℕ
add_mul total none usage = total
add_mul total (some price) usage = saturating_add u128_max total (saturating_mul price usage)

unfoldable pub cost_of : Prices → AppMetrics → ℕ
unfolding add_mul
cost_of self rhs =
    let running_time = rhs.running_time_ms / 1000 in
    let t₁ = add_mul 0 self.general_fee_per_second running_time in
    let t₂ = add_mul t₁ self.gas_price rhs.gas_consumed in
    let t₃ = add_mul t₂ self.net_ingress_price rhs.network_ingress in
    let t₄ = add_mul t₃ self.net_egress_price rhs.network_egress in
    let t₅ = add_mul t₄ self.storage_read_price rhs.storage_read in
    let t₆ = add_mul t₅ self.storage_write_price rhs.storage_write in
    let t₇ = add_mul t₆ self.storage_price rhs.storage_used in
    let t₈ = add_mul t₇ self.memory_price rhs.memory_used in add_mul t₈ self.tip_price rhs.tip

-- `Option::or`.
abbrev pub or {ℓ} : {A : Type ℓ} → Option A → Option A → Option A
or none b = b
or (some a) b = some a

unfoldable pub merge_prices : Prices → Prices → Prices
merge_prices self other = record {
  general_fee_per_second = or self.general_fee_per_second other.general_fee_per_second;
  gas_price = or self.gas_price other.gas_price;
  net_ingress_price = or self.net_ingress_price other.net_ingress_price;
  net_egress_price = or self.net_egress_price other.net_egress_price;
  storage_read_price = or self.storage_read_price other.storage_read_price;
  storage_write_price = or self.storage_write_price other.storage_write_price;
  storage_price = or self.storage_price other.storage_price;
  memory_price = or self.memory_price other.memory_price;
  tip_price = or self.tip_price other.tip_price;
}
