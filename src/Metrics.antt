-- ===== src/Metrics.antt =====
-- wapo-host/src/runtime/metrics.rs: the counters of one run (`Meter`) and their sum over the runs of
-- an app (`Metrics`). A counter is a u64 kept as a number; instants and durations are nanoseconds.
pub mod Total
pub mod Tip
use wapo.Prelude.{
  ℕ, ◌+◌, ◌-◌, ◌*◌, ◌%◌, List, [], ◌∷◌, Bool, true, false, leb, if◌then◌else◌, saturating_add,
  u64_max, u64_mod,
}

pub record Metrics : Type 0 where
  pub gas_consumed : ℕ
  pub net_egress : ℕ
  pub net_ingress : ℕ
  pub storage_read : ℕ
  pub storage_written : ℕ
  pub storage_used : ℕ
  pub memory_used : ℕ
  pub starts : ℕ
  pub tip : ℕ
  pub duration : ℕ

-- `Duration::MAX`: u64::MAX seconds and 999_999_999 nanoseconds.
abbrev pub duration_max : ℕ
duration_max = u64_max * 1_000_000_000 + 999_999_999

-- `Metrics::default()`.
abbrev pub default_metrics : Metrics
default_metrics = record {
  gas_consumed = 0;
  net_egress = 0;
  net_ingress = 0;
  storage_read = 0;
  storage_written = 0;
  storage_used = 0;
  memory_used = 0;
  starts = 0;
  tip = 0;
  duration = 0;
}

-- `Metrics::merge`, which `merged`, `+` and `+=` all call.
unfoldable pub merge : Metrics → Metrics → Metrics
merge self other = record {
  gas_consumed = saturating_add u64_max self.gas_consumed other.gas_consumed;
  net_egress = saturating_add u64_max self.net_egress other.net_egress;
  net_ingress = saturating_add u64_max self.net_ingress other.net_ingress;
  storage_read = saturating_add u64_max self.storage_read other.storage_read;
  storage_written = saturating_add u64_max self.storage_written other.storage_written;
  storage_used = 0;
  memory_used = saturating_add u64_max self.memory_used other.memory_used;
  starts = saturating_add u64_max self.starts other.starts;
  tip = saturating_add u64_max self.tip other.tip;
  duration = saturating_add duration_max self.duration other.duration;
}

-- `values().fold(init, Add::add)`.
unfoldable pub merge_all : Metrics → List Metrics → Metrics
merge_all init [] = init
merge_all init (m ∷ ms) = merge_all (merge init m) ms

pub record Meter : Type 0 where
  pub created_at : ℕ
  pub gas_consumed : ℕ
  pub memory_used : ℕ
  pub net_egress : ℕ
  pub net_ingress : ℕ
  pub storage_read : ℕ
  pub storage_written : ℕ
  pub tip : ℕ
  pub stopped : Bool

-- `Meter::default()` at the instant `now`.
abbrev pub default_meter : ℕ → Meter
default_meter now = record {
  created_at = now;
  gas_consumed = 0;
  memory_used = 0;
  net_egress = 0;
  net_ingress = 0;
  storage_read = 0;
  storage_written = 0;
  tip = 0;
  stopped = false;
}

-- `AtomicU64::fetch_add` wraps around.
abbrev pub fetch_add : ℕ → ℕ → ℕ
fetch_add counter n = (counter + n) % u64_mod

unfoldable pub set_gas_consumed : ℕ → Meter → Meter
set_gas_consumed gas m = record m { gas_consumed = gas }

unfoldable pub record_gas : ℕ → Meter → Meter
record_gas gas m = record m { gas_consumed = fetch_add m.gas_consumed gas }

unfoldable pub record_net_egress : ℕ → Meter → Meter
record_net_egress bytes m = record m { net_egress = fetch_add m.net_egress bytes }

unfoldable pub record_net_ingress : ℕ → Meter → Meter
record_net_ingress bytes m = record m { net_ingress = fetch_add m.net_ingress bytes }

unfoldable pub record_storage_read : ℕ → Meter → Meter
record_storage_read bytes m = record m { storage_read = fetch_add m.storage_read bytes }

unfoldable pub record_storage_written : ℕ → Meter → Meter
record_storage_written bytes m = record m { storage_written = fetch_add m.storage_written bytes }

unfoldable pub record_tcp_connect_start : Meter → Meter
unfolding record_net_egress
record_tcp_connect_start = record_net_egress 512

unfoldable pub record_tls_connect_start : Meter → Meter
unfolding record_net_egress
record_tls_connect_start = record_net_egress 4096

unfoldable pub record_tcp_connect_done : Meter → Meter
unfolding record_net_ingress
record_tcp_connect_done = record_net_ingress 512

unfoldable pub record_tls_connect_done : Meter → Meter
unfolding record_net_ingress
record_tls_connect_done = record_net_ingress 4096

unfoldable pub record_tcp_shutdown : Meter → Meter
unfolding record_net_egress
record_tcp_shutdown = record_net_egress 128

-- The two atomic accesses of `add_tip`: the wrapping addition, with the answer whether
-- `previous.checked_add(value)` fails; and the store that follows if it does.
unfoldable pub tip_fetch : ℕ → Meter → Meter × Bool
tip_fetch value m =
    (record m { tip = fetch_add m.tip value }, if leb (m.tip + value) u64_max then false else true)

unfoldable pub tip_store : Meter → Meter
tip_store m = record m { tip = u64_max }

unfoldable pub add_tip : ℕ → Meter → Meter
unfolding tip_fetch tip_store
add_tip value m = let (m', overflow) = tip_fetch value m in if overflow then tip_store m' else m'

unfoldable pub stop : Meter → Meter
stop m = record m { stopped = true }

-- `Meter::to_metrics` at the instant `now`; `Instant::elapsed` stops at zero.
unfoldable pub to_metrics : ℕ → Meter → Metrics
to_metrics now m = record {
  gas_consumed = m.gas_consumed;
  memory_used = m.memory_used;
  net_egress = m.net_egress;
  net_ingress = m.net_ingress;
  storage_read = m.storage_read;
  storage_written = m.storage_written;
  storage_used = 0;
  tip = m.tip;
  starts = 1;
  duration = now - m.created_at;
}
