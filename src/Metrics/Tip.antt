-- ===== src/Metrics/Tip.antt =====
-- `Meter::add_tip` under interleaving: any number of calls may stand between their two atomic
-- accesses to the counter.
use wapo.Prelude.{ℕ, ◌+◌, ◌≤◌, ◌≡◌, arith, min, if◌then◌else◌, u64_max}
use wapo.Metrics.{Meter, tip_fetch, tip_store, default_meter}

-- The meter, the number of calls that saw the overflow and have not stored yet, and the exact sum of
-- the values that were tipped.
pub record Race : Type 0 where
  pub meter : Meter
  pub overflowed : ℕ
  pub tipped : ℕ

pub data TipStep : Race → Race → Type 0 where
  fetches :
      (r : Race) (value : ℕ)
      → TipStep r (record {
        meter = (tip_fetch value r.meter).0;
        overflowed = if (tip_fetch value r.meter).1 then r.overflowed + 1 else r.overflowed;
        tipped = r.tipped + value;
      })
  stores :
      (r : Race) (n : ℕ)
      → r.overflowed ≡ n + 1
      → TipStep r (record { meter = tip_store r.meter; overflowed = n; tipped = r.tipped })

pub data TipSteps (s : Race) : Race → Type 0 where
  here : TipSteps s s
  next : {r u : Race} → TipSteps s r → TipStep r u → TipSteps s u

record Inv (r : Race) : Type 0 where
  exact : r.tipped ≤ u64_max → (r.meter.tip ≡ r.tipped) × (r.overflowed ≡ 0)
  capped : u64_max + 1 ≤ r.tipped → r.overflowed ≡ 0 → r.meter.tip ≡ u64_max
  range : r.meter.tip ≤ u64_max

TipStep-Inv : {r u : Race} → TipStep r u → Inv r → Inv u
unfolding tip_fetch tip_store
TipStep-Inv (fetches r value) v = ground (arith, v.exact, v.capped)
TipStep-Inv (stores r n e) v = ground (arith, v.exact)

TipSteps-Inv : {s r : Race} → TipSteps s r → Inv s → Inv r
TipSteps-Inv here v = v
TipSteps-Inv (next rs st) v = TipStep-Inv st (TipSteps-Inv rs v)

-- A meter with no tip yet.
abbrev pub fresh : ℕ → Race
fresh now = record { meter = default_meter now; overflowed = 0; tipped = 0 }

-- However the accesses of concurrent `add_tip` calls on a new meter interleave, once no call is
-- between its two accesses the counter is the sum of the tips, capped at u64::MAX.
pub add_tip_concurrent :
    (now : ℕ) (r : Race)
    → TipSteps (fresh now) r
    → r.overflowed ≡ 0
    → r.meter.tip ≡ min u64_max r.tipped
add_tip_concurrent now r steps quiet =
    let v = TipSteps-Inv steps (omega arith) in ground (arith, v.exact, v.capped)
