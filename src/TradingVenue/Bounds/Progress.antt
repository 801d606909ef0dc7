-- ===== src/TradingVenue/Bounds/Progress.antt =====
-- The two loop variables of the boundary search, and the orders in which its loops make progress.
use quay_titan_integration.Prelude.{ℕ, zero, suc, ◌-◌, ◌+◌, ◌/◌, ◌<◌, arith}
use quay_titan_integration.Prelude.Word.{u64_max, saturating_mul}
use mathlib.Core.WellFounded.{Acc, WellFounded}

pub record Interval : Type 0 where
  pub low : ℕ
  pub high : ℕ

-- The doubling loops raise `high` towards `u64::MAX`.
infix 50 ◌⊐◌ ◌⊏◌
abbrev pub ◌⊐◌ : Interval → Interval → Type 0
r ⊐ s = u64_max - r.high < u64_max - s.high

-- The bisections narrow the interval.
abbrev pub ◌⊏◌ : Interval → Interval → Type 0
r ⊏ s = r.high - r.low < s.high - s.low

raise_below : (k : ℕ) (r : Interval) → u64_max - r.high < k → Acc ◌⊐◌ r
raise_below zero r h = absurd (omega arith)
raise_below (suc k) r h = Acc.intro r (λ s up. raise_below k s (omega arith))

unfoldable pub raise_wf : WellFounded ◌⊐◌
unfolding raise_below
raise_wf = record { apply = λ r. raise_below (suc (u64_max - r.high)) r (omega arith) }

narrow_below : (k : ℕ) (r : Interval) → r.high - r.low < k → Acc ◌⊏◌ r
narrow_below zero r h = absurd (omega arith)
narrow_below (suc k) r h = Acc.intro r (λ s inside. narrow_below k s (omega arith))

unfoldable pub narrow_wf : WellFounded ◌⊏◌
unfolding narrow_below
narrow_wf = record { apply = λ r. narrow_below (suc (r.high - r.low)) r (omega arith) }

abbrev pub scaling_factor : ℕ
scaling_factor = 2

-- `low = high; high = high.saturating_mul(SCALING_FACTOR)`
abbrev pub scale : Interval → Interval
scale s = record { low = s.high; high = saturating_mul s.high scaling_factor }

-- The interval that is left behind when the doubling meets `u64::MAX`.
abbrev pub capped : Interval → Interval
capped s = record { low = s.low; high = u64_max }

pub scale-⊐ : (s : Interval) → (scale s).low < (scale s).high → scale s ⊐ s
scale-⊐ s h = omega arith

abbrev pub midpoint : Interval → ℕ
midpoint s = s.high / 2 + s.low / 2

abbrev pub below : Interval → Interval
below s = record s { high = midpoint s }

abbrev pub above : Interval → Interval
above s = record s { low = midpoint s }

pub below-⊏ : (s : Interval) → 100 < s.high - s.low → below s ⊏ s
below-⊏ s h = omega arith

pub above-⊏ : (s : Interval) → 100 < s.high - s.low → above s ⊏ s
above-⊏ s h = omega arith
