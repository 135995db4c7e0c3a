-- ===== src/External/Prometheus.antt =====
-- The `prometheus-client` crate: families of counters, histograms and gauges, one for each label
-- set. Of a histogram, the number of observations is read.
use soroban_gate.Common.{ℕ, ◌≡◌, ◌≢◌, ◌↔◌, Bool, true}
use soroban_gate.Common.Words.{inc_u64}

-- `Eq`, which a family asks of its labels.
pub record Labels (L : Type 0) : Type 0 where
  pub same : L → L → Bool
  pub same_iff : (a b : L) → (same a b ≡ true) ↔ (a ≡ b)

pub record Prometheus : Type 1 where
  pub Counters : Type 0 → Type 0
  pub Histograms : Type 0 → Type 0
  pub Gauges : Type 0 → Type 0
  pub no_counters : {L : Type 0} → Counters L
  pub no_histograms : {L : Type 0} → Histograms L
  pub no_gauges : {L : Type 0} → Gauges L
  -- `get_or_create(&labels).inc()`.
  pub inc : {L : Type 0} ⦃e : Labels L⦄ → L → Counters L → Counters L
  pub value : {L : Type 0} ⦃e : Labels L⦄ → L → Counters L → ℕ
  -- `get_or_create(&labels).observe(…)`.
  pub observe : {L : Type 0} ⦃e : Labels L⦄ → L → Histograms L → Histograms L
  pub observations : {L : Type 0} ⦃e : Labels L⦄ → L → Histograms L → ℕ

pub record IsLawful (p : Prometheus) : Type 1 where
  pub value-none : {L : Type 0} ⦃e : Labels L⦄ (labels : L) → p.value labels p.no_counters ≡ 0
  pub value-inc :
      {L : Type 0} ⦃e : Labels L⦄ (labels : L) (family : p.Counters L)
      → p.value labels (p.inc labels family) ≡ inc_u64 (p.value labels family)
  pub value-inc_other :
      {L : Type 0} ⦃e : Labels L⦄ (labels other : L) (family : p.Counters L)
      → other ≢ labels
      → p.value labels (p.inc other family) ≡ p.value labels family
