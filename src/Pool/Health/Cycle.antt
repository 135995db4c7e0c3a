-- ===== src/Pool/Health/Cycle.antt =====
-- src/pool/health.rs: one cycle of checks, and the order in which its tasks finish.
use soroban_gate.Common.{
  ℕ, zero, suc, ◌≤◌, ◌≡◌, refl, sym, ap, subst, ◌↔◌, ◌∙◌, inl, inr, Bool, true, false, List, [],
  ◌∷◌, ◌++◌, arith, In, Bool-cases, ◌==◌, if◌then◌else◌,
}
use soroban_gate.Config.{HealthCheckConfig}
use soroban_gate.Pool.Upstream.{UpstreamState, Arc, Heap, update_ne}
use soroban_gate.Pool.Pools.{UpstreamPool}
use soroban_gate.Pool.Pools.Creation.{addresses, range}
use soroban_gate.Pool.Health.{Probes, check_upstream, check_all, run_health_check_cycle}

-- No entry stands in the list twice.
abbrev pub Distinct : List Arc → Type 0
Distinct [] = Unit
Distinct (x ∷ xs) = (¬ In x xs) × Distinct xs

abbrev pub member : Arc → List Arc → Bool
member a [] = false
member a (x ∷ xs) = if a == x then true else member a xs

pub member_iff : (a : Arc) (xs : List Arc) → (member a xs ≡ true) ↔ In a xs
member_iff a [] = ground arith
member_iff a (x ∷ xs) = ground (arith, member_iff a xs)

range-lower : (i n a : ℕ) → In a (range i n) → i ≤ a
range-lower i zero a m = absurd m
range-lower i (suc n) a (inl e) = omega arith
range-lower i (suc n) a (inr m) = omega (arith, range-lower (suc i) n a m)

-- The addresses of pools that were laid out one after another are distinct.
pub range-Distinct : (i n : ℕ) → Distinct (range i n)
range-Distinct i zero = tt
range-Distinct i (suc n) =
    (λ m. absurd (omega (arith, range-lower (suc i) n i m)), range-Distinct (suc i) n)

module _ (is_success : ℕ → Bool) (cfg : HealthCheckConfig) (probes : Probes is_success) where
  -- The check of one upstream, by its own probe.
  abbrev pub checked : Heap → Arc → UpstreamState
  checked heap a = check_upstream is_success cfg (probes a).0 (probes a).1 (heap a)

  check_all-append :
      (xs ys : List Arc) (heap : Heap)
      → check_all is_success cfg probes (xs ++ ys) heap
        ≡ check_all is_success cfg probes ys (check_all is_success cfg probes xs heap)
  unfolding check_all
  check_all-append [] ys heap = refl
  check_all-append (x ∷ xs) ys heap = check_all-append xs ys _

  cycle-addresses :
      (ps : List UpstreamPool) (heap : Heap)
      → run_health_check_cycle is_success cfg probes ps heap
        ≡ check_all is_success cfg probes (addresses ps) heap
  unfolding run_health_check_cycle
  cycle-addresses [] heap = refl
  cycle-addresses (p ∷ ps) heap =
      cycle-addresses ps (check_all is_success cfg probes p.upstreams heap)
      ∙ sym (check_all-append p.upstreams (addresses ps) heap)

  check_all_absent :
      (as_ : List Arc) (heap : Heap) (a : Arc)
      → ¬ In a as_
      → check_all is_success cfg probes as_ heap a ≡ heap a
  unfolding check_all
  check_all_absent [] heap a n = refl
  check_all_absent (b ∷ as_) heap a n =
      check_all_absent as_ _ a (λ m. n (inr m))
      ∙ update_ne heap b a (check_upstream is_success cfg (probes b).0 (probes b).1)
          (λ e. n (inl (sym e)))

  check_all_present :
      (as_ : List Arc) (heap : Heap) (a : Arc)
      → Distinct as_
      → In a as_
      → check_all is_success cfg probes as_ heap a ≡ checked heap a
  unfolding check_all
  check_all_present [] heap a d m = absurd m
  check_all_present (b ∷ as_) heap a d (inl e) =
      check_all_absent as_ _ a (λ m. d.0 (subst (λ x. In x as_) e m)) ∙ ground arith
  check_all_present (b ∷ as_) heap a d (inr m) =
      check_all_present as_ _ a d.1 m
      ∙ ap (check_upstream is_success cfg (probes a).0 (probes a).1) (
          update_ne heap b a (check_upstream is_success cfg (probes b).0 (probes b).1)
            (λ e. d.0 (subst (λ x. In x as_) (sym e) m)))

  -- One cycle checks every upstream of the pools exactly once, by its own probe on its state
  -- before the cycle, and leaves all other states alone; so the order of the concurrent checks
  -- makes no difference, as long as no upstream stands in the pools twice.
  pub cycle-checked :
      (ps : List UpstreamPool) (heap : Heap) (a : Arc)
      → Distinct (addresses ps)
      → run_health_check_cycle is_success cfg probes ps heap a
        ≡ (if member a (addresses ps) then checked heap a else heap a)
  cycle-checked ps heap a d = elim (Bool-cases (member a (addresses ps))) [
    | inl present ↦
        rw (present, cycle-addresses ps heap)
          (check_all_present (addresses ps) heap a d ((member_iff a (addresses ps)).0 present))
    | inr absent ↦
        rw (absent, cycle-addresses ps heap)
          (check_all_absent (addresses ps) heap a (λ m. cc ((member_iff a (addresses ps)).1 m)))
  ]
