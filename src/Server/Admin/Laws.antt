-- ===== src/Server/Admin/Laws.antt =====
-- What forcing an upstream on or off does to it and to the others.
use soroban_gate.Common.{
  ℕ, ◌≡◌, ◌≢◌, ◌∙◌, ap, sym, refl, subst, Bool, true, false, List, [], ◌∷◌, none, some, String,
  if◌then◌else◌, str_eq, str_eq_iff, Bool-cases, Option-cases, inl, inr, ◌⊎◌, arith, In,
}
use soroban_gate.Common.Text.{cat}
use soroban_gate.Pool.CircuitBreaker
use soroban_gate.Pool.Upstream.{
  UpstreamState, Arc, Heap, update, is_available, update_self, update_ne,
}
use soroban_gate.Pool.Pools.{UpstreamPool}
use soroban_gate.Server.Http.{object, string, member, no_members}
use soroban_gate.Server.State.{Libraries, AppState}
use soroban_gate.Server.Admin.{
  find_upstream, find_in_pools, force_enable, force_disable, set_upstream_health, Answer,
  error_json,
}

abbrev pub forced : Bool → ℕ → UpstreamState → UpstreamState
forced enable now u = if enable then force_enable now u else force_disable u

module _ (l : Libraries) where
  abbrev pub forced_answer : String → Bool → Answer
  forced_answer target_url enable = (
    200,
    object (
        member "status" (string "ok") (
          member "upstream" (string target_url)
            (member "action" (string (if enable then "enabled" else "disabled")) no_members))),
  )

  pub set_upstream_health-found :
      (s : AppState l) (decode : String → String) (url : String) (enable : Bool) (now : ℕ) (a : Arc)
      → find_in_pools s.heap (decode url) s.pools ≡ some a
      → set_upstream_health l decode s url enable now ≡ (
        record s { heap = update s.heap a (forced enable now) },
        forced_answer (decode url) enable,
      )
  unfolding set_upstream_health
  set_upstream_health-found s decode url enable now a m = rw (m, set_upstream_health)

  set_upstream_health-missing :
      (s : AppState l) (decode : String → String) (url : String) (enable : Bool) (now : ℕ)
      → find_in_pools s.heap (decode url) s.pools ≡ none
      → set_upstream_health l decode s url enable now
        ≡ (s, (404, error_json (cat "Upstream '" (cat (decode url) "' not found"))))
  unfolding set_upstream_health
  set_upstream_health-missing s decode url enable now m = rw (m, set_upstream_health)

  find_upstream-In :
      (heap : Heap) (target : String) (arcs : List Arc) (a : Arc)
      → find_upstream heap target arcs ≡ some a
      → ((heap a).url ≡ target) × In a arcs
  unfolding find_upstream
  find_upstream-In heap target [] a e = cc
  find_upstream-In heap target (b ∷ rest) a e = elim (Bool-cases (str_eq (heap b).url target)) [
    | inl same ↦
        let here : b ≡ a = ground (arith, e, same) in
        (
          subst (λ x. (heap x).url ≡ target) here ((str_eq_iff (heap b).url target).0 same),
          inl (sym here),
        )
    | inr other ↦
        let (url, there) = find_upstream-In heap target rest a (ground (arith, e, other)) in
        (url, inr there)
  ]

  -- Some pool of the list holds the upstream.
  abbrev pub IsPooled : Arc → List UpstreamPool → Type 0
  IsPooled a [] = ⊥
  IsPooled a (p ∷ ps) = In a p.upstreams ⊎ IsPooled a ps

  find_in_pools-IsPooled :
      (heap : Heap) (target : String) (pools : List UpstreamPool) (a : Arc)
      → find_in_pools heap target pools ≡ some a
      → ((heap a).url ≡ target) × IsPooled a pools
  unfolding find_in_pools
  find_in_pools-IsPooled heap target [] a e = cc
  find_in_pools-IsPooled heap target (p ∷ ps) a e =
      elim (Option-cases (find_upstream heap target p.upstreams)) [
        | inl none_here ↦
            let (url, there) =
              find_in_pools-IsPooled heap target ps a (ground (arith, e, none_here)) in
            (url, inr there)
        | inr (b, found) ↦
            let same : b ≡ a = ground (arith, e, found) in
            let (url, listed) = find_upstream-In heap target p.upstreams b found in
            (
              subst (λ x. (heap x).url ≡ target) same url,
              inl (subst (λ x. In x p.upstreams) same listed),
            )
      ]

  forced-available :
      (enable : Bool) (now : ℕ) (u : UpstreamState) → is_available (forced enable now u) ≡ enable
  unfolding is_available CircuitBreaker.new
  forced-available true now u = refl
  forced-available false now u = refl

  -- Enabling or disabling an upstream either answers 404 and changes nothing, or it changes one
  -- upstream of a pool, which has the decoded address: it is available afterwards if it was
  -- enabled, and not if it was disabled, whatever its health and its breaker were; all others
  -- stay as they were.
  pub set_upstream_health-forced :
      (s : AppState l) (decode : String → String) (url : String) (enable : Bool) (now : ℕ)
      → (((set_upstream_health l decode s url enable now).1.0 ≡ 404)
          × ((set_upstream_health l decode s url enable now).0 ≡ s))
        ⊎ ((a : Arc) × ((set_upstream_health l decode s url enable now).1.0 ≡ 200)
            × ((s.heap a).url ≡ decode url)
            × IsPooled a s.pools
            × (is_available ((set_upstream_health l decode s url enable now).0.heap a) ≡ enable)
            × ((b : Arc)
                → a ≢ b
                → (set_upstream_health l decode s url enable now).0.heap b ≡ s.heap b))
  set_upstream_health-forced s decode url enable now =
      elim (Option-cases (find_in_pools s.heap (decode url) s.pools)) [
        | inl m ↦
            let e = set_upstream_health-missing s decode url enable now m in
            inl (ap (λ x. x.1.0) e, ap (λ x. x.0) e)
        | inr (a, m) ↦
            let e = set_upstream_health-found s decode url enable now a m in
            let (same_url, pooled) = find_in_pools-IsPooled s.heap (decode url) s.pools a m in
            inr (
              a,
              ap (λ x. x.1.0) e,
              same_url,
              pooled,
              ap (λ x. is_available (x.0.heap a)) e
                  ∙ ap is_available (update_self s.heap a (forced enable now))
                  ∙ forced-available enable now (s.heap a),
              λ b n. ap (λ x. x.0.heap b) e ∙ update_ne s.heap a b (forced enable now) n,
            )
      ]
