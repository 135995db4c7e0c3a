-- ===== src/Server/Gateway/Connections.antt =====
-- src/pool/mod.rs in use: the connection counts of the upstreams against the requests that wait for them.
use soroban_gate.Common.{
  ℕ, ◌+◌, ◌%◌, ◌≡◌, ◌∙◌, ap, refl, Bool, List, [], ◌∷◌, ◌++◌, String, if◌then◌else◌, ◌==◌,
  Bool-cases, Option-cases, inl, inr, arith,
}
use soroban_gate.Common.Words.{u64_mod, dec_u64}
use soroban_gate.Common.Outcome.{ok, Result-cases}
use soroban_gate.Config.{Config, PoolConfig, UpstreamConfig, HealthCheckConfig}
use soroban_gate.Pool.Upstream
use soroban_gate.Pool.Upstream.{
  UpstreamState, Arc, Heap, update, increment_connection_count, decrement_connection_count,
}
use soroban_gate.Pool.Pools.{
  UpstreamPool, Memory, create_upstreams, create_pool, create_pools_from, create_pools,
  empty_memory, alloc,
}
use soroban_gate.Pool.Health.{
  Probes, Probe, not_sent, responded, failed, check_upstream, check_all, run_health_check_cycle,
  mark_healthy, mark_all, mark_pools,
}
use soroban_gate.Server.State.{Libraries, AppState, build_state, open_store}
use soroban_gate.Server.Middleware.Laws.{layers-kept}
use soroban_gate.Server.Proxy.{Pending, answered, forwarding, finish, Exchange, forward_to_upstream}
use soroban_gate.Server.Proxy.Laws.{begin-Frame}
use soroban_gate.Server.Admin.{set_upstream_health, find_in_pools}
use soroban_gate.Server.Admin.Kept.{
  cache_flush_handler-CacheOnly, keys_create_handler-KeysOnly, keys_delete_handler-KeysOnly,
}
use soroban_gate.Server.Gateway.{
  Gateway, started, Traffic, passes_layers, answers, forwards, completes, abandons, checks_health,
  marks_healthy, traffic, administers, flushes_cache, creates_key, revokes_key, Reach, start, later,
}

-- How many of the requests wait for an upstream.
unfoldable pub waiting : Arc → List Pending → ℕ
waiting a [] = 0
waiting a (p ∷ ps) = (if p.upstream == a then 1 else 0) + waiting a ps

waiting-append :
    (a : Arc) (before after : List Pending) (p : Pending)
    → waiting a (before ++ p ∷ after)
      ≡ (if p.upstream == a then 1 else 0) + waiting a (before ++ after)
unfolding waiting
waiting-append a [] after p = refl
waiting-append a (q ∷ before) after p = ground (arith, waiting-append a before after p)

abbrev count_at : Heap → Arc → ℕ
count_at heap a = (heap a).connection_count

check_upstream-count :
    (is_success : ℕ → Bool) (cfg : HealthCheckConfig) (probe : Probe) (now : ℕ) (u : UpstreamState)
    → (check_upstream is_success cfg probe now u).connection_count ≡ u.connection_count
unfolding check_upstream
check_upstream-count is_success cfg not_sent now u = refl
check_upstream-count is_success cfg (responded status elapsed) now u =
    elim (Bool-cases (is_success status)) [ inl e ↦ ground (arith, e) | inr e ↦ ground (arith, e) ]
check_upstream-count is_success cfg failed now u = refl

-- An update that keeps the count of its upstream keeps every count.
update-count :
    (heap : Heap) (b a : Arc) (f : UpstreamState → UpstreamState)
    → ((u : UpstreamState) → (f u).connection_count ≡ u.connection_count)
    → count_at (update heap b f) a ≡ count_at heap a
update-count heap b a f keeps = ground (arith, keeps (heap a))

check_all-count :
    (is_success : ℕ → Bool) (cfg : HealthCheckConfig) (probes : Probes is_success) (as_ : List Arc)
    (heap : Heap) (a : Arc)
    → count_at (check_all is_success cfg probes as_ heap) a ≡ count_at heap a
unfolding check_all
check_all-count is_success cfg probes [] heap a = refl
check_all-count is_success cfg probes (b ∷ as_) heap a =
    check_all-count is_success cfg probes as_
      (update heap b (check_upstream is_success cfg (probes b).0 (probes b).1)) a
    ∙ update-count heap b a (check_upstream is_success cfg (probes b).0 (probes b).1)
        (check_upstream-count is_success cfg (probes b).0 (probes b).1)

run_health_check_cycle-count :
    (is_success : ℕ → Bool) (cfg : HealthCheckConfig) (probes : Probes is_success)
    (pools : List UpstreamPool) (heap : Heap) (a : Arc)
    → count_at (run_health_check_cycle is_success cfg probes pools heap) a ≡ count_at heap a
unfolding run_health_check_cycle
run_health_check_cycle-count is_success cfg probes [] heap a = refl
run_health_check_cycle-count is_success cfg probes (p ∷ ps) heap a =
    run_health_check_cycle-count is_success cfg probes ps
      (check_all is_success cfg probes p.upstreams heap) a
    ∙ check_all-count is_success cfg probes p.upstreams heap a

mark_all-count :
    (as_ : List Arc) (heap : Heap) (a : Arc) → count_at (mark_all as_ heap) a ≡ count_at heap a
unfolding mark_all
mark_all-count [] heap a = refl
mark_all-count (b ∷ as_) heap a =
    mark_all-count as_ (update heap b mark_healthy) a
    ∙ update-count heap b a mark_healthy (λ u. refl)

mark_pools-count :
    (pools : List UpstreamPool) (heap : Heap) (a : Arc)
    → count_at (mark_pools pools heap) a ≡ count_at heap a
unfolding mark_pools
mark_pools-count [] heap a = refl
mark_pools-count (p ∷ ps) heap a =
    mark_pools-count ps (mark_all p.upstreams heap) a ∙ mark_all-count p.upstreams heap a

abbrev Idle : Memory → Type 0
Idle m = (a : Arc) → count_at m.heap a ≡ 0

create_upstreams-Idle :
    (name : String) (now : ℕ) (us : List UpstreamConfig) (m : Memory)
    → Idle m
    → Idle (create_upstreams name now us m).1
unfolding create_upstreams Upstream.new
create_upstreams-Idle name now [] m idle = idle
create_upstreams-Idle name now (u ∷ us) m idle =
    create_upstreams-Idle name now us
      (alloc (Upstream.new name u.url u.weight u.max_connections now) m).1
      (λ a. ground (arith, idle a))

create_pools_from-Idle :
    (now : ℕ) (ps : List PoolConfig) (m : Memory) → Idle m → Idle (create_pools_from now ps m).1
unfolding create_pools_from create_pool
create_pools_from-Idle now [] m idle = idle
create_pools_from-Idle now (p ∷ ps) m idle =
    create_pools_from-Idle now ps (create_pool now p m).1
      (create_upstreams-Idle p.name now p.upstreams m idle)

module _ (l : Libraries) where
  build_state-idle :
      (c : Config) (now : ℕ) (s : AppState l) (a : Arc)
      → build_state l c now ≡ ok s
      → count_at s.heap a ≡ 0
  unfolding build_state create_pools Upstream.new
  build_state-idle c now s a h = elim (Result-cases (open_store l c)) [
    | inr (x, m) ↦ ground (arith, m, h)
    | inl (store, m) ↦
        ground (arith, m, h, create_pools_from-Idle now c.pools (empty_memory now) (λ a. refl) a)
  ]

  finish-count :
      (s : AppState l) (decimal : ℕ → String) (p : Pending) (x : Exchange l) (now : ℕ) (a : Arc)
      → count_at (finish l s decimal p x now).0.heap a
        ≡ (if p.upstream == a then dec_u64 (count_at s.heap a) else count_at s.heap a)
  unfolding finish decrement_connection_count
  finish-count s decimal p x now a =
      elim (Result-cases (forward_to_upstream l decimal s.config.server.request_timeout_ms x)) [
        | inl (r, m) ↦ ground (arith, m)
        | inr (e, m) ↦ ground (arith, m)
      ]

  set_upstream_health-count :
      (s : AppState l) (decode : String → String) (url : String) (enable : Bool) (now : ℕ) (a : Arc)
      → count_at (set_upstream_health l decode s url enable now).0.heap a ≡ count_at s.heap a
  unfolding set_upstream_health
  set_upstream_health-count s decode url enable now a =
      elim (Option-cases (find_in_pools s.heap (decode url) s.pools)) [
        | inl m ↦ ground (arith, m)
        | inr (b, m) ↦ ground (arith, m)
      ]

  abbrev Counted : Gateway l → Type 0
  Counted g =
      (a : Arc) → count_at g.state.heap a ≡ (waiting a g.inflight + waiting a g.dropped) % u64_mod

  Traffic-Counted : {g h : Gateway l} → Traffic l g h → Counted g → Counted h
  unfolding waiting increment_connection_count
  Traffic-Counted {g} (passes_layers now request) inv a =
      let (limiter, metrics, e) = layers-kept l g.state now request in
      ap (λ s. count_at s.heap a) e ∙ inv a
  Traffic-Counted {g} (answers draw now request s r range e) inv a =
      let (frame, same) = begin-Frame l g.state s draw now request (answered r) range e in
      ap (λ h. count_at h a) same ∙ inv a
  Traffic-Counted {g} (forwards draw now request s p range e) inv a =
      let (frame, (added, q, found, listed, up)) =
        begin-Frame l g.state s draw now request (forwarding p) range e in
      ap (λ h. count_at h a) added ∙ ground (arith, inv a)
  Traffic-Counted {g} (completes decimal before after p x now e) inv a =
      ground
        (arith, inv a, e, waiting-append a before after p, finish-count g.state decimal p x now a)
  Traffic-Counted {g} (abandons before after p e) inv a =
      ground (arith, inv a, e, waiting-append a before after p)
  Traffic-Counted {g} (checks_health is_success cfg probes) inv a =
      run_health_check_cycle-count is_success cfg probes g.state.pools g.state.heap a ∙ inv a
  Traffic-Counted {g} marks_healthy inv a = mark_pools-count g.state.pools g.state.heap a ∙ inv a

  Reach-Counted : (s : AppState l) {g : Gateway l} → Counted (started l s) → Reach l s g → Counted g
  Reach-Counted s idle start = idle
  Reach-Counted s idle (later r (traffic t)) = Traffic-Counted t (Reach-Counted s idle r)
  Reach-Counted s idle (later {g} r (administers decode url enable now)) =
      λ a. set_upstream_health-count g.state decode url enable now a ∙ Reach-Counted s idle r a
  Reach-Counted s idle (later {g} r flushes_cache) =
      let (cache, kept) = cache_flush_handler-CacheOnly l g.state in
      λ a. ap (λ x. count_at x.heap a) kept ∙ Reach-Counted s idle r a
  Reach-Counted s idle (later {g} r (creates_key payload salt now)) =
      let (key_store, kept) = keys_create_handler-KeysOnly l g.state payload salt now in
      λ a. ap (λ x. count_at x.heap a) kept ∙ Reach-Counted s idle r a
  Reach-Counted s idle (later {g} r (revokes_key id)) =
      let (key_store, kept) = keys_delete_handler-KeysOnly l g.state id in
      λ a. ap (λ x. count_at x.heap a) kept ∙ Reach-Counted s idle r a

  -- In every state that the gateway reaches from its start, the connection count of each upstream is
  -- the number of requests that wait for it, plus the number of requests that were dropped while
  -- they waited for it, as a 64-bit word.
  pub Reach-connections :
      (c : Config) (now : ℕ) (s : AppState l) (g : Gateway l) (a : Arc)
      → build_state l c now ≡ ok s
      → Reach l s g
      → (g.state.heap a).connection_count ≡ (waiting a g.inflight + waiting a g.dropped) % u64_mod
  unfolding waiting
  Reach-connections c now s g a built r =
      Reach-Counted s (λ b. build_state-idle c now s b built) r a
