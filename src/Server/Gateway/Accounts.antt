-- ===== src/Server/Gateway/Accounts.antt =====
-- src/server/: what the gateway counts of its requests, over all that it does.
use native.Mathlib.Nat.{zero-add}
use soroban_gate.Common.{
  ℕ, suc, ◌+◌, false, true, if◌then◌else◌, ◌≡◌, ap, sym, refl, subst, Bool, [], some, String,
  Option-cases, inl, inr, arith,
}
use soroban_gate.Common.Outcome.{Outcome, returned}
use soroban_gate.Server.State.{Libraries, AppState}
use soroban_gate.Server.Admin.{set_upstream_health, find_in_pools}
use soroban_gate.Server.Admin.Kept.{
  cache_flush_handler-CacheOnly, keys_create_handler-KeysOnly, keys_delete_handler-KeysOnly,
}
use soroban_gate.Server.Proxy.{Begun, answered, forwarding, begin}
use soroban_gate.Server.Gateway.{
  Gateway, passes_layers, answers, forwards, completes, abandons, checks_health, marks_healthy,
  traffic, administers, flushes_cache, creates_key, revokes_key, Reach, start, later,
}
use soroban_gate.Server.Gateway.Counting.{
  in_cache, Accounts, Accounted, begin-Accounted, finish-Accounts, layers-Accounts,
}

module _ (l : Libraries) where
  -- The requests whose exchange with an upstream has come to its end on the way.
  abbrev pub completed : {s : AppState l} {g : Gateway l} → Reach l s g → ℕ
  completed start = 0
  completed (later r (traffic (completes decimal before after p exchange now e))) =
      suc (completed r)
  completed (later r _) = completed r

  -- The requests that came while the cache held an answer to them.
  abbrev pub hits : {s : AppState l} {g : Gateway l} → Reach l s g → ℕ
  hits start = 0
  hits (later {g = f} r (traffic (answers draw now request s a range e))) =
      (if in_cache l f.state now request then 1 else 0) + hits r
  hits (later {g = f} r (traffic (forwards draw now request s p range e))) =
      (if in_cache l f.state now request then 1 else 0) + hits r
  hits (later r _) = hits r

  passed :
      (n h : ℕ) (hit : Bool) (s : AppState l) (b : Begun) (o : Outcome (AppState l × Begun))
      → o ≡ returned (s, b)
      → Accounted l n h hit o
      → Accounts n ((if hit then 1 else 0) + h) s.metrics
  passed n h hit s b o e a = counted hit b (subst (Accounted l n h hit) e a)
    where
      counted :
          (hit : Bool) (b : Begun)
          → Accounted l n h hit (returned (s, b))
          → Accounts n ((if hit then 1 else 0) + h) s.metrics
      counted false b a = subst (λ k. Accounts n k s.metrics) (sym (zero-add h)) a
      counted true (answered r) a = subst (λ k. Accounts n k s.metrics) (omega arith) a
      counted true (forwarding p) a = absurd a

  set_upstream_health-metrics :
      (s : AppState l) (percent_decode : String → String) (encoded_url : String) (enable : Bool)
      (now : ℕ)
      → (set_upstream_health l percent_decode s encoded_url enable now).0.metrics ≡ s.metrics
  unfolding set_upstream_health
  set_upstream_health-metrics s percent_decode encoded_url enable now =
      elim (Option-cases (find_in_pools s.heap (percent_decode encoded_url) s.pools)) [
        | inl m ↦ ground (arith, m)
        | inr (a, m) ↦ ground (arith, m)
      ]

  Step-metrics :
      (g : Gateway l) (h : Gateway l) (n k : ℕ)
      → h.state.metrics ≡ g.state.metrics
      → Accounts n k g.state.metrics
      → Accounts n k h.state.metrics
  Step-metrics g h n k same a = subst (Accounts n k) (sym same) a

  -- In every state that the gateway reaches from a start with metrics, whatever requests come and
  -- however they interleave, the registry counts in `requests_total` as many requests with
  -- `cached = "false"` as have come to the end of their exchange with an upstream, and with
  -- `cached = "true"` as many as found an answer in the cache that had not expired, which is also
  -- what `cache_hits_total` counts.
  pub Reach-Accounts :
      (s : AppState l) (g : Gateway l) (r : Reach l s g)
      → s.metrics ≡ some []
      → Accounts (completed r) (hits r) g.state.metrics
  Reach-Accounts s g start e = ([], e, refl, refl, refl)
  Reach-Accounts s g (later {g = f} r (traffic (passes_layers now request))) e =
      layers-Accounts l f.state (completed r) (hits r) now request (Reach-Accounts s f r e)
  Reach-Accounts s g (later {g = f} r (traffic (answers draw now request t a range b))) e =
      passed (completed r) (hits r) (in_cache l f.state now request) t (answered a)
        (begin l f.state draw now request) b
        (begin-Accounted l f.state (completed r) (hits r) draw now request (Reach-Accounts s f r e))
  Reach-Accounts s g (later {g = f} r (traffic (forwards draw now request t p range b))) e =
      passed (completed r) (hits r) (in_cache l f.state now request) t (forwarding p)
        (begin l f.state draw now request) b
        (begin-Accounted l f.state (completed r) (hits r) draw now request (Reach-Accounts s f r e))
  Reach-Accounts s g (later {g = f} r (traffic (completes decimal before after p exchange now k)))
        e =
      finish-Accounts l f.state (completed r) (hits r) decimal p exchange now
        (Reach-Accounts s f r e)
  Reach-Accounts s g (later {g = f} r (traffic (abandons before after p k))) e =
      Reach-Accounts s f r e
  Reach-Accounts s g (later {g = f} r (traffic (checks_health is_success cfg probes))) e =
      Reach-Accounts s f r e
  Reach-Accounts s g (later {g = f} r (traffic marks_healthy)) e = Reach-Accounts s f r e
  Reach-Accounts s g (later {g = f} r (administers percent_decode encoded_url enable now)) e =
      Step-metrics f g (completed r) (hits r)
        (set_upstream_health-metrics f.state percent_decode encoded_url enable now)
        (Reach-Accounts s f r e)
  Reach-Accounts s g (later {g = f} r flushes_cache) e =
      Step-metrics f g (completed r) (hits r)
        (ap (λ t. t.metrics) (cache_flush_handler-CacheOnly l f.state).1) (Reach-Accounts s f r e)
  Reach-Accounts s g (later {g = f} r (creates_key payload salt now)) e =
      Step-metrics f g (completed r) (hits r)
        (ap (λ t. t.metrics) (keys_create_handler-KeysOnly l f.state payload salt now).1)
        (Reach-Accounts s f r e)
  Reach-Accounts s g (later {g = f} r (revokes_key id)) e =
      Step-metrics f g (completed r) (hits r)
        (ap (λ t. t.metrics) (keys_delete_handler-KeysOnly l f.state id).1) (Reach-Accounts s f r e)
