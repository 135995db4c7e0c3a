-- ===== src/Server/Proxy/Caching.antt =====
-- From a response of an upstream that `proxy_handler` stores to the answer of a later request.
use soroban_gate.Common.{
  ℕ, ◌+◌, ◌<◌, ◌≡◌, ◌∙◌, ap, refl, true, false, List, some, String, ◌==◌, arith,
}
use soroban_gate.Common.Words.{inc_u64}
use soroban_gate.Common.Outcome.{returned}
use soroban_gate.Routing.{route, extract_json_rpc_method}
use soroban_gate.Cache.{ttl_for, compute_cache_key}
use soroban_gate.Cache.Memory
use soroban_gate.Cache.Memory.{MemoryCache, hash_to_u64}
use soroban_gate.Server.Http.{Request}
use soroban_gate.Server.State.{Libraries, AppState}
use soroban_gate.Server.Proxy.{
  Pending, answered, response, begin, finish, cached_response, is_success, forward_to_upstream,
  after_get, count_hit,
}
use soroban_gate.Server.Proxy.Laws.{begin-through_cache, through_cache-get}

module _ (l : Libraries) where
  -- The cache key of a body.
  abbrev pub key_of : List ℕ → List ℕ
  key_of body = compute_cache_key l.serde_json l.sha256 body

  -- What the cache stores for the body of a request.
  abbrev pub stored_in : AppState l → MemoryCache l.moka → Pending → List ℕ → ℕ → MemoryCache l.moka
  stored_in s c p bytes now =
      Memory.after c
        (Memory.set l.moka c (key_of p.body) bytes (ttl_for s.cache_ttl_table p.method) now)

  finish-stored :
      (s : AppState l) (c : MemoryCache l.moka) (decimal : ℕ → String) (p : Pending) (status : ℕ)
      (headers : List (String × String)) (bytes : List ℕ) (now : ℕ)
      → s.cache ≡ some c
      → (ttl_for s.cache_ttl_table p.method == 0) ≡ false
      → is_success l status ≡ true
      → now + ttl_for s.cache_ttl_table p.method < Memory.instant_end
      → (finish l s decimal p (response status headers bytes) now).0.cache
        ≡ some (stored_in s c p bytes now)
  unfolding finish forward_to_upstream Memory.set
  finish-stored s c decimal p status headers bytes now m z good timely =
      ground (arith, m, z, good, timely)

  get-held :
      (c : MemoryCache l.moka) (key bytes : List ℕ) (expires later : ℕ)
      → l.moka.get (hash_to_u64 l.moka.endian key) c.cache
        ≡ some (record { bytes = bytes; expires_at = expires })
      → later < expires
      → (c' : MemoryCache l.moka) × (Memory.get l.moka c key later ≡ (c', some bytes))
  unfolding Memory.get
  get-held c key bytes expires later held fresh =
      (record c { hit_count = inc_u64 c.hit_count }, ground (arith, held, fresh))

  -- The body of a successful response to a method that has a lifetime is the body of the answer to a
  -- request with the same body that follows it, if the lifetime is not over and the crate still
  -- holds it. That answer has the status 200 and the content type of JSON, whatever status and
  -- headers the response had; no upstream is asked, and all upstreams and pools stay as they are.
  -- The end of the lifetime is in the range of `Instant`.
  pub begin-stored :
      (s : AppState l) (c : MemoryCache l.moka) (decimal : ℕ → String) (p : Pending) (status : ℕ)
      (headers : List (String × String)) (bytes : List ℕ) (now later : ℕ) (draw : ℕ → ℕ)
      (request : Request)
      → s.cache ≡ some c
      → (ttl_for s.cache_ttl_table p.method == 0) ≡ false
      → is_success l status ≡ true
      → now + ttl_for s.cache_ttl_table p.method < Memory.instant_end
      → request.body ≡ some p.body
      → extract_json_rpc_method l.serde_json p.body ≡ some p.method
      → l.moka.get (hash_to_u64 l.moka.endian (key_of p.body)) (stored_in s c p bytes now).cache
        ≡ some (record { bytes = bytes; expires_at = now + ttl_for s.cache_ttl_table p.method })
      → later < now + ttl_for s.cache_ttl_table p.method
      → (s' : AppState l) × (begin l
            (finish l s decimal p (response status headers bytes) now).0
            draw
            later
            request
          ≡ returned (s', answered (cached_response l bytes)))
        × (s'.heap ≡ (finish l s decimal p (response status headers bytes) now).0.heap)
        × (s'.pools ≡ s.pools)
  unfolding finish forward_to_upstream
  begin-stored s c decimal p status headers bytes now later draw request m z good timely same_body
        same_method held fresh =
      let t = (finish l s decimal p (response status headers bytes) now).0 in
      let (c', got) =
        get-held (stored_in s c p bytes now) (key_of p.body) bytes
          (now + ttl_for s.cache_ttl_table p.method) later held fresh in
      let stored = finish-stored s c decimal p status headers bytes now m z good timely in
      let pool = route t.router p.method in
      (
        count_hit l p.method pool (record t { cache = some c' }),
        begin-through_cache l t draw later request p.body p.method same_body same_method
            ∙ through_cache-get l t draw later p.method pool p.body (stored_in s c p bytes now)
                stored z
            ∙ ap (after_get l t draw p.method pool p.body) got,
        refl,
        refl,
      )
