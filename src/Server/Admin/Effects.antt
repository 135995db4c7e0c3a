-- ===== src/Server/Admin/Effects.antt =====
-- src/server/admin.rs, `router`: what a request to the admin API can do. In axum 0.7 a segment
-- `{url}` of a pattern is literal.
use soroban_gate.Common.{
  ℕ, ◌≡◌, ◌∙◌, ap, sym, refl, subst, true, false, ◌&&◌, List, [], ◌∷◌, none, String, str_eq,
  str_eq_iff, Bool-cases, inl, inr, ◌⊎◌, arith, In, All, All-In, Bool,
}
use soroban_gate.Common.Outcome.{ok, Result-cases}
use soroban_gate.External.Axum
use soroban_gate.External.Axum.{
  Axum, Route, Found, matched, method_not_allowed, not_found, exact, serves, is_literal,
  all_literal, add_path,
}
use soroban_gate.Server.State.{Libraries, AppState}
use soroban_gate.Server.Admin.{cache_flush_handler, keys_create_handler}
use soroban_gate.Server.Admin.Kept.{cache_flush_handler-CacheOnly, keys_create_handler-KeysOnly}
use soroban_gate.Server.Admin.Dispatch.{
  Endpoint, status, reload, cache_flush, cache_stats, upstream_enable, upstream_disable, keys_list,
  keys_create, keys_delete, router, AdminRequest, endpoint, admin_app, dispatched,
}

module _ {A : Type 0} where
  -- A route of the table that takes the method and has the path.
  abbrev Routes : List (Route A) → String → String → A → Type 0
  Routes routes method path a =
      (r : Route A) × (In r routes
        × ((r.path ≡ path) × ((serves r.method method ≡ true) × (r.target ≡ a))))

  add_path-matched :
      (a : A) (captures : List (String × String)) (found : Found A) (here : Bool)
      → add_path here found ≡ matched a captures
      → found ≡ matched a captures
  add_path-matched a captures not_found true e = cc
  add_path-matched a captures not_found false e = e
  add_path-matched a captures method_not_allowed true e = e
  add_path-matched a captures method_not_allowed false e = e
  add_path-matched a captures (matched b c) true e = e
  add_path-matched a captures (matched b c) false e = e

  exact-Routes :
      (routes : List (Route A)) (method path : String) (a : A) (captures : List (String × String))
      → exact routes method path ≡ matched a captures
      → Routes routes method path a × (captures ≡ [])
  unfolding exact
  exact-Routes [] method path a captures e = cc
  exact-Routes (r ∷ rs) method path a captures e =
      elim (Bool-cases (str_eq r.path path && serves r.method method)) [
        | inl here ↦
            let found : matched r.target [] ≡ matched a captures = ground (arith, e, here) in
            (
              (
                r,
                (
                  inl refl,
                  (ground (arith, here, str_eq_iff r.path path), (ground (arith, here), cc)),
                ),
              ),
              cc,
            )
        | inr other ↦
            let later : add_path (str_eq r.path path) (exact rs method path) ≡ matched a captures =
              ground (arith, e, other) in
            let ((q, (there, same)), none_captured) =
              exact-Routes rs method path a captures
                (add_path-matched a captures (exact rs method path) (str_eq r.path path) later) in
            ((q, (inr there, same)), none_captured)
      ]

  pub Found-cases :
      (found : Found A)
      → ((found ≡ not_found) ⊎ (found ≡ method_not_allowed))
        ⊎ ((a : A) × (captures : List (String × String)) × (found ≡ matched a captures))
  Found-cases not_found = inl (inl refl)
  Found-cases method_not_allowed = inl (inr refl)
  Found-cases (matched a captures) = inr (a, captures, refl)

-- The path and the method of each endpoint.
abbrev place : Endpoint → String × String
place status = ("/admin/status", "GET")
place reload = ("/admin/reload", "POST")
place cache_flush = ("/admin/cache", "DELETE")
place cache_stats = ("/admin/cache/stats", "GET")
place upstream_enable = ("/admin/upstreams/{url}/enable", "POST")
place upstream_disable = ("/admin/upstreams/{url}/disable", "POST")
place keys_list = ("/admin/keys", "GET")
place keys_create = ("/admin/keys", "POST")
place keys_delete = ("/admin/keys/{id}", "DELETE")

router-place : All (λ r. (r.path, r.method) ≡ place r.target) router
unfolding router
router-place = (refl, (refl, (refl, (refl, (refl, (refl, (refl, (refl, (refl, tt)))))))))

router-literal : all_literal router ≡ true
unfolding router is_literal
router-literal = refl

module _ (l : Libraries) where
  -- Nothing changes, the cache is flushed, or a key is created.
  abbrev pub Effects : AppState l → AdminRequest l → ℕ → ℕ → AppState l → Type 0
  Effects state request salt now after =
      (after ≡ state)
      ⊎ ((request.path ≡ "/admin/cache")
          × (serves "DELETE" request.method ≡ true)
          × (after ≡ (cache_flush_handler l state).0))
      ⊎ ((request.path ≡ "/admin/keys")
          × (serves "POST" request.method ≡ true)
          × (payload : l.serde_json.Value) × (request.payload ≡ ok payload)
          × (after ≡ (keys_create_handler l state payload salt now).0))

  endpoint-Effects :
      (axum : Axum) (decode : String → String) (state : AppState l) (request : AdminRequest l)
      (salt now : ℕ) (target : Endpoint) (path method : String)
      → axum.path_argument [] ≡ none
      → request.path ≡ path
      → serves method request.method ≡ true
      → (path, method) ≡ place target
      → Effects state request salt now (endpoint l axum decode state request salt now target []).0
  unfolding endpoint
  endpoint-Effects axum decode state request salt now status path method bare at takes is = inl refl
  endpoint-Effects axum decode state request salt now reload path method bare at takes is = inl refl
  endpoint-Effects axum decode state request salt now cache_stats path method bare at takes is =
      inl refl
  endpoint-Effects axum decode state request salt now keys_list path method bare at takes is =
      inl refl
  endpoint-Effects axum decode state request salt now upstream_enable path method bare at takes is =
      inl (rw bare refl)
  endpoint-Effects axum decode state request salt now upstream_disable path method bare at takes
        is =
      inl (rw bare refl)
  endpoint-Effects axum decode state request salt now keys_delete path method bare at takes is =
      inl (rw bare refl)
  endpoint-Effects axum decode state request salt now cache_flush path method bare at takes is =
      inr (
        inl (
          at ∙ ap (λ x. x.0) is,
          subst (λ m. serves m request.method ≡ true) (ap (λ x. x.1) is) takes,
          refl,
        ))
  endpoint-Effects axum decode state request salt now keys_create path method bare at takes is =
      elim (Result-cases request.payload) [
        | inr (rejection, m) ↦ inl (rw m refl)
        | inl (payload, m) ↦ inr (
            inr (
              at ∙ ap (λ x. x.0) is,
              subst (λ m. serves m request.method ≡ true) (ap (λ x. x.1) is) takes,
              payload,
              m,
              rw m refl,
            ))
      ]

  admin_app-found :
      (axum : Axum) (decode : String → String) (state : AppState l) (request : AdminRequest l)
      (salt now : ℕ) (found : Found Endpoint)
      → axum.find router request.method request.path ≡ found
      → admin_app l axum decode state request salt now
        ≡ dispatched l axum state
            (λ e captures. endpoint l axum decode state request salt now e captures)
            found
  unfolding admin_app
  admin_app-found axum decode state request salt now found m = rw m refl

  Effects-heap :
      (state : AppState l) (request : AdminRequest l) (salt now : ℕ) (after : AppState l)
      → Effects state request salt now after
      → after.heap ≡ state.heap
  Effects-heap state request salt now after (inl e) = ap (λ x. x.heap) e
  Effects-heap state request salt now after (inr (inl (at, takes, e))) =
      let (cache, kept) = cache_flush_handler-CacheOnly l state in ap (λ x. x.heap) (e ∙ kept)
  Effects-heap state request salt now after (inr (inr (at, takes, payload, m, e))) =
      let (key_store, kept) = keys_create_handler-KeysOnly l state payload salt now in
      ap (λ x. x.heap) (e ∙ kept)

  dispatched-Effects :
      (axum : Axum) (decode : String → String) (state : AppState l) (request : AdminRequest l)
      (salt now : ℕ)
      → Axum.IsLawful axum
      → Effects state request salt now (admin_app l axum decode state request salt now).0
  dispatched-Effects axum decode state request salt now lawful =
      let dispatch = lawful.find-literal router request.method request.path router-literal in
      elim (Found-cases (exact router request.method request.path)) [
        | inl (inl m) ↦ inl (
            ap (λ x. x.0)
              (admin_app-found axum decode state request salt now not_found (dispatch ∙ m)))
        | inl (inr m) ↦ inl (
            ap (λ x. x.0)
              (admin_app-found axum decode state request salt now method_not_allowed
                (dispatch ∙ m)))
        | inr (target, captures, m) ↦
            let ((r, (listed, (at, (takes, same)))), bare) =
              exact-Routes router request.method request.path target captures m in
            let ran =
              admin_app-found axum decode state request salt now (matched target [])
                (dispatch ∙ m ∙ ap (matched target) bare) in
            subst (λ x. Effects state request salt now x) (sym (ap (λ x. x.0) ran))
              (endpoint-Effects axum decode state request salt now target r.path r.method
                lawful.no_captures (sym at) takes
                (All-In (λ q. (q.path, q.method) ≡ place q.target) router r router-place listed
                  ∙ ap place same))
      ]

  -- With axum 0.7, a request to the admin API changes nothing, or it deletes `/admin/cache` and the
  -- cache is flushed, or it posts a payload to `/admin/keys` and the handler that creates keys runs
  -- on it. In each case every upstream stays as it was.
  pub admin_app-Effects :
      (axum : Axum) (decode : String → String) (state : AppState l) (request : AdminRequest l)
      (salt now : ℕ)
      → Axum.IsLawful axum
      → Effects state request salt now (admin_app l axum decode state request salt now).0
        × ((admin_app l axum decode state request salt now).0.heap ≡ state.heap)
  admin_app-Effects axum decode state request salt now lawful =
      let effects = dispatched-Effects axum decode state request salt now lawful in
      (effects, Effects-heap state request salt now _ effects)
