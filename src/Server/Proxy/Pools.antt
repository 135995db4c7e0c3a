-- ===== src/Server/Proxy/Pools.antt =====
-- src/server/proxy.rs: the list of pools as `proxy_handler` reads and writes it.
use soroban_gate.Common.{
  ◌≡◌, ◌∙◌, ap, sym, refl, subst, true, false, List, [], ◌∷◌, some, String, str_eq, str_eq_iff,
  str_eq_refl, Bool-cases, inl, inr, map, arith,
}
use soroban_gate.Pool.Upstream.{Arc}
use soroban_gate.Pool.Pools.{UpstreamPool}
use soroban_gate.Server.Proxy.{find_pool, put_pool}

abbrev pub names : List UpstreamPool → List String
names pools = map (λ p. p.name) pools

abbrev pub arcs : List UpstreamPool → List (List Arc)
arcs pools = map (λ p. p.upstreams) pools

pub names-put_pool : (q : UpstreamPool) (ps : List UpstreamPool) → names (put_pool q ps) ≡ names ps
unfolding put_pool
names-put_pool q [] = refl
names-put_pool q (p ∷ ps) = ground (arith, str_eq_iff p.name q.name, names-put_pool q ps)

pub find_pool-name :
    (name : String) (p : UpstreamPool) (ps : List UpstreamPool)
    → find_pool name ps ≡ some p
    → p.name ≡ name
unfolding find_pool
find_pool-name name p [] h = ground (arith, h)
find_pool-name name p (r ∷ ps) h = elim (Bool-cases (str_eq r.name name)) [
  | inl e ↦ ground (arith, h, e, str_eq_iff r.name name)
  | inr e ↦ find_pool-name name p ps (ground (arith, h, e))
]

pub arcs-put_pool :
    (name : String) (p q : UpstreamPool) (ps : List UpstreamPool)
    → find_pool name ps ≡ some p
    → q.name ≡ p.name
    → q.upstreams ≡ p.upstreams
    → arcs (put_pool q ps) ≡ arcs ps
unfolding put_pool find_pool
arcs-put_pool name p q [] found same_name same = refl
arcs-put_pool name p q (r ∷ ps) found same_name same = elim (Bool-cases (str_eq r.name name)) [
  | inl e ↦
      let same_pool : r ≡ p = ground (arith, found, e) in
      let same_names : str_eq r.name q.name ≡ true =
        subst (λ n. str_eq r.name n ≡ true) (ap (λ x. x.name) same_pool ∙ sym same_name)
          (str_eq_refl r.name) in
      ground (arith, same_names, same, ap (λ x. x.upstreams) same_pool)
  | inr e ↦
      let later : find_pool name ps ≡ some p = ground (arith, found, e) in
      let other : str_eq r.name q.name ≡ false =
        subst (λ n. str_eq r.name n ≡ false) (sym (same_name ∙ find_pool-name name p ps later)) e in
      ground (arith, other, arcs-put_pool name p q ps later same_name same)
]
