-- ===== src/Pool/Balancer/Tests.antt =====
-- The theorems on src/pool/balancer.rs at concrete upstreams.
use soroban_gate.Common.{◌≡◌, ◌⊎◌, List, [], ◌∷◌, none, some, if◌then◌else◌, ◌==◌}
use soroban_gate.Pool.Upstream
use soroban_gate.Pool.Upstream.{UpstreamState, Arc, Heap, active_connections}
use soroban_gate.Pool.Balancer.{least_connections}
use soroban_gate.Pool.Balancer.Choice.{least_connections-IsFirstMin, IsFirstMin}

-- Upstream 0 has weight 3, and every other one weight 1.
abbrev heavy_first : Heap
heavy_first a = record (Upstream.new "main" "http://up" (if a == 0 then 3 else 1) none 0) {
  connection_count = if a == 0 then 5 else 2;
}

abbrev two : List Arc
two = 0 ∷ 1 ∷ []

least_connections-IsFirstMin_example :
    ((two ≡ []) × (least_connections heavy_first two ≡ none))
    ⊎ ((u : Arc) × (least_connections heavy_first two ≡ some u)
        × IsFirstMin (λ a. active_connections (heavy_first a)) u two)
least_connections-IsFirstMin_example = least_connections-IsFirstMin heavy_first two
