-- ===== src/External/Instances/Web.antt =====
-- Stand-ins for `axum`, for listening sockets and for `prometheus-client`.
use soroban_gate.Common.{
  ℕ, ◌≡◌, ◌≢◌, ◌∙◌, sym, refl, subst, Bool, true, false, List, [], ◌∷◌, Option, none, some, String,
  if◌then◌else◌, str_eq, str_eq_refl, Bool-cases, inl, inr, arith,
}
use soroban_gate.Common.Outcome.{ok, err}
use soroban_gate.Common.Words.{inc_u64}
use soroban_gate.External.Axum
use soroban_gate.External.Axum.{Axum}
use soroban_gate.External.Net
use soroban_gate.External.Net.{Net}
use soroban_gate.External.Prometheus
use soroban_gate.External.Prometheus.{Prometheus, Labels}
use soroban_gate.Server.Http.{Response, Body}

abbrev first_capture : List (String × String) → Option String
first_capture [] = none
first_capture ((name, value) ∷ rest) = some value

abbrev status_only : ℕ → Response
status_only status = record { status = status; headers = []; body = Body.bytes [] }

-- It takes every pattern as a literal path.
abbrev pub literal_axum : Axum
literal_axum = record {
  find = λ {A} routes method path. Axum.exact routes method path;
  path_argument = first_capture;
  not_found_response = status_only 404;
  method_not_allowed_response = status_only 405;
  path_rejection = status_only 500;
}

pub literal_axum-IsLawful : Axum.IsLawful literal_axum
literal_axum-IsLawful = record {
  find-literal = λ {A} routes method path literal. refl;
  no_captures = refl;
  not_found_status = refl;
  method_not_allowed_status = refl;
  path_rejection_status = refl;
}

abbrev is_bound : String → List String → Bool
is_bound address [] = false
is_bound address (a ∷ rest) = if str_eq a address then true else is_bound address rest

-- The sockets are the addresses, all of them with a port.
abbrev pub list_net : Net
list_net = record {
  Sockets = List String;
  bind = λ s address. if is_bound address s then err "Address already in use" else ok (address ∷ s);
  held = λ s address. is_bound address s;
  names_port = λ address. true;
}

is_bound-head : (address : String) (s : List String) → is_bound address (address ∷ s) ≡ true
is_bound-head address s = rw (str_eq_refl address) refl

bind-cons :
    (s t : List String) (address : String) → list_net.bind s address ≡ ok t → address ∷ s ≡ t
bind-cons s t address e = elim (Bool-cases (is_bound address s)) [
  | inl bound ↦ ground (arith, e, bound)
  | inr free ↦ ground (arith, e, free)
]

is_bound-cons :
    (a address : String) (s : List String)
    → is_bound address s ≡ true
    → is_bound address (a ∷ s) ≡ true
is_bound-cons a address s h = ground (arith, h)

pub list_net-IsLawful : Net.IsLawful list_net
list_net-IsLawful = record {
  bind-held = λ s t address e.
      subst (λ q. is_bound address q ≡ true) (bind-cons s t address e) (is_bound-head address s);
  bind-keeps = λ s t address other e held.
      subst (λ q. is_bound other q ≡ true) (bind-cons s t address e)
        (is_bound-cons address other s held);
  bind-in_use = λ s t address port held e. ground (arith, held, e);
}

abbrev counter_of : {L : Type 0} → ⦃e : Labels L⦄ → L → List (L × ℕ) → ℕ
counter_of labels [] = 0
counter_of ⦃e⦄ labels ((l, n) ∷ rest) = if e.same l labels then n else counter_of labels rest

abbrev increment : {L : Type 0} → ⦃e : Labels L⦄ → L → List (L × ℕ) → List (L × ℕ)
increment labels [] = (labels, 1) ∷ []
increment ⦃e⦄ labels ((l, n) ∷ rest) =
    if e.same l labels then (l, inc_u64 n) ∷ rest else (l, n) ∷ increment labels rest

-- A family is an association list.
abbrev pub list_prometheus : Prometheus
list_prometheus = record {
  Counters = λ L. List (L × ℕ);
  Histograms = λ L. List (L × ℕ);
  Gauges = λ L. List (L × ℕ);
  no_counters = λ {L}. [];
  no_histograms = λ {L}. [];
  no_gauges = λ {L}. [];
  inc = λ {L} ⦃e⦄ labels family. increment labels family;
  value = λ {L} ⦃e⦄ labels family. counter_of labels family;
  observe = λ {L} ⦃e⦄ labels family. increment labels family;
  observations = λ {L} ⦃e⦄ labels family. counter_of labels family;
}

module _ {L : Type 0} ⦃e : Labels L⦄ where
  same_refl : (a : L) → e.same a a ≡ true
  same_refl a = (e.same_iff a a).1 refl

  counter_of-increment :
      (labels : L) (family : List (L × ℕ))
      → counter_of labels (increment labels family) ≡ inc_u64 (counter_of labels family)
  counter_of-increment labels [] = rw (same_refl labels) refl
  counter_of-increment labels ((l, n) ∷ rest) = elim (Bool-cases (e.same l labels)) [
    | inl same ↦ ground (arith, same)
    | inr other ↦ ground (arith, other, counter_of-increment labels rest)
  ]

  same-other : (labels other : L) → other ≢ labels → e.same other labels ≡ false
  same-other labels other different = elim (Bool-cases (e.same other labels)) [
    | inl same ↦ absurd (different ((e.same_iff other labels).0 same))
    | inr differs ↦ differs
  ]

  counter_of-increment_other :
      (labels other : L) (family : List (L × ℕ))
      → other ≢ labels
      → counter_of labels (increment other family) ≡ counter_of labels family
  counter_of-increment_other labels other [] different = rw (same-other labels other different) refl
  counter_of-increment_other labels other ((l, n) ∷ rest) different =
      elim (Bool-cases (e.same l other)) [
        | inl same ↦
            let here : l ≡ other = (e.same_iff l other).0 same in
            let not_here : e.same l labels ≡ false =
              same-other labels l (λ x. different (sym here ∙ x)) in
            ground (arith, same, not_here)
        | inr differs ↦
            ground (arith, differs, counter_of-increment_other labels other rest different)
      ]

pub list_prometheus-IsLawful : Prometheus.IsLawful list_prometheus
list_prometheus-IsLawful = record {
  value-none = λ {L} ⦃e⦄ labels. refl;
  value-inc = λ {L} ⦃e⦄ labels family. counter_of-increment labels family;
  value-inc_other = λ {L} ⦃e⦄ labels other family different.
      counter_of-increment_other labels other family different;
}
