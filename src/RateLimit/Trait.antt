-- ===== src/RateLimit/Trait.antt =====
-- src/rate_limit/mod.rs: the trait `RateLimiter`, its implementation, and what a user of the trait
-- may rely on where the implementation keeps an account for each key.
use soroban_gate.Common.{
  ℕ, ◌-◌, leb, some, str_eq_refl, ◌≡◌, ◌≢◌, ◌∙◌, ap, sym, refl, subst, List, [], ◌∷◌, Option,
  String, arith, filter, if◌then◌else◌, str_eq, str_eq_iff, Bool-cases, inl, inr,
}
use soroban_gate.Common.HashMap
use soroban_gate.Common.Outcome.{Result, ok, err}
use soroban_gate.RateLimit
use soroban_gate.RateLimit.{RateLimiterDispatch, memory}
use soroban_gate.RateLimit.TokenBucket
use soroban_gate.RateLimit.TokenBucket.{
  Bucket, TokenBucketRateLimiter, RateLimited, rate_limited, token, bucket_or, refilled,
}
use soroban_gate.RateLimit.TokenBucket.Bounds.{Call, check_rate_other}

-- The limiter after the call comes with the verdict, and `now` is the time of the call.
pub record RateLimiter (A : Type 0) : Type 0 where
  pub check_rate : A → String → ℕ → ℕ → ℕ → A × Result (Unit {0}) RateLimited

instance abbrev pub dispatch_limiter : RateLimiter RateLimiterDispatch
dispatch_limiter = record { check_rate = RateLimit.check_rate }

-- What the limiter keeps for a key is all that it looks at for this key, and no other call touches
-- it.
pub record IsKeyed {A : Type 0} (r : RateLimiter A) : Type 1 where
  pub Account : Type 0
  pub account : String → A → Account
  pub act : Account → ℕ → ℕ → ℕ → Account × Result (Unit {0}) RateLimited
  pub own :
      (a : A) (key : String) (rps burst now : ℕ)
      → let (a', verdict) = r.check_rate a key rps burst now in
        (account key a', verdict) ≡ act (account key a) rps burst now
  pub other :
      (a : A) (key j : String) (rps burst now : ℕ)
      → key ≢ j
      → account j (r.check_rate a key rps burst now).0 ≡ account j a

abbrev pub only : String → List Call → List Call
only key = filter (λ c. str_eq c.key key)

module _ {A : Type 0} (r : RateLimiter A) where
  abbrev called : A → Call → A × Result (Unit {0}) RateLimited
  called a c = r.check_rate a c.key c.requests_per_second c.burst c.now

  -- The verdicts on the calls for one key, in a sequence of calls for any keys.
  unfoldable pub verdicts : String → A → List Call → List (Result (Unit {0}) RateLimited)
  verdicts key a [] = []
  verdicts key a (c ∷ cs) =
      let rest = verdicts key (called a c).0 cs in
      if str_eq c.key key then (called a c).1 ∷ rest else rest

  own_call :
      (k : IsKeyed r) (key : String) (a : A) (c : Call)
      → c.key ≡ key
      → ◌≡◌ {A = k.Account × Result (Unit {0}) RateLimited}
          (k.account key (called a c).0, (called a c).1)
          (k.act (k.account key a) c.requests_per_second c.burst c.now)
  own_call k key a c e =
      subst
        (λ j.
          ◌≡◌ {A = k.Account × Result (Unit {0}) RateLimited}
            (k.account j (called a c).0, (called a c).1)
            (k.act (k.account j a) c.requests_per_second c.burst c.now))
        e (k.own a c.key c.requests_per_second c.burst c.now)

  verdicts-agree :
      (k : IsKeyed r) (key : String) (a b : A) (cs : List Call)
      → k.account key a ≡ k.account key b
      → verdicts key a cs ≡ verdicts key b (only key cs)
  unfolding verdicts
  verdicts-agree k key a b [] same = refl
  verdicts-agree k key a b (c ∷ cs) same = elim (Bool-cases (str_eq c.key key)) [
    | inl mine ↦
        let named = (str_eq_iff c.key key).0 mine in
        let alike =
          own_call k key a c named
          ∙ ap (λ x. k.act x c.requests_per_second c.burst c.now) same
          ∙ sym (own_call k key b c named) in
        let later = verdicts-agree k key (called a c).0 (called b c).0 cs (ap (λ x. x.0) alike) in
        ground (arith, mine, later, ap (λ x. x.1) alike)
    | inr others ↦
        let kept =
          k.other a c.key key c.requests_per_second c.burst c.now
            (λ e. cc ((str_eq_iff c.key key).1 e)) in
        ground (arith, others, verdicts-agree k key (called a c).0 b cs (kept ∙ same))
  ]

-- The token bucket of a key, as `check_rate` finds it and leaves it.
abbrev spend : Option Bucket → ℕ → ℕ → ℕ → Option Bucket × Result (Unit {0}) RateLimited
spend o rps burst now =
    let tokens = refilled (bucket_or o burst now) rps burst now in
    if leb token tokens
    then (some (record { tokens = tokens - token; last_refill = now }), ok tt)
    else (some (record { tokens = tokens; last_refill = now }), err rate_limited)

spend-check_rate :
    (limiter : TokenBucketRateLimiter) (key : String) (rps burst now : ℕ)
    → let (limiter', verdict) = TokenBucket.check_rate limiter key rps burst now in
      (HashMap.get key limiter'.buckets, verdict)
      ≡ spend (HashMap.get key limiter.buckets) rps burst now
unfolding TokenBucket.check_rate
spend-check_rate limiter key rps burst now =
    let b = bucket_or (HashMap.get key limiter.buckets) burst now in
    let tokens = refilled b rps burst now in
    ground (
      arith,
      str_eq_refl key,
      HashMap.get-insert key key (record { tokens = tokens; last_refill = now }) limiter.buckets,
      HashMap.get-insert key key (record { tokens = tokens - token; last_refill = now })
          limiter.buckets,
    )

abbrev bucket_of : String → RateLimiterDispatch → Option Bucket
bucket_of key (memory limiter) = HashMap.get key limiter.buckets

pub dispatch_limiter-IsKeyed : IsKeyed dispatch_limiter
unfolding RateLimit.check_rate
dispatch_limiter-IsKeyed = record {
  Account = Option Bucket;
  account = bucket_of;
  act = spend;
  own = own_bucket;
  other = other_bucket;
}
  where
    own_bucket :
        (d : RateLimiterDispatch) (key : String) (rps burst now : ℕ)
        → let (d', verdict) = RateLimit.check_rate d key rps burst now in
          (bucket_of key d', verdict) ≡ spend (bucket_of key d) rps burst now
    own_bucket (memory limiter) key rps burst now = spend-check_rate limiter key rps burst now

    other_bucket :
        (d : RateLimiterDispatch) (key j : String) (rps burst now : ℕ)
        → key ≢ j
        → bucket_of j (RateLimit.check_rate d key rps burst now).0 ≡ bucket_of j d
    other_bucket (memory limiter) key j rps burst now n =
        check_rate_other limiter key j rps burst now n

-- The verdicts that the rate limiter gives on the calls for one key are the ones that it gives
-- when nobody calls it for another key, in whatever order the calls come and at whatever rates.
pub verdicts-isolated :
    (limiter : RateLimiterDispatch) (key : String) (cs : List Call)
    → verdicts dispatch_limiter key limiter cs ≡ verdicts dispatch_limiter key limiter (only key cs)
verdicts-isolated limiter key cs =
    verdicts-agree dispatch_limiter dispatch_limiter-IsKeyed key limiter limiter cs refl
