-- ===== src/Pool/Balancer/Tally.antt =====
-- Counting how many numbers of a window pass a test, when the test is periodic, and counting
-- entries of a list.
use native.Mathlib.Nat.{add-zero, mod_self, add-mod-mod}
use soroban_gate.Common.{
  ℕ, zero, suc, ◌+◌, ◌%◌, ◌<◌, ◌≡◌, refl, sym, ap, ◌∙◌, Bool, true, false, List, [], ◌∷◌, ◌++◌,
  arith, replicate, count, if◌then◌else◌, ◌==◌,
}
use soroban_gate.Pool.Upstream.{Arc}

abbrev pub bit : Bool → ℕ
bit true = 1
bit false = 0

-- How many of the `n` numbers from `c` on pass a test.
abbrev pub tally : ℕ → (ℕ → Bool) → ℕ → ℕ
tally zero p c = 0
tally (suc n) p c = bit (p c) + tally n p (suc c)

pub tally-suc : (n : ℕ) (p : ℕ → Bool) (c : ℕ) → tally n p (suc c) ≡ tally n (λ k. p (suc k)) c
tally-suc zero p c = refl
tally-suc (suc n) p c = ap (λ t. bit (p (suc c)) + t) (tally-suc n p (suc c))

pub tally-eq :
    (n : ℕ) (p q : ℕ → Bool) (c : ℕ) → ((k : ℕ) → k < c + n → p k ≡ q k) → tally n p c ≡ tally n q c
tally-eq zero p q c h = refl
tally-eq (suc n) p q c h = rw (h c (omega arith), tally-eq n p q (suc c) (λ k b. h k (omega arith)))

-- The test at one more number at the end.
pub tally-last : (n : ℕ) (p : ℕ → Bool) (c : ℕ) → tally (suc n) p c ≡ tally n p c + bit (p (c + n))
tally-last zero p c = omega (arith, ap (λ k. bit (p k)) (add-zero c))
tally-last (suc n) p c =
    let e : suc c + n ≡ c + suc n = omega arith in
    let ih = tally-last n p (suc c) in omega (arith, ih, ap (λ k. bit (p k)) e)

-- Over a whole period it does not matter where the window starts.
pub tally-period :
    (n c : ℕ) (p : ℕ → Bool) → ((k : ℕ) → p (k + n) ≡ p k) → tally n p c ≡ tally n p 0
tally-period n zero p h = refl
tally-period n (suc c) p h =
    let last = tally-last n p c in
    let ih = tally-period n c p h in omega (arith, last, ih, ap bit (h c))

pub mod-add_self : (k n : ℕ) → (k + n) % n ≡ k % n
mod-add_self k n = sym (add-mod-mod k n n) ∙ rw (mod_self n, add-zero k)

pub count-append {ℓ} :
    {A : Type ℓ} (p : A → Bool) (xs ys : List A) → count p (xs ++ ys) ≡ count p xs + count p ys
count-append p [] ys = omega arith
count-append p (x ∷ xs) ys = ground (arith, count-append p xs ys)

pub count-replicate :
    (a : Arc) (n : ℕ) (u : Arc) → count (λ v. v == a) (replicate n u) ≡ (if u == a then n else 0)
count-replicate a zero u = ground arith
count-replicate a (suc n) u = ground (arith, count-replicate a n u)
