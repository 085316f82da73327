-- ===== src/RateLimiter/Floats.antt =====
-- IEEE 754 binary64 as the message buckets use it: the operations, and what holds of them on
-- whole numbers, which are exact below 2 ^ 53.
use obscura_proto.Common.{ℕ, ◌+◌, ◌<◌, ◌^◌, ◌≡◌, Bool, ltb, leb}

pub record Double : Type 1 where
  pub Carrier : Type 0
  -- static_cast<double>
  pub of_ℕ : ℕ → Carrier
  pub add : Carrier → Carrier → Carrier
  pub sub : Carrier → Carrier → Carrier
  pub mul : Carrier → Carrier → Carrier
  pub div : Carrier → Carrier → Carrier
  -- `a < b` and `a <= b`
  pub lt : Carrier → Carrier → Bool
  pub le : Carrier → Carrier → Bool

pub record DoubleLaws (d : Double) : Type 0 where
  pub lt-of_ℕ : (a b : ℕ) → a < 2 ^ 53 → b < 2 ^ 53 → d.lt (d.of_ℕ a) (d.of_ℕ b) ≡ ltb a b
  pub le-of_ℕ : (a b : ℕ) → a < 2 ^ 53 → b < 2 ^ 53 → d.le (d.of_ℕ a) (d.of_ℕ b) ≡ leb a b
  pub add-of_ℕ : (a b : ℕ) → a + b < 2 ^ 53 → d.add (d.of_ℕ a) (d.of_ℕ b) ≡ d.of_ℕ (a + b)
  pub sub-of_ℕ : (a b : ℕ) → a + b < 2 ^ 53 → d.sub (d.of_ℕ (a + b)) (d.of_ℕ b) ≡ d.of_ℕ a
  -- Nothing divided by a positive number, and nothing times a number.
  pub div_zero : (b : ℕ) → 0 < b → b < 2 ^ 53 → d.div (d.of_ℕ 0) (d.of_ℕ b) ≡ d.of_ℕ 0
  pub mul_zero : (b : ℕ) → b < 2 ^ 53 → d.mul (d.of_ℕ 0) (d.of_ℕ b) ≡ d.of_ℕ 0
