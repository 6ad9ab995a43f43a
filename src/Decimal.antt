-- ===== src/Decimal.antt =====
-- decimal.js is not part of the repository, so `Decimal` is an interface: what the code calls. The
-- theorems hold for every implementation of it, whatever its precision and rounding.
use infra_billing.Base.{Bool, Str, [], if◌then◌else◌, leb, ltb, ℕ, ◌*◌, ◌+◌, ◌-◌, ◌/◌, ◌==◌, ◌∷◌}

pub record Decimal (D : Type 0) : Type 0 where
  -- `new Decimal(0)`, `new Decimal(n)`, and `new Decimal(a / b)` of a quotient of integers.
  pub nought : D
  pub of_ℕ : ℕ → D
  pub of_ratio : ℕ → ℕ → D
  pub add : D → D → D
  pub sub : D → D → D
  pub mul : D → D → D
  pub div : D → D → D
  pub abs : D → D
  -- `x.lt(y)` and `x.lte(y)`; `x.gte(y)` is `lte y x`.
  pub lt : D → D → Bool
  pub lte : D → D → Bool
  pub equals : D → D → Bool
  pub is_negative : D → Bool
  -- `x.toDecimalPlaces(2, Decimal.ROUND_HALF_UP)`.
  pub round_half_up : D → D
  -- `x.floor().toNumber()` of a number that is not negative.
  pub floor : D → ℕ
  -- `x.toFixed(places)`.
  pub to_fixed : ℕ → D → Str

-- An implementation, for the examples: whole numbers, with a sign.
pub data Whole : Type 0 where
  pos : ℕ → Whole
  neg : ℕ → Whole

abbrev plus_part : Whole → ℕ
plus_part (pos n) = n
plus_part (neg n) = 0

abbrev minus_part : Whole → ℕ
minus_part (pos n) = 0
minus_part (neg n) = n

abbrev minus : ℕ → ℕ → Whole
minus a b = if leb b a then pos (a - b) else neg (b - a)

abbrev sign_of : Whole → Whole → ℕ → Whole
sign_of (pos a) (pos b) n = pos n
sign_of (neg a) (neg b) n = pos n
sign_of _ _ n = minus 0 n

abbrev size : Whole → ℕ
size (pos n) = n
size (neg n) = n

abbrev below : (ℕ → ℕ → Bool) → Whole → Whole → Bool
below test a b = test (plus_part a + minus_part b) (plus_part b + minus_part a)

instance abbrev pub whole_decimal : Decimal Whole
whole_decimal = record {
  nought = pos 0;
  of_ℕ = pos;
  of_ratio = λ a b. pos (a / b);
  add = λ a b. minus (plus_part a + plus_part b) (minus_part a + minus_part b);
  sub = λ a b. minus (plus_part a + minus_part b) (minus_part a + plus_part b);
  mul = λ a b. sign_of a b (size a * size b);
  div = λ a b. sign_of a b (size a / size b);
  abs = λ a. pos (size a);
  lt = below ltb;
  lte = below leb;
  equals = below ◌==◌;
  is_negative = λ a. ltb 0 (minus_part a);
  round_half_up = λ a. a;
  floor = plus_part;
  to_fixed = λ places a. plus_part a ∷ minus_part a ∷ [];
}
