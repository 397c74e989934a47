-- ===== src/Float.antt =====
-- `f64`, of which there is no copy here: its values and the operations that the program uses are a
-- parameter, and what IEEE 754 says of them stands as named laws.
pub mod Scaled
use xboxproxy.Prelude.{ℕ, ℤ, ◌≡◌, Bool, true, false, Option, some, Ordering, unwrap_or}

pub record Float : Type 1 where
  pub Carrier : Type 0
  pub of_u64 : ℕ → Carrier
  pub of_i64 : ℤ → Carrier
  pub min_value : Carrier
  pub mul : Carrier → Carrier → Carrier
  pub sub : Carrier → Carrier → Carrier
  pub div : Carrier → Carrier → Carrier
  pub partial_cmp : Carrier → Carrier → Option Ordering

abbrev pub is_gt : Ordering → Bool
is_gt Ordering.gt = true
is_gt _ = false

module _ (f : Float) where
  -- `a.partial_cmp(&b).unwrap_or(Ordering::Equal)`
  abbrev pub cmp_or_equal : f.Carrier → f.Carrier → Ordering
  cmp_or_equal x y = unwrap_or (f.partial_cmp x y) Ordering.eq

  abbrev pub exceeds : f.Carrier → f.Carrier → Bool
  exceeds x y = is_gt (cmp_or_equal x y)

  -- Not a NaN: only a NaN is not equal to itself.
  abbrev pub IsNumber : f.Carrier → Type 0
  IsNumber x = f.partial_cmp x x ≡ some Ordering.eq

  -- Numbers are ordered, infinities included, and these operations on numbers give no NaN.
  pub record IsIeee : Type 0 where
    pub number_of_u64 : (n : ℕ) → IsNumber (f.of_u64 n)
    pub number_min_value : IsNumber f.min_value
    pub number_mul : (x : f.Carrier) → IsNumber x → IsNumber (f.mul x (f.of_u64 1000))
    pub number_sub : (x : f.Carrier) (n : ℕ) → IsNumber x → IsNumber (f.sub x (f.of_u64 n))
    pub exceeds_asymm :
        (x y : f.Carrier) → IsNumber x → IsNumber y → exceeds x y ≡ true → exceeds y x ≡ false
    pub exceeds_trans :
        (x y z : f.Carrier)
        → IsNumber x
        → IsNumber y
        → IsNumber z
        → exceeds x y ≡ false
        → exceeds y z ≡ false
        → exceeds x z ≡ false
