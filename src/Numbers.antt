-- ===== src/Numbers.antt =====
-- `FloatType` of utilLib/include/common/sharedDeclarations.h: the operations that the numeric code
-- uses on it, as an interface. Nothing is assumed of them but where a theorem asks for exact numbers.
pub mod Ring
pub mod Sums
pub mod Binary
use distributed_math_arh.Prelude.{ℕ, zero, suc, Bool, ◌≡◌}

pub record Numbers (F : Type 0) : Type 0 where
  pub plus : F → F → F
  pub minus : F → F → F
  pub times : F → F → F
  pub over : F → F → F
  pub negative : F → F
  pub sin : F → F
  pub cos : F → F
  pub sqrt : F → F
  pub pi : F
  pub equal : F → F → Bool
  -- the number of a literal or of an integer that is converted
  pub lit : ℕ → F

module _ {F : Type 0} ⦃num : Numbers F⦄ where
  infixl 65 ◌⊕◌ ◌⊖◌
  infixl 70 ◌⊗◌ ◌⊘◌
  abbrev pub ◌⊕◌ : F → F → F
  ◌⊕◌ = num.plus

  abbrev pub ◌⊖◌ : F → F → F
  ◌⊖◌ = num.minus

  abbrev pub ◌⊗◌ : F → F → F
  ◌⊗◌ = num.times

  abbrev pub ◌⊘◌ : F → F → F
  ◌⊘◌ = num.over

  -- std::pow with an integer exponent
  abbrev pub pow : F → ℕ → F
  pow x zero = num.lit 1
  pow x (suc n) = x ⊗ pow x n

-- The laws of a commutative ring, which floating-point numbers have up to rounding.
pub record IsExact {F : Type 0} (num : Numbers F) : Type 0 where
  pub add_assoc : (a b c : F) → num.plus (num.plus a b) c ≡ num.plus a (num.plus b c)
  pub add_comm : (a b : F) → num.plus a b ≡ num.plus b a
  pub zero-add : (a : F) → num.plus (num.lit 0) a ≡ a
  pub neg-add : (a : F) → num.plus (num.negative a) a ≡ num.lit 0
  pub sub-eq : (a b : F) → num.minus a b ≡ num.plus a (num.negative b)
  pub mul_assoc : (a b c : F) → num.times (num.times a b) c ≡ num.times a (num.times b c)
  pub mul_comm : (a b : F) → num.times a b ≡ num.times b a
  pub one-mul : (a : F) → num.times (num.lit 1) a ≡ a
  pub mul-add : (a b c : F) → num.times a (num.plus b c) ≡ num.plus (num.times a b) (num.times a c)
