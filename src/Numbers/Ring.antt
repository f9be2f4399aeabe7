-- ===== src/Numbers/Ring.antt =====
-- What follows from the laws of exact numbers.
use distributed_math_arh.Prelude.{◌≡◌, sym, ap, ◌∙◌}
use distributed_math_arh.Numbers.{Numbers, IsExact, ◌⊕◌, ◌⊖◌, ◌⊗◌}

module _ {F : Type 0} ⦃num : Numbers F⦄ (exact : IsExact num) where
  pub add-zero : (a : F) → a ⊕ num.lit 0 ≡ a
  add-zero a = exact.add_comm a (num.lit 0) ∙ exact.zero-add a

  pub add-neg : (a : F) → a ⊕ num.negative a ≡ num.lit 0
  add-neg a = exact.add_comm a (num.negative a) ∙ exact.neg-add a

  -- A sum that is zero determines its second part.
  pub eq_neg : (a b : F) → a ⊕ b ≡ num.lit 0 → b ≡ num.negative a
  eq_neg a b h =
      sym (exact.zero-add b)
      ∙ ap (λ z. z ⊕ b) (sym (exact.neg-add a))
      ∙ exact.add_assoc (num.negative a) a b
      ∙ ap (λ z. num.negative a ⊕ z) h
      ∙ add-zero (num.negative a)

  pub add_left_comm : (a b c : F) → a ⊕ (b ⊕ c) ≡ b ⊕ (a ⊕ c)
  add_left_comm a b c =
      sym (exact.add_assoc a b c) ∙ ap (λ z. z ⊕ c) (exact.add_comm a b) ∙ exact.add_assoc b a c

  pub add_interchange : (a b c d : F) → (a ⊕ b) ⊕ (c ⊕ d) ≡ (a ⊕ c) ⊕ (b ⊕ d)
  add_interchange a b c d =
      exact.add_assoc a b (c ⊕ d)
      ∙ ap (λ z. a ⊕ z) (add_left_comm b c d)
      ∙ sym (exact.add_assoc a c (b ⊕ d))

  pub neg-neg : (a : F) → num.negative (num.negative a) ≡ a
  neg-neg a = sym (eq_neg (num.negative a) a (exact.neg-add a))

  pub neg-add_lem : (a b : F) → num.negative (a ⊕ b) ≡ num.negative a ⊕ num.negative b
  neg-add_lem a b = sym (
      eq_neg (a ⊕ b) (num.negative a ⊕ num.negative b) (
        add_interchange a b (num.negative a) (num.negative b)
        ∙ ap (λ z. z ⊕ (b ⊕ num.negative b)) (add-neg a)
        ∙ exact.zero-add (b ⊕ num.negative b)
        ∙ add-neg b))

  pub sub_swap : (a b : F) → num.negative (a ⊖ b) ≡ b ⊖ a
  sub_swap a b =
      ap num.negative (exact.sub-eq a b)
      ∙ neg-add_lem a (num.negative b)
      ∙ ap (λ z. num.negative a ⊕ z) (neg-neg b)
      ∙ exact.add_comm (num.negative a) b
      ∙ sym (exact.sub-eq b a)

  pub mul-zero : (a : F) → a ⊗ num.lit 0 ≡ num.lit 0
  mul-zero a =
      let twice : a ⊗ num.lit 0 ⊕ a ⊗ num.lit 0 ≡ a ⊗ num.lit 0 =
        sym (exact.mul-add a (num.lit 0) (num.lit 0))
        ∙ ap (λ z. a ⊗ z) (exact.zero-add (num.lit 0)) in
      sym (exact.zero-add (a ⊗ num.lit 0))
      ∙ ap (λ z. z ⊕ a ⊗ num.lit 0) (sym (exact.neg-add (a ⊗ num.lit 0)))
      ∙ exact.add_assoc (num.negative (a ⊗ num.lit 0)) (a ⊗ num.lit 0) (a ⊗ num.lit 0)
      ∙ ap (λ z. num.negative (a ⊗ num.lit 0) ⊕ z) twice
      ∙ exact.neg-add (a ⊗ num.lit 0)

  pub add-mul : (a b c : F) → (a ⊕ b) ⊗ c ≡ a ⊗ c ⊕ b ⊗ c
  add-mul a b c =
      rw (exact.mul_comm (a ⊕ b) c, exact.mul_comm a c, exact.mul_comm b c) (exact.mul-add c a b)

  pub mul-neg : (a b : F) → a ⊗ num.negative b ≡ num.negative (a ⊗ b)
  mul-neg a b =
      eq_neg (a ⊗ b) (a ⊗ num.negative b)
        (sym (exact.mul-add a b (num.negative b)) ∙ ap (λ z. a ⊗ z) (add-neg b) ∙ mul-zero a)

  pub neg-mul : (a b : F) → num.negative a ⊗ b ≡ num.negative (a ⊗ b)
  neg-mul a b =
      exact.mul_comm (num.negative a) b ∙ mul-neg b a ∙ ap num.negative (exact.mul_comm b a)

  -- The product of two differences does not see that both are taken the other way round.
  pub sub-mul-sub : (a b c d : F) → (a ⊖ b) ⊗ (c ⊖ d) ≡ (b ⊖ a) ⊗ (d ⊖ c)
  sub-mul-sub a b c d =
      sym (neg-neg ((a ⊖ b) ⊗ (c ⊖ d)))
      ∙ ap num.negative (sym (mul-neg (a ⊖ b) (c ⊖ d)))
      ∙ sym (neg-mul (a ⊖ b) (num.negative (c ⊖ d)))
      ∙ rw (sub_swap a b, sub_swap c d)
