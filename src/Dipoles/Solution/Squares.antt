-- ===== src/Dipoles/Solution/Squares.antt =====
-- Two matrices that commute, and what the sum of their squares does to the rows of the system.
use mathlib.Core.Path.{ap₂}
use distributed_math_arh.Prelude.{ℕ, ◌<◌, ◌≡◌, sym, ap, ◌∙◌, fun_ext}
use distributed_math_arh.Numbers.{Numbers, IsExact, ◌⊕◌, ◌⊗◌}
use distributed_math_arh.Numbers.Ring.{add-neg, neg-neg, neg-add_lem}
use distributed_math_arh.Numbers.Sums.{
  product, applied, sum_congr, applied-add, applied-neg, product-applied, add-applied,
}

-- The sum of the squares of two matrices.
abbrev pub square_sum : {F : Type 0} ⦃num : Numbers F⦄ → ℕ → (ℕ → ℕ → F) → (ℕ → ℕ → F) → ℕ → ℕ → F
square_sum n a b i j = product n a a i j ⊕ product n b b i j

module _ {F : Type 0} ⦃num : Numbers F⦄ (exact : IsExact num) where
  cancel_first : (x y z : F) → (x ⊕ y) ⊕ num.negative (y ⊕ num.negative z) ≡ x ⊕ z
  cancel_first x y z =
      exact.add_assoc x y (num.negative (y ⊕ num.negative z))
      ∙ ap (λ e. x ⊕ e)
          (ap (λ e. y ⊕ e)
              (neg-add_lem exact y (num.negative z)
                ∙ ap (λ e. num.negative y ⊕ e) (neg-neg exact z))
            ∙ sym (exact.add_assoc y (num.negative y) z)
            ∙ ap (λ e. e ⊕ z) (add-neg exact y)
            ∙ exact.zero-add z)

  cancel_second : (x y z : F) → (y ⊕ z) ⊕ (x ⊕ num.negative y) ≡ x ⊕ z
  cancel_second x y z =
      ap (λ e. (y ⊕ z) ⊕ e) (exact.add_comm x (num.negative y))
      ∙ ap (λ e. e ⊕ (num.negative y ⊕ x)) (exact.add_comm y z)
      ∙ exact.add_assoc z y (num.negative y ⊕ x)
      ∙ ap (λ e. z ⊕ e)
          (sym (exact.add_assoc y (num.negative y) x)
            ∙ ap (λ e. e ⊕ x) (add-neg exact y)
            ∙ exact.zero-add x)
      ∙ exact.add_comm z x

module _ {F : Type 0} ⦃num : Numbers F⦄ (exact : IsExact num) (n : ℕ) (a b : ℕ → ℕ → F)
    (commute : (i j : ℕ) → i < n → j < n → product n a b i j ≡ product n b a i j) where
  applied_congr :
      (m : ℕ → ℕ → F) (v w : ℕ → F) (i : ℕ)
      → ((k : ℕ) → k < n → v k ≡ w k)
      → applied n m v i ≡ applied n m w i
  applied_congr m v w i h = sum_congr n _ _ (λ k l. ap (λ z. m i k ⊗ z) (h k l))

  -- Applying the sum of squares applies each factor in turn.
  square_sum-applied :
      (v : ℕ → F) (i : ℕ)
      → applied n (square_sum n a b) v i
        ≡ applied n a (applied n a v) i ⊕ applied n b (applied n b v) i
  square_sum-applied v i =
      add-applied exact n (product n a a) (product n b b) v i
      ∙ rw (product-applied exact n a a v i, product-applied exact n b b v i)

  swap_applied :
      (v : ℕ → F) (i : ℕ) → i < n → applied n b (applied n a v) i ≡ applied n a (applied n b v) i
  swap_applied v i h =
      sym (product-applied exact n b a v i)
      ∙ sum_congr n _ _ (λ k l. ap (λ z. z ⊗ v k) (sym (commute i k h l)))
      ∙ product-applied exact n a b v i

  -- The sum of squares commutes with both matrices.
  square_sum_first :
      (v : ℕ → F) (i : ℕ)
      → i < n
      → applied n (square_sum n a b) (applied n a v) i
        ≡ applied n a (applied n (square_sum n a b) v) i
  square_sum_first v i h =
      square_sum-applied (applied n a v) i
      ∙ ap (λ z. applied n a (applied n a (applied n a v)) i ⊕ z)
          (applied_congr b (applied n b (applied n a v)) (applied n a (applied n b v)) i
              (swap_applied v)
            ∙ swap_applied (applied n b v) i h)
      ∙ sym (applied-add exact n a (applied n a (applied n a v)) (applied n b (applied n b v)) i)
      ∙ ap (λ w. applied n a w i) (fun_ext (λ k. sym (square_sum-applied v k)))

  square_sum_second :
      (v : ℕ → F) (i : ℕ)
      → i < n
      → applied n (square_sum n a b) (applied n b v) i
        ≡ applied n b (applied n (square_sum n a b) v) i
  square_sum_second v i h =
      square_sum-applied (applied n b v) i
      ∙ ap (λ z. z ⊕ applied n b (applied n b (applied n b v)) i)
          (sym (
            swap_applied (applied n a v) i h
            ∙ applied_congr a (applied n b (applied n a v)) (applied n a (applied n b v)) i
                (swap_applied v)))
      ∙ sym (applied-add exact n b (applied n a (applied n a v)) (applied n b (applied n b v)) i)
      ∙ ap (λ w. applied n b w i) (fun_ext (λ k. sym (square_sum-applied v k)))

  module _ (f g s t : ℕ → F)
      (first : (k : ℕ)
        → k < n
        → applied n (square_sum n a b) s k ≡ applied n a f k ⊕ applied n b g k)
      (second : (k : ℕ)
        → k < n
        → applied n (square_sum n a b) t k ≡ applied n a g k ⊕ num.negative (applied n b f k)) where
    -- The first row of blocks, (a, -b), takes (s, t) to what has the same image as f.
    pub first_row_image :
        (k : ℕ)
        → k < n
        → applied n (square_sum n a b) (λ i. applied n a s i ⊕ num.negative (applied n b t i)) k
          ≡ applied n (square_sum n a b) f k
    first_row_image k h =
        applied-add exact n (square_sum n a b) (applied n a s) (λ i. num.negative (applied n b t i))
          k
        ∙ ap₂ ◌⊕◌
            (square_sum_first s k h
              ∙ applied_congr a (applied n (square_sum n a b) s)
                  (λ i. applied n a f i ⊕ applied n b g i) k first
              ∙ applied-add exact n a (applied n a f) (applied n b g) k)
            (applied-neg exact n (square_sum n a b) (applied n b t) k
              ∙ ap num.negative (
                  square_sum_second t k h
                  ∙ applied_congr b (applied n (square_sum n a b) t)
                      (λ i. applied n a g i ⊕ num.negative (applied n b f i)) k second
                  ∙ applied-add exact n b (applied n a g) (λ i. num.negative (applied n b f i)) k
                  ∙ ap₂ ◌⊕◌ (swap_applied g k h) (applied-neg exact n b (applied n b f) k)))
        ∙ cancel_first exact (applied n a (applied n a f) k) (applied n a (applied n b g) k)
            (applied n b (applied n b f) k)
        ∙ sym (square_sum-applied f k)

    -- The second row, (b, a), takes them to what has the same image as g.
    pub second_row_image :
        (k : ℕ)
        → k < n
        → applied n (square_sum n a b) (λ i. applied n b s i ⊕ applied n a t i) k
          ≡ applied n (square_sum n a b) g k
    second_row_image k h =
        applied-add exact n (square_sum n a b) (applied n b s) (applied n a t) k
        ∙ ap₂ ◌⊕◌
            (square_sum_second s k h
              ∙ applied_congr b (applied n (square_sum n a b) s)
                  (λ i. applied n a f i ⊕ applied n b g i) k first
              ∙ applied-add exact n b (applied n a f) (applied n b g) k
              ∙ ap (λ e. e ⊕ applied n b (applied n b g) k) (swap_applied f k h))
            (square_sum_first t k h
              ∙ applied_congr a (applied n (square_sum n a b) t)
                  (λ i. applied n a g i ⊕ num.negative (applied n b f i)) k second
              ∙ applied-add exact n a (applied n a g) (λ i. num.negative (applied n b f i)) k
              ∙ ap (λ e. applied n a (applied n a g) k ⊕ e)
                  (applied-neg exact n a (applied n b f) k))
        ∙ cancel_second exact (applied n a (applied n a g) k) (applied n a (applied n b f) k)
            (applied n b (applied n b g) k)
        ∙ sym (square_sum-applied g k)
