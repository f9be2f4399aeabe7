-- ===== src/Numbers/Sums.antt =====
-- Finite sums of numbers, and matrices applied to vectors, by the rules of algebra.
use distributed_math_arh.Prelude.{ℕ, zero, suc, ◌+◌, ◌<◌, ◌≡◌, refl, sym, ap, ◌∙◌, arith, fun_ext}
use distributed_math_arh.Numbers.{Numbers, IsExact, ◌⊕◌, ◌⊗◌}
use distributed_math_arh.Numbers.Ring.{
  add-zero, add_interchange, mul-zero, add-mul, mul-neg, neg-mul, neg-add_lem, eq_neg,
}

module _ {F : Type 0} ⦃num : Numbers F⦄ where
  unfoldable pub sum : ℕ → (ℕ → F) → F
  sum zero f = num.lit 0
  sum (suc n) f = sum n f ⊕ f n

  -- The entries of a product, by its definition.
  abbrev pub product : ℕ → (ℕ → ℕ → F) → (ℕ → ℕ → F) → ℕ → ℕ → F
  product n a b i j = sum n (λ k. a i k ⊗ b k j)

  abbrev pub applied : ℕ → (ℕ → ℕ → F) → (ℕ → F) → ℕ → F
  applied n a v i = sum n (λ k. a i k ⊗ v k)

  pub sum_congr : (n : ℕ) (f g : ℕ → F) → ((k : ℕ) → k < n → f k ≡ g k) → sum n f ≡ sum n g
  unfolding sum
  sum_congr zero f g h = refl
  sum_congr (suc n) f g h = rw (sum_congr n f g (λ k l. h k (omega arith)), h n (omega arith))

  pub sum-plus :
      (m n : ℕ) (f : ℕ → F) (exact : IsExact num) → sum (m + n) f ≡ sum m f ⊕ sum n (λ k. f (m + k))
  unfolding sum
  sum-plus m zero f exact = let e : m + 0 ≡ m = omega arith in rw e (sym (add-zero exact (sum m f)))
  sum-plus m (suc n) f exact =
      let e : m + suc n ≡ suc (m + n) = omega arith in
      ap (λ k. sum k f) e
      ∙ ap (λ z. z ⊕ f (m + n)) (sum-plus m n f exact)
      ∙ exact.add_assoc (sum m f) (sum n (λ k. f (m + k))) (f (m + n))

module _ {F : Type 0} ⦃num : Numbers F⦄ (exact : IsExact num) where
  pub sum-zero : (n : ℕ) → sum n (λ k. num.lit 0) ≡ num.lit 0
  unfolding sum
  sum-zero zero = refl
  sum-zero (suc n) = rw (sum-zero n) (exact.zero-add (num.lit 0))

  pub neg-sum : (n : ℕ) (f : ℕ → F) → num.negative (sum n f) ≡ sum n (λ k. num.negative (f k))
  unfolding sum
  neg-sum zero f = sym (eq_neg exact (num.lit 0) (num.lit 0) (exact.zero-add (num.lit 0)))
  neg-sum (suc n) f =
      neg-add_lem exact (sum n f) (f n) ∙ ap (λ z. z ⊕ num.negative (f n)) (neg-sum n f)

  pub mul-sum : (n : ℕ) (factor : F) (f : ℕ → F) → factor ⊗ sum n f ≡ sum n (λ k. factor ⊗ f k)
  unfolding sum
  mul-sum zero factor f = mul-zero exact factor
  mul-sum (suc n) factor f =
      exact.mul-add factor (sum n f) (f n) ∙ ap (λ z. z ⊕ factor ⊗ f n) (mul-sum n factor f)

  pub sum-add : (m : ℕ) (x y : ℕ → F) → sum m (λ i. x i ⊕ y i) ≡ sum m x ⊕ sum m y
  unfolding sum
  sum-add zero x y = sym (exact.zero-add (num.lit 0))
  sum-add (suc m) x y = rw (sum-add m x y) (add_interchange exact (sum m x) (sum m y) (x m) (y m))

  pub sum-mul : (n : ℕ) (f : ℕ → F) (a : F) → sum n f ⊗ a ≡ sum n (λ k. f k ⊗ a)
  sum-mul n f a =
      exact.mul_comm (sum n f) a
      ∙ mul-sum n a f
      ∙ ap (sum n) (fun_ext (λ k. exact.mul_comm a (f k)))

  -- The order of two sums does not matter.
  pub sum_comm :
      (rows columns : ℕ) (cell : ℕ → ℕ → F)
      → sum columns (λ c. sum rows (λ r. cell r c)) ≡ sum rows (λ r. sum columns (cell r))
  unfolding sum
  sum_comm zero columns cell = sum-zero columns
  sum_comm (suc rows) columns cell =
      sum-add columns (λ c. sum rows (λ r. cell r c)) (cell rows)
      ∙ ap (λ z. z ⊕ sum columns (cell rows)) (sum_comm rows columns cell)

  module _ (n : ℕ) (a : ℕ → ℕ → F) where
    pub applied-add :
        (v w : ℕ → F) (i : ℕ) → applied n a (λ k. v k ⊕ w k) i ≡ applied n a v i ⊕ applied n a w i
    applied-add v w i =
        ap (sum n) (fun_ext (λ k. exact.mul-add (a i k) (v k) (w k)))
        ∙ sum-add n (λ k. a i k ⊗ v k) (λ k. a i k ⊗ w k)

    pub applied-neg :
        (v : ℕ → F) (i : ℕ)
        → applied n a (λ k. num.negative (v k)) i ≡ num.negative (applied n a v i)
    applied-neg v i =
        ap (sum n) (fun_ext (λ k. mul-neg exact (a i k) (v k))) ∙ sym (neg-sum n (λ k. a i k ⊗ v k))

    pub neg-applied :
        (v : ℕ → F) (i : ℕ)
        → applied n (λ r c. num.negative (a r c)) v i ≡ num.negative (applied n a v i)
    neg-applied v i =
        ap (sum n) (fun_ext (λ k. neg-mul exact (a i k) (v k))) ∙ sym (neg-sum n (λ k. a i k ⊗ v k))

    -- A product is applied one factor after the other.
    pub product-applied :
        (b : ℕ → ℕ → F) (v : ℕ → F) (i : ℕ)
        → applied n (product n a b) v i ≡ applied n a (applied n b v) i
    product-applied b v i =
        ap (sum n) (fun_ext (λ j. sum-mul n (λ k. a i k ⊗ b k j) (v j)))
        ∙ sum_comm n n (λ k j. (a i k ⊗ b k j) ⊗ v j)
        ∙ ap (sum n) (
            fun_ext (λ k.
              ap (sum n) (fun_ext (λ j. exact.mul_assoc (a i k) (b k j) (v j)))
              ∙ sym (mul-sum n (a i k) (λ j. b k j ⊗ v j))))

    pub add-applied :
        (b : ℕ → ℕ → F) (v : ℕ → F) (i : ℕ)
        → applied n (λ r c. a r c ⊕ b r c) v i ≡ applied n a v i ⊕ applied n b v i
    add-applied b v i =
        ap (sum n) (fun_ext (λ k. add-mul exact (a i k) (b i k) (v k)))
        ∙ sum-add n (λ k. a i k ⊗ v k) (λ k. b i k ⊗ v k)
