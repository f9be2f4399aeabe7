-- ===== src/Dipoles/Solution.antt =====
-- What `Solve` finds, over exact numbers and with products and solutions as Eigen documents them.
pub mod Squares
use mathlib.Core.Path.{ap₂}
use distributed_math_arh.Prelude.{
  ℕ, ◌+◌, ◌*◌, ◌-◌, ◌<◌, ◌≡◌, refl, sym, ap, ◌∙◌, arith, fun_ext, ltb, if◌then◌else◌, Bool-cases,
  inl, inr, subst,
}
use distributed_math_arh.Numbers.{Numbers, IsExact, ◌⊕◌, ◌⊖◌, ◌⊗◌}
use distributed_math_arh.Numbers.Sums.{sum, product, applied, sum_congr, sum-plus, neg-applied}
use distributed_math_arh.Dipoles.{
  Dipoles, Eigen, squares, first_half, second_half, first_target, second_target, solve,
  solve_halves, get_matrixx,
}
use distributed_math_arh.Dipoles.Solution.Squares.{square_sum, first_row_image, second_row_image}

module _ {F : Type 0} ⦃num : Numbers F⦄ where
  -- Products are the sums of products of entries.
  pub record IsAlgebra (eigen : Eigen F) : Type 0 where
    pub multiply_lem : (n : ℕ) (a b : ℕ → ℕ → F) → eigen.multiply n a b ≡ product n a b
    pub apply_lem : (n : ℕ) (a : ℕ → ℕ → F) (v : ℕ → F) → eigen.apply n a v ≡ applied n a v

  -- No two vectors have the same image.
  abbrev pub IsRegular : ℕ → (ℕ → ℕ → F) → Type 0
  IsRegular n m =
      (v w : ℕ → F)
      → ((k : ℕ) → k < n → applied n m v k ≡ applied n m w k)
      → (k : ℕ) → k < n
      → v k ≡ w k

  -- `lu().solve` gives a solution for this matrix.
  abbrev pub Solves : Eigen F → ℕ → (ℕ → ℕ → F) → Type 0
  Solves eigen n m = (v : ℕ → F) (k : ℕ) → k < n → applied n m (eigen.lu_solve n m v) k ≡ v k

  abbrev pub Commutes : ℕ → (ℕ → ℕ → F) → (ℕ → ℕ → F) → Type 0
  Commutes n a b = (i j : ℕ) → i < n → j < n → product n a b i j ≡ product n b a i j

module _ {F : Type 0} ⦃num : Numbers F⦄ (exact : IsExact num) (d : Dipoles F) (v : ℕ → F) where
  -- The rows of the whole matrix are those of its four corners.
  upper_row :
      (r : ℕ)
      → r < 2 * d.n
      → applied (4 * d.n) (get_matrixx d) v r
        ≡ applied (2 * d.n) d.m_1 v r
          ⊕ num.negative (applied (2 * d.n) d.m_2 (λ k. v (2 * d.n + k)) r)
  unfolding get_matrixx
  upper_row r h =
      let halves : 4 * d.n ≡ 2 * d.n + 2 * d.n = omega arith in
      ap (λ k. sum k (λ k. get_matrixx d r k ⊗ v k)) halves
      ∙ sum-plus (2 * d.n) (2 * d.n) (λ k. get_matrixx d r k ⊗ v k) exact
      ∙ ap₂ ◌⊕◌ (sum_congr (2 * d.n) _ _ (λ k l. ap (λ z. z ⊗ v k) (ground arith))) (
          sum_congr (2 * d.n) _ _ (λ k l.
            let back : 2 * d.n + k - 2 * d.n ≡ k = omega arith in
            ap (λ z. z ⊗ v (2 * d.n + k)) (rw back (ground arith)))
          ∙ neg-applied exact (2 * d.n) d.m_2 (λ k. v (2 * d.n + k)) r)

  lower_row :
      (r : ℕ)
      → applied (4 * d.n) (get_matrixx d) v (2 * d.n + r)
        ≡ applied (2 * d.n) d.m_2 v r ⊕ applied (2 * d.n) d.m_1 (λ k. v (2 * d.n + k)) r
  unfolding get_matrixx
  lower_row r =
      let halves : 4 * d.n ≡ 2 * d.n + 2 * d.n = omega arith in
      let row : 2 * d.n + r - 2 * d.n ≡ r = omega arith in
      ap (λ k. sum k (λ k. get_matrixx d (2 * d.n + r) k ⊗ v k)) halves
      ∙ sum-plus (2 * d.n) (2 * d.n) (λ k. get_matrixx d (2 * d.n + r) k ⊗ v k) exact
      ∙ ap₂ ◌⊕◌ (sum_congr (2 * d.n) _ _ (λ k l. ap (λ z. z ⊗ v k) (rw row (ground arith)))) (
          sum_congr (2 * d.n) _ _ (λ k l.
            let back : 2 * d.n + k - 2 * d.n ≡ k = omega arith in
            ap (λ z. z ⊗ v (2 * d.n + k)) (rw (row, back) (ground arith))))

module _ {F : Type 0} ⦃num : Numbers F⦄ (exact : IsExact num) (eigen : Eigen F)
    (algebra : IsAlgebra eigen) (d : Dipoles F) where
  squares-square_sum : squares eigen d ≡ square_sum (2 * d.n) d.m_1 d.m_2
  squares-square_sum = fun_ext (λ r. fun_ext (λ c.
      rw (algebra.multiply_lem (2 * d.n) d.m_1 d.m_1, algebra.multiply_lem (2 * d.n) d.m_2 d.m_2)))

  module _ (lu : Solves eigen (2 * d.n) (squares eigen d)) (k : ℕ) (h : k < 2 * d.n) where
    first_solved :
        applied (2 * d.n) (square_sum (2 * d.n) d.m_1 d.m_2) (solve_halves eigen d).0 k
        ≡ applied (2 * d.n) d.m_1 (first_half d) k ⊕ applied (2 * d.n) d.m_2 (second_half d) k
    unfolding solve_halves
    first_solved =
        ap (λ m. applied (2 * d.n) m (solve_halves eigen d).0 k) (sym squares-square_sum)
        ∙ lu (first_target eigen d) k h
        ∙ rw (
          algebra.apply_lem (2 * d.n) d.m_1 (first_half d),
          algebra.apply_lem (2 * d.n) d.m_2 (second_half d),
        )

    second_solved :
        applied (2 * d.n) (square_sum (2 * d.n) d.m_1 d.m_2) (solve_halves eigen d).1 k
        ≡ applied (2 * d.n) d.m_1 (second_half d) k
          ⊕ num.negative (applied (2 * d.n) d.m_2 (first_half d) k)
    unfolding solve_halves
    second_solved =
        ap (λ m. applied (2 * d.n) m (solve_halves eigen d).1 k) (sym squares-square_sum)
        ∙ lu (second_target eigen d) k h
        ∙ rw
            (
              algebra.apply_lem (2 * d.n) d.m_1 (second_half d),
              algebra.apply_lem (2 * d.n) d.m_2 (first_half d),
            )
            (exact.sub-eq (applied (2 * d.n) d.m_1 (second_half d) k)
              (applied (2 * d.n) d.m_2 (first_half d) k))

  -- The halves of the one vector are the two vectors.
  solve_first : (k : ℕ) → k < 2 * d.n → solve eigen d k ≡ (solve_halves eigen d).0 k
  unfolding solve solve_halves
  solve_first k h = ground arith

  solve_second : (k : ℕ) → solve eigen d (2 * d.n + k) ≡ (solve_halves eigen d).1 k
  unfolding solve solve_halves
  solve_second k = let back : 2 * d.n + k - 2 * d.n ≡ k = omega arith in rw back (ground arith)

  module _ (commute : Commutes (2 * d.n) d.m_1 d.m_2)
      (regular : IsRegular (2 * d.n) (squares eigen d))
      (lu : Solves eigen (2 * d.n) (squares eigen d)) (r : ℕ) (h : r < 2 * d.n) where
    solve_upper : applied (4 * d.n) (get_matrixx d) (solve eigen d) r ≡ d.right_part r
    solve_upper =
        upper_row exact d (solve eigen d) r h
        ∙ ap₂ (λ x y. x ⊕ num.negative y)
            (sum_congr (2 * d.n) _ _ (λ k l. ap (λ z. d.m_1 r k ⊗ z) (solve_first k l)))
            (sum_congr (2 * d.n) _ _ (λ k l. ap (λ z. d.m_2 r k ⊗ z) (solve_second k)))
        ∙ subst (IsRegular (2 * d.n)) squares-square_sum regular
            (λ k.
              applied (2 * d.n) d.m_1 (solve_halves eigen d).0 k
              ⊕ num.negative (applied (2 * d.n) d.m_2 (solve_halves eigen d).1 k))
            (first_half d)
            (first_row_image exact (2 * d.n) d.m_1 d.m_2 commute (first_half d) (second_half d)
              (solve_halves eigen d).0 (solve_halves eigen d).1 (first_solved lu)
              (second_solved lu))
            r h

    solve_lower :
        applied (4 * d.n) (get_matrixx d) (solve eigen d) (2 * d.n + r) ≡ d.right_part (2 * d.n + r)
    solve_lower =
        lower_row exact d (solve eigen d) r
        ∙ ap₂ ◌⊕◌ (sum_congr (2 * d.n) _ _ (λ k l. ap (λ z. d.m_2 r k ⊗ z) (solve_first k l)))
            (sum_congr (2 * d.n) _ _ (λ k l. ap (λ z. d.m_1 r k ⊗ z) (solve_second k)))
        ∙ subst (IsRegular (2 * d.n)) squares-square_sum regular
            (λ k.
              applied (2 * d.n) d.m_2 (solve_halves eigen d).0 k
              ⊕ applied (2 * d.n) d.m_1 (solve_halves eigen d).1 k)
            (second_half d)
            (second_row_image exact (2 * d.n) d.m_1 d.m_2 commute (first_half d) (second_half d)
              (solve_halves eigen d).0 (solve_halves eigen d).1 (first_solved lu)
              (second_solved lu))
            r h

  -- Over exact numbers, with matrices of half the size that commute, the sum of whose squares is
  -- regular and solved by the decomposition, the vector that `Solve` gives satisfies every equation
  -- of the whole system.
  pub solve_satisfies :
      Commutes (2 * d.n) d.m_1 d.m_2
      → IsRegular (2 * d.n) (squares eigen d)
      → Solves eigen (2 * d.n) (squares eigen d)
      → (r : ℕ) → r < 4 * d.n
      → applied (4 * d.n) (get_matrixx d) (solve eigen d) r ≡ d.right_part r
  solve_satisfies commute regular lu r h = elim (Bool-cases (ltb r (2 * d.n))) [
    | inl upper ↦ solve_upper commute regular lu r (ground arith)
    | inr lower ↦
        let e : 2 * d.n + (r - 2 * d.n) ≡ r = ground arith in
        subst (λ k. applied (4 * d.n) (get_matrixx d) (solve eigen d) k ≡ d.right_part k) e
          (solve_lower commute regular lu (r - 2 * d.n) (ground arith))
  ]
