-- ===== src/Meshes/Sampling.antt =====
-- What a mesh holds after it is constructed and a function is applied to it.
use mathlib.Core.Path.{ap₂}
use distributed_math_arh.Prelude.{
  ℕ, ◌+◌, ◌*◌, ◌-◌, ◌<◌, ◌≡◌, ◌≢◌, sym, ap, ◌∙◌, arith, List, length, get_or, ◌⊎◌, Bool, true,
  false,
}
use distributed_math_arh.Outcome.{ok, throw, invalid_argument, ◌>>=◌}
use distributed_math_arh.Numbers.{Numbers, IsExact, ◌⊕◌, ◌⊖◌, ◌⊗◌, ◌⊘◌}
use distributed_math_arh.Numbers.Ring.{mul-zero, add-zero}
use distributed_math_arh.Meshes.{
  MeshCreator, tabulate, zip_with, step_of, my_linspace, my_mesh_grid, compute_function,
  construct_meshes, apply_function,
}
use distributed_math_arh.Meshes.Grid.{
  length-tabulate, get_or-tabulate, get_or-zip_with, length-zip_with, length-my_mesh_grid,
  get_or-my_mesh_grid,
}

module _ {F : Type 0} ⦃num : Numbers F⦄ where
  compute_function_lem :
      (a b : List F) (func : F → F → F) (n : ℕ)
      → n ≢ 0
      → length a ≡ n
      → length b ≡ n
      → compute_function a b func ≡ ok (zip_with func a b)
  unfolding compute_function
  compute_function_lem a b func n h ea eb = rw (ea, eb) (ground arith)

  my_linspace_lem :
      (end : Bool) (lower upper : F) (n : ℕ)
      → n ≢ 0
      → num.equal (lower ⊖ upper) (num.lit 0) ≡ false
      → my_linspace end lower upper n
        ≡ ok (tabulate n (λ i. num.lit i ⊗ step_of end lower upper n ⊕ lower))
  unfolding my_linspace
  my_linspace_lem end lower upper n h e = rw e (ground arith)

  -- Point i of n between two limits.
  abbrev pub point : F → F → ℕ → ℕ → F
  point lower upper n i = num.lit i ⊗ step_of true lower upper n ⊕ lower

  module _ (d0 d1 : ℕ) (l0 l1 l2 l3 : F) (func : F → F → F) where
    abbrev phis : List F
    phis = tabulate d1 (point l2 l3 d1)

    abbrev thetas : List F
    thetas = tabulate d0 (point l0 l1 d0)

    abbrev pub sampled : List F
    sampled = zip_with func (my_mesh_grid phis thetas).0 (my_mesh_grid phis thetas).1

    sizes :
        (length (my_mesh_grid phis thetas).0 ≡ d0 * d1)
        × (length (my_mesh_grid phis thetas).1 ≡ d0 * d1)
    sizes =
        let both = length-my_mesh_grid phis thetas in
        let rows = length-tabulate d0 (point l0 l1 d0) in
        let columns = length-tabulate d1 (point l2 l3 d1) in
        (both.0 ∙ rw (rows, columns), both.1 ∙ rw (rows, columns))

    sampled_at :
        (i j : ℕ)
        → i < d0
        → j < d1
        → get_or sampled (i * d1 + j) (num.lit 0) ≡ func (point l2 l3 d1 j) (point l0 l1 d0 i)
    sampled_at i j hi hj =
        let inside : i * d1 + j < d0 * d1 = grind arith in
        let rows = length-tabulate d0 (point l0 l1 d0) in
        let columns = length-tabulate d1 (point l2 l3 d1) in
        let place =
          get_or-my_mesh_grid phis thetas i j (num.lit 0) (omega (arith, rows))
            (omega (arith, columns)) in
        let at = ap (λ n. i * n + j) (sym columns) in
        get_or-zip_with func (my_mesh_grid phis thetas).0 (my_mesh_grid phis thetas).1 (i * d1 + j)
          (num.lit 0) (num.lit 0) (num.lit 0) (omega (arith, sizes)) (sizes.0 ∙ sym sizes.1)
        ∙ ap₂ func
            (ap (λ k. get_or (my_mesh_grid phis thetas).0 k (num.lit 0)) at
              ∙ place.0
              ∙ get_or-tabulate d1 (point l2 l3 d1) j (num.lit 0) hj)
            (ap (λ k. get_or (my_mesh_grid phis thetas).1 k (num.lit 0)) at
              ∙ place.1
              ∙ get_or-tabulate d0 (point l0 l1 d0) i (num.lit 0) hi)

    -- The mesh that both calls leave.
    abbrev pub constructed : MeshCreator F → MeshCreator F
    constructed mesh = record mesh {
      dimensions = (d0, d1);
      limits = (l0, l1, l2, l3);
      data_0 = (my_mesh_grid phis thetas).0;
      data_1 = (my_mesh_grid phis thetas).1;
    }

    construct_meshes_lem :
        (mesh : MeshCreator F)
        → d0 ≢ 0
        → d1 ≢ 0
        → num.equal (l0 ⊖ l1) (num.lit 0) ≡ false
        → num.equal (l2 ⊖ l3) (num.lit 0) ≡ false
        → construct_meshes mesh (d0, d1) (l0, l1, l2, l3) ≡ ok (constructed mesh)
    unfolding construct_meshes
    construct_meshes_lem mesh h0 h1 e0 e1 =
        rw (my_linspace_lem true l2 l3 d1 h1 e1, my_linspace_lem true l0 l1 d0 h0 e0)

    apply_function_lem :
        (mesh : MeshCreator F)
        → d0 ≢ 0
        → d1 ≢ 0
        → apply_function (constructed mesh) func
          ≡ ok (record (constructed mesh) { data_2 = sampled })
    unfolding apply_function
    apply_function_lem mesh h0 h1 =
        let some_points : d0 * d1 ≢ 0 = grind arith in
        rw (
          compute_function_lem (my_mesh_grid phis thetas).0 (my_mesh_grid phis thetas).1 func
            (d0 * d1) some_points sizes.0 sizes.1)

    -- A mesh that is constructed with dimensions other than 0 and with limits that differ, and to which
    -- a function is applied, holds one value for each pair of angles: at i * dims[1] + j the value of
    -- the function at point j between the limits of phi and point i between those of theta.
    pub construct_then_apply :
        (mesh : MeshCreator F)
        → d0 ≢ 0
        → d1 ≢ 0
        → num.equal (l0 ⊖ l1) (num.lit 0) ≡ false
        → num.equal (l2 ⊖ l3) (num.lit 0) ≡ false
        → (m : MeshCreator F) × ((construct_meshes mesh (d0, d1) (l0, l1, l2, l3) >>= λ m.
              apply_function m func)
            ≡ ok m)
          × (length m.data_2 ≡ d0 * d1)
          × ((i j : ℕ)
              → i < d0
              → j < d1
              → get_or m.data_2 (i * d1 + j) (num.lit 0)
                ≡ func (point l2 l3 d1 j) (point l0 l1 d0 i))
    construct_then_apply mesh h0 h1 e0 e1 = (
      record (constructed mesh) { data_2 = sampled },
      rw (construct_meshes_lem mesh h0 h1 e0 e1) (apply_function_lem mesh h0 h1),
      length-zip_with func (my_mesh_grid phis thetas).0 (my_mesh_grid phis thetas).1
            (sizes.0 ∙ sym sizes.1)
          ∙ sizes.0,
      sampled_at,
    )

  -- A mesh is not constructed without points, or between limits that do not differ.
  pub construct_meshes_refuses :
      (mesh : MeshCreator F) (dims : ℕ × ℕ) (lims : F × F × F × F)
      → (dims.0 ≡ 0)
        ⊎ (dims.1 ≡ 0)
        ⊎ (num.equal (lims.0 ⊖ lims.1) (num.lit 0) ≡ true)
        ⊎ (num.equal (lims.2 ⊖ lims.3) (num.lit 0) ≡ true)
      → construct_meshes mesh dims lims ≡ throw (invalid_argument "Zero linspace size")
  unfolding construct_meshes my_linspace
  construct_meshes_refuses mesh dims lims h = ground arith

  module _ (exact : IsExact num) where
    -- Over exact numbers, where a division by n - 1 is undone by the multiplication, two points or more
    -- start at the lower limit and end at the upper one.
    pub my_linspace_ends :
        (lower upper : F) (n : ℕ)
        → n ≢ 0
        → num.equal (lower ⊖ upper) (num.lit 0) ≡ false
        → num.lit (n - 1) ⊗ ((upper ⊖ lower) ⊘ num.lit (n - 1)) ≡ upper ⊖ lower
        → (xs : List F) × (my_linspace true lower upper n ≡ ok xs)
          × (length xs ≡ n)
          × (get_or xs 0 (num.lit 0) ≡ lower)
          × (get_or xs (n - 1) (num.lit 0) ≡ upper)
    my_linspace_ends lower upper n h e division =
        let first = get_or-tabulate n (point lower upper n) 0 (num.lit 0) (omega arith) in
        let last = get_or-tabulate n (point lower upper n) (n - 1) (num.lit 0) (omega arith) in
        (
          tabulate n (point lower upper n),
          my_linspace_lem true lower upper n h e,
          length-tabulate n (point lower upper n),
          first
              ∙ ap (λ z. z ⊕ lower)
                  (exact.mul_comm (num.lit 0) (step_of true lower upper n)
                    ∙ mul-zero exact (step_of true lower upper n))
              ∙ exact.zero-add lower,
          last
              ∙ ap (λ z. z ⊕ lower) (division ∙ exact.sub-eq upper lower)
              ∙ exact.add_assoc upper (num.negative lower) lower
              ∙ ap (λ z. upper ⊕ z) (exact.neg-add lower)
              ∙ add-zero exact upper,
        )
