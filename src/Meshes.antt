-- ===== src/Meshes.antt =====
-- utilLib/include/common/MeshCreator.h and lib/common/MeshCreator.cpp: the mesh of directions on which
-- the directional graph is computed. Numbers are an interface, and so is the quadrature of Boost.
pub mod Grid
pub mod Sampling
pub mod Json
pub mod Text
pub mod Examples
use distributed_math_arh.Prelude.{
  ℕ, zero, suc, ◌+◌, ◌*◌, ◌-◌, Bool, true, false, ◌||◌, List, [], ◌∷◌, ◌++◌, map, length, get_or,
  replicate, Option, none, some, nat_beq, leb, if◌then◌else◌,
}
use distributed_math_arh.Outcome.{
  Outcome, ok, throw, undefined, invalid_argument, my_exception, mismatched_sizes, ◌>>=◌,
}
use distributed_math_arh.Numbers.{Numbers, ◌⊕◌, ◌⊖◌, ◌⊗◌, ◌⊘◌, pow}

-- `dimensions_`, `limits_` and the three arrays of `data_`
pub record MeshCreator (F : Type 0) : Type 0 where
  pub dimensions : ℕ × ℕ
  pub limits : F × F × F × F
  pub data_0 : List F
  pub data_1 : List F
  pub data_2 : List F

-- f 0, ..., f (n - 1): what a loop writes into a container of n places
abbrev pub tabulate : {A : Type 0} → ℕ → (ℕ → A) → List A
tabulate zero f = []
tabulate (suc n) f = f 0 ∷ tabulate n (λ i. f (suc i))

abbrev pub zip_with : {A B C : Type 0} → (A → B → C) → List A → List B → List C
zip_with f (a ∷ as') (b ∷ bs) = f a b ∷ zip_with f as' bs
zip_with f _ _ = []

-- kDefaultDims
abbrev pub default_dims : ℕ × ℕ
default_dims = (7, 25)

abbrev pub value_or : {A : Type 0} → Option A → A → A
value_or none a = a
value_or (some b) a = b

module _ {F : Type 0} ⦃num : Numbers F⦄ where
  abbrev pub step_of : Bool → F → F → ℕ → F
  step_of end lower upper n = (upper ⊖ lower) ⊘ num.lit (if end then n - 1 else n)

  unfoldable pub my_linspace : Bool → F → F → ℕ → Outcome (List F)
  my_linspace end lower upper n =
      if nat_beq n 0 || num.equal (lower ⊖ upper) (num.lit 0)
      then throw (invalid_argument "Zero linspace size")
      else ok (tabulate n (λ i. num.lit i ⊗ step_of end lower upper n ⊕ lower))

  -- The rows of both arrays, for each element of `b` in turn.
  unfoldable pub my_mesh_grid : List F → List F → List F × List F
  my_mesh_grid a [] = ([], [])
  my_mesh_grid a (y ∷ b) =
      let later = my_mesh_grid a b in (a ++ later.0, replicate (length a) y ++ later.1)

  unfoldable pub compute_function : List F → List F → (F → F → F) → Outcome (List F)
  compute_function a b func =
      if nat_beq (length a) 0 || nat_beq (length b) 0
      then throw (my_exception "Zero container sizes")
      else if nat_beq (length a) (length b)
      then ok (zip_with func a b)
      else throw (mismatched_sizes (length a) (length b))

  abbrev pub total_of : List F → F
  total_of [] = num.lit 0
  total_of (x ∷ xs) = x ⊕ total_of xs

  -- Arrays of different sizes, and the sum of no elements, are undefined for valarrays.
  unfoldable pub get_mesh_diff_norm : List F → List F → Outcome F
  get_mesh_diff_norm mesh1 mesh2 =
      if nat_beq (length mesh1) (length mesh2)
      then (if nat_beq (length mesh1) 0
          then undefined
          else ok (num.sqrt (total_of (map (λ x. pow x 2) (zip_with ◌⊖◌ mesh1 mesh2)))))
      else undefined

  unfoldable pub add_mesh : List F → List F → Outcome (List F)
  add_mesh a b = if nat_beq (length a) (length b) then ok (zip_with ◌⊕◌ a b) else undefined

  -- kDefaultLims
  abbrev pub default_lims : F × F × F × F
  default_lims = (num.lit 0, num.pi ⊘ num.lit 2, num.lit 0, num.pi ⊗ num.lit 2)

  unfoldable pub new_mesh_creator : Bool → MeshCreator F
  new_mesh_creator construct =
      let array = if construct then replicate (7 * 25) (num.lit 0) else [] in
      record {
        dimensions = default_dims;
        limits = default_lims;
        data_0 = array;
        data_1 = array;
        data_2 = array;
      }

  -- The object that an exception leaves behind is not kept.
  unfoldable pub construct_meshes : MeshCreator F → ℕ × ℕ → F × F × F × F → Outcome (MeshCreator F)
  construct_meshes mesh dims lims = do
    phi ← my_linspace true lims.2 lims.3 dims.1
    theta ← my_linspace true lims.0 lims.1 dims.0
    let grid = my_mesh_grid phi theta
    ok (record mesh { dimensions = dims; limits = lims; data_0 = grid.0; data_1 = grid.1 })

  unfoldable pub construct_default :
      MeshCreator F → Option (ℕ × ℕ) → Option (F × F × F × F) → Outcome (MeshCreator F)
  construct_default mesh dims lims =
      construct_meshes mesh (value_or dims mesh.dimensions) (value_or lims mesh.limits)

  unfoldable pub apply_function : MeshCreator F → (F → F → F) → Outcome (MeshCreator F)
  apply_function mesh func = do
    values ← compute_function mesh.data_0 mesh.data_1 func
    ok (record mesh { data_2 = values })

  -- `integrate` is Gauss-Kronrod quadrature of Boost: a function and its limits.
  unfoldable pub apply_integrate :
      ((F → F) → F → F → F) → MeshCreator F → (F → F → F → F) → F → F → Outcome (MeshCreator F)
  apply_integrate integrate mesh func a b =
      apply_function mesh (λ x y. integrate (λ t. func y x t) a b)

  -- Arrays of one size, element by element.
  unfoldable pub spherical_transformation : MeshCreator F → Outcome (List F × List F × List F)
  spherical_transformation mesh =
      if nat_beq (length mesh.data_0) (length mesh.data_2)
      then (if nat_beq (length mesh.data_1) (length mesh.data_2)
          then ok (
            zip_with ◌⊗◌ (zip_with ◌⊗◌ mesh.data_2 (map num.sin mesh.data_1))
                (map num.cos mesh.data_0),
            zip_with ◌⊗◌ (zip_with ◌⊗◌ mesh.data_2 (map num.sin mesh.data_1))
                (map num.sin mesh.data_0),
            zip_with ◌⊗◌ mesh.data_2 (map num.cos mesh.data_1),
          )
          else undefined)
      else undefined

  -- Reads past the end of `mm` are undefined.
  unfoldable pub unflatten : List F → ℕ × ℕ → Outcome (List (List F))
  unflatten mm dims =
      if leb (dims.0 * dims.1) (length mm)
      then ok (tabulate dims.0 (λ i. tabulate dims.1 (λ j. get_or mm (i * dims.1 + j) (num.lit 0))))
      else undefined
