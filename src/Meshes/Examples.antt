-- ===== src/Meshes/Examples.antt =====
-- Tests and instances for `Meshes`, over the field of two elements.
use distributed_math_arh.Prelude.{
  ℕ, ◌+◌, ◌*◌, ◌-◌, ◌<◌, ◌≡◌, refl, arith, Bool, true, false, ◌||◌, List, [], ◌∷◌, length, get_or,
  inl, inr,
}
use distributed_math_arh.Outcome.{
  ok, throw, undefined, logic_error, invalid_argument, mismatched_sizes, ◌>>=◌,
}
use distributed_math_arh.Numbers.Binary.{binary, binary-IsExact}
use distributed_math_arh.Entities.{Reals}
use distributed_math_arh.Meshes.{
  MeshCreator, new_mesh_creator, my_linspace, my_mesh_grid, compute_function, construct_meshes,
  apply_function, unflatten, get_mesh_diff_norm,
}
use distributed_math_arh.Meshes.Sampling.{
  point, construct_then_apply, construct_meshes_refuses, my_linspace_ends,
}

abbrev no_reals : Reals Bool
no_reals = record { show = λ x. ""; to_unsigned = λ limit x. throw logic_error; nonzero = λ x. x }

abbrev empty_mesh : MeshCreator Bool
empty_mesh = new_mesh_creator false

-- Two rows of three values.
abbrev small_mesh : MeshCreator Bool
small_mesh = record {
  dimensions = (2, 3);
  limits = (false, true, false, true);
  data_0 = [];
  data_1 = [];
  data_2 = true ∷ false ∷ true ∷ true ∷ false ∷ false ∷ [];
}

construct_then_apply_example :
    (m : MeshCreator Bool) × ((construct_meshes small_mesh (2, 3) (false, true, false, true)
        >>= λ m. apply_function m ◌||◌)
      ≡ ok m)
    × (length m.data_2 ≡ 2 * 3)
    × ((i j : ℕ)
        → i < 2
        → j < 3
        → get_or m.data_2 (i * 3 + j) false ≡ (point false true 3 j || point false true 2 i))
construct_then_apply_example =
    construct_then_apply 2 3 false true false true ◌||◌ small_mesh (omega arith) (omega arith) refl
      refl

construct_meshes_refuses_example :
    construct_meshes small_mesh (2, 0) (false, true, false, true)
    ≡ throw (invalid_argument "Zero linspace size")
construct_meshes_refuses_example =
    construct_meshes_refuses small_mesh (2, 0) (false, true, false, true) (inr (inl refl))

my_linspace_ends_example :
    (xs : List Bool) × (my_linspace true false true 2 ≡ ok xs)
    × (length xs ≡ 2)
    × (get_or xs 0 false ≡ false)
    × (get_or xs (2 - 1) false ≡ true)
my_linspace_ends_example = my_linspace_ends binary-IsExact false true 2 (omega arith) refl refl

grid_of_two :
    my_mesh_grid (true ∷ false ∷ []) (false ∷ true ∷ [])
    ≡ (true ∷ false ∷ true ∷ false ∷ [], false ∷ false ∷ true ∷ true ∷ [])
unfolding my_mesh_grid
grid_of_two = refl

sizes_must_match :
    compute_function (true ∷ []) (true ∷ false ∷ []) ◌||◌ ≡ throw (mismatched_sizes 1 2)
unfolding compute_function
sizes_must_match = refl

rows_of_small_mesh :
    unflatten small_mesh.data_2 (2, 3)
    ≡ ok ((true ∷ false ∷ true ∷ []) ∷ (true ∷ false ∷ false ∷ []) ∷ [])
unfolding unflatten
rows_of_small_mesh = refl

norm_of_nothing : get_mesh_diff_norm {F = Bool} [] [] ≡ undefined
unfolding get_mesh_diff_norm
norm_of_nothing = refl
