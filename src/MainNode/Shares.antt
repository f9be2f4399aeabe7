-- ===== src/MainNode/Shares.antt =====
-- The shares of `SendToExecution`: what each active node is given of the iterations.
use distributed_math_arh.Prelude.{
  ℕ, zero, suc, ◌*◌, ◌/◌, ◌≤◌, ◌<◌, ◌≡◌, ap, ◌∙◌, String, List, [], ◌∷◌, get_or, length, All, arith,
  string_eq, u64, mul64,
}
use distributed_math_arh.Prelude.Dict.{Dict, total}
use distributed_math_arh.Outcome.{ok}
use distributed_math_arh.Valarray.{scale}
use distributed_math_arh.Valarray.Laws.{div_assign_ok, get_or-scale}
use distributed_math_arh.Worker.{ComputationalNode}
use distributed_math_arh.Worker.Sums.{speed_at}
use distributed_math_arh.MainNode.{n_index, share}
use distributed_math_arh.Prelude.{length-map}
use native.Mathlib.Nat.{le-div_iff_mul-le, div-mul-le_self, le_of_mul-le-mul_right}

get_or-All : (ys : List ℕ) (j : ℕ) → All (λ y. 0 < y) ys → j < length ys → 0 < get_or ys j 0
get_or-All [] j pos within = absurd (omega arith)
get_or-All (y ∷ ys) zero pos within = pos.0
get_or-All (y ∷ ys) (suc j) pos within = get_or-All ys j pos.1 (omega arith)

module _ (count : ℕ) (sum : List ℕ) (n : ℕ) where
  -- The share of a node as exact arithmetic.
  abbrev pub quota : ComputationalNode → ℕ
  quota node = speed_at (n_index n) node * count / get_or sum (n_index n) 0

  -- A node with as many speeds as there are sums, whose share is at least one iteration and is
  -- computed without overflow.
  pub record Fits (node : ComputationalNode) : Type 0 where
    pub same : length node.node_speed ≡ length sum
    pub exact : speed_at (n_index n) node * count < u64
    pub enough : get_or sum (n_index n) 0 ≤ speed_at (n_index n) node * count

  module _ (pos : All (λ y. 0 < y) sum) (known : n_index n < length sum) where
    pub share-eq-quota :
        (node : ComputationalNode) → Fits node → share node.node_speed sum count n ≡ ok (quota node)
    unfolding share
    share-eq-quota node f =
        let (zs, e, at) =
          div_assign_ok (scale node.node_speed count) sum (n_index n)
            (length-map (λ x. mul64 x count) node.node_speed ∙ f.same) pos known in
        let small : mul64 (speed_at (n_index n) node) count ≡ speed_at (n_index n) node * count =
          omega (arith, f.exact) in
        rw e (
          rw at (
            ap (λ t. ok (t / get_or sum (n_index n) 0))
              (get_or-scale node.node_speed count (n_index n) ∙ small)))

    pub sum-pos : 0 < get_or sum (n_index n) 0
    sum-pos = get_or-All sum (n_index n) pos known

    pub quota-pos : (node : ComputationalNode) → Fits node → 0 < quota node
    quota-pos node f = (le-div_iff_mul-le sum-pos).1 (omega (arith, f.enough))

    quota-total_mul :
        (m : Dict String ComputationalNode)
        → total quota m * get_or sum (n_index n) 0 ≤ total (speed_at (n_index n)) m * count
    quota-total_mul [] = omega arith
    quota-total_mul ((k, node) ∷ m) = omega (
      arith,
      quota-total_mul m,
      div-mul-le_self (speed_at (n_index n) node * count) (get_or sum (n_index n) 0),
    )

    -- The shares together are at most the iterations, when the sum is that of the speeds.
    pub quota-total_le :
        (m : Dict String ComputationalNode)
        → total (speed_at (n_index n)) m ≡ get_or sum (n_index n) 0
        → total quota m ≤ count
    quota-total_le m e =
        le_of_mul-le-mul_right {k = get_or sum (n_index n) 0}
          (omega (arith, quota-total_mul m, ap (λ (t : ℕ). t * count) e)) sum-pos
