-- ===== src/Worker/Sums.antt =====
-- The invariant of `WorkerManagementService`, and the two moves that touch the sums.
use distributed_math_arh.Prelude.{
  ℕ, String, ◌%◌, ◌≡◌, ◌⊎◌, some, none, get_or, arith, string_eq, List, u64,
}
use distributed_math_arh.Prelude.Dict.{
  lookup, insert, Distinct, insert-Distinct, erase-Distinct, lookup-insert, lookup-erase, total,
  total-insert_new, total-erase,
}
use distributed_math_arh.Outcome.{ok}
use distributed_math_arh.Valarray.{add_assign, sub_assign}
use distributed_math_arh.Valarray.Laws.{get_or-add_assign, get_or-sub_assign}
use distributed_math_arh.Worker.{WorkerService, ComputationalNode}
use distributed_math_arh.Worker.Store.{connected, disconnected}

abbrev pub speed_at : ℕ → ComputationalNode → ℕ
speed_at i n = get_or n.node_speed i 0

-- No host is listed twice or both as active and as inactive, and the normalisation coefficients
-- are the sums of the speeds of the active nodes, as 64-bit numbers.
pub record IsConsistent (s : WorkerService) : Type 0 where
  pub active_distinct : Distinct s.active_nodes
  pub inactive_distinct : Distinct s.inactive_nodes
  pub disjoint :
      (h : String) → (lookup h s.active_nodes ≡ none) ⊎ (lookup h s.inactive_nodes ≡ none)
  pub sums : (i : ℕ) → get_or s.normalized i 0 ≡ total (speed_at i) s.active_nodes % u64

module _ (s : WorkerService) (host : String) (n : ComputationalNode) (sum : List ℕ) where
  pub connected-IsConsistent :
      IsConsistent s
      → lookup host s.active_nodes ≡ none
      → add_assign s.normalized n.node_speed ≡ ok sum
      → IsConsistent (connected s host n sum)
  connected-IsConsistent v new added = record {
    active_distinct = insert-Distinct host n s.active_nodes v.active_distinct;
    inactive_distinct =
        erase-Distinct host (insert host n s.inactive_nodes)
          (insert-Distinct host n s.inactive_nodes v.inactive_distinct);
    disjoint = λ h. ground (
      arith,
      v.disjoint h,
      lookup-insert host h n s.active_nodes,
      lookup-insert host h n s.inactive_nodes,
      lookup-erase host h (insert host n s.inactive_nodes),
    );
    sums = λ i. omega (
      arith,
      v.sums i,
      total-insert_new (speed_at i) host n s.active_nodes new,
      get_or-add_assign s.normalized n.node_speed sum i added,
    );
  }

  pub disconnected-IsConsistent :
      IsConsistent s
      → lookup host s.active_nodes ≡ some n
      → sub_assign s.normalized n.node_speed ≡ ok sum
      → IsConsistent (disconnected s host n sum)
  disconnected-IsConsistent v old taken = record {
    active_distinct = erase-Distinct host s.active_nodes v.active_distinct;
    inactive_distinct = insert-Distinct host n s.inactive_nodes v.inactive_distinct;
    disjoint = λ h. ground (
      arith,
      v.disjoint h,
      lookup-insert host h n s.inactive_nodes,
      lookup-erase host h s.active_nodes,
    );
    sums = λ i. omega (
      arith,
      v.sums i,
      total-erase (speed_at i) host n s.active_nodes v.active_distinct old,
      get_or-sub_assign s.normalized n.node_speed sum i taken,
    );
  }
