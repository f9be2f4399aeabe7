-- ===== src/Worker/Invariant.antt =====
-- Every method of `WorkerManagementService` keeps its invariant.
use distributed_math_arh.Prelude.{
  ℕ, String, ◌≡◌, inl, inr, refl, some, arith, string_eq, replicate, get_or, zero, suc, sym, subst,
}
use distributed_math_arh.Prelude.Dict.{lookup, insert-Distinct, lookup-insert}
use distributed_math_arh.Outcome.{ok}
use distributed_math_arh.Worker.{
  WorkerService, ComputationalNode, WorkerJson, Answer, Reply, fresh_node, new_service,
  default_bench, add_new_node, activate, deactivate, connect_node, disconnect_node,
}
use distributed_math_arh.Worker.Store.{
  activate_inv, deactivate_inv, connect_node_cases, disconnect_node_cases,
}
use distributed_math_arh.Worker.Sums.{
  IsConsistent, connected-IsConsistent, disconnected-IsConsistent,
}

pub get_or-replicate_zero : (n i : ℕ) → get_or {A = ℕ} (replicate n 0) i 0 ≡ 0
get_or-replicate_zero zero i = refl
get_or-replicate_zero (suc n) zero = refl
get_or-replicate_zero (suc n) (suc i) = get_or-replicate_zero n i

pub new_service-IsConsistent : IsConsistent new_service
unfolding new_service default_bench lookup
new_service-IsConsistent = record {
  active_distinct = tt;
  inactive_distinct = tt;
  disjoint = λ h. inl refl;
  sums = λ i. omega (arith, get_or-replicate_zero 13 i);
}

module _ (s : WorkerService) (host : String) (v : IsConsistent s) where
  -- Adding a node keeps the invariant of the service.
  pub add_new_node-IsConsistent : IsConsistent (add_new_node s host).0
  unfolding add_new_node
  add_new_node-IsConsistent = record {
    active_distinct = ground (arith, v.active_distinct);
    inactive_distinct = ground (
      arith,
      v.inactive_distinct,
      insert-Distinct host (fresh_node host) s.inactive_nodes v.inactive_distinct,
    );
    disjoint = λ h. ground (
      arith,
      v.disjoint h,
      string_eq.beq_iff host h,
      lookup-insert host h (fresh_node host) s.inactive_nodes,
    );
    sums = λ i. ground (arith, v.sums i);
  }

  activate-IsConsistent :
      (json : WorkerJson) (n : ComputationalNode) {s' : WorkerService}
      → lookup host s.inactive_nodes ≡ some n
      → activate s host json ≡ ok s'
      → IsConsistent s'
  activate-IsConsistent json n here done =
      let (m, sum, e, added) = activate_inv s host json done in
      subst IsConsistent (sym e)
        (connected-IsConsistent s host m sum v (ground (arith, v.disjoint host)) added)

  deactivate-IsConsistent :
      (n : ComputationalNode) {s' : WorkerService}
      → lookup host s.active_nodes ≡ some n
      → deactivate s host ≡ ok s'
      → IsConsistent s'
  deactivate-IsConsistent n here done =
      let (sum, e, taken) = deactivate_inv s host n here done in
      subst IsConsistent (sym e) (disconnected-IsConsistent s host n sum v here taken)

  -- A call of `ConnectNode` that returns keeps the invariant of the service: no host is listed twice or
  -- both as active and as inactive, and the coefficients are the sums of the active nodes' speeds modulo
  -- 2^64.
  pub connect_node-IsConsistent :
      (answer : Answer) {s' : WorkerService} {r : Reply}
      → connect_node s host answer ≡ ok (s', r)
      → IsConsistent s'
  connect_node-IsConsistent answer done = elim (connect_node_cases s host answer done) [
    | inl (_, e) ↦ subst IsConsistent e v
    | inr (json, n, _, here, moved) ↦ activate-IsConsistent json n here moved
  ]

  -- A call of `DisconnectNode` that returns keeps the invariant of the service, likewise.
  pub disconnect_node-IsConsistent :
      (answer : Answer) {s' : WorkerService} {r : Reply}
      → disconnect_node s host answer ≡ ok (s', r)
      → IsConsistent s'
  disconnect_node-IsConsistent answer done = elim (disconnect_node_cases s host answer done) [
    | inl (_, e) ↦ subst IsConsistent e v
    | inr (n, _, here, moved) ↦ deactivate-IsConsistent n here moved
  ]
