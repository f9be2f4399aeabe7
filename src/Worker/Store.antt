-- ===== src/Worker/Store.antt =====
-- What the moves between the maps of `WorkerManagementService` come to.
use text.Mathlib.TextPositions.{eq_refl}
use distributed_math_arh.Prelude.{
  String, Bool, true, false, ◌≡◌, some, arith, string_eq, ap, sym, ◌∙◌, ◌⊎◌, List, ℕ,
}
use distributed_math_arh.Prelude.Dict.{Dict, lookup, insert, erase, lookup-insert}
use distributed_math_arh.Outcome.{Outcome, ok, ◌>>=◌, >>=-eq-ok}
use distributed_math_arh.Valarray.{add_assign, sub_assign}
use distributed_math_arh.Worker.{
  WorkerService, ComputationalNode, WorkerJson, active, inactive, node_at, Answer, Reply, refused,
  empty_reply, answered, connect_node, disconnect_node, recompute_coefficients, activate,
  deactivate,
}

module _ (s : WorkerService) (host : String) where
  -- The service after `host` was connected with the given node record and sums.
  abbrev pub connected : ComputationalNode → List ℕ → WorkerService
  connected n sum = record s {
    active_nodes = insert host n s.active_nodes;
    inactive_nodes = erase host (insert host n s.inactive_nodes);
    normalized = sum;
  }

  abbrev pub disconnected : ComputationalNode → List ℕ → WorkerService
  disconnected n sum = record s {
    active_nodes = erase host s.active_nodes;
    inactive_nodes = insert host n s.inactive_nodes;
    normalized = sum;
  }

  lookup-insert_self :
      (n : ComputationalNode) (m : Dict String ComputationalNode)
      → lookup host (insert host n m) ≡ some n
  lookup-insert_self n m = simp (lookup-insert, eq_refl)

  -- What is left to do once the node's record is computed.
  abbrev pub finish_connect : ComputationalNode → Outcome WorkerService
  finish_connect n = do sum ← add_assign s.normalized n.node_speed; ok (connected n sum)

  abbrev pub finish_disconnect : ComputationalNode → Outcome WorkerService
  finish_disconnect n = do sum ← sub_assign s.normalized n.node_speed; ok (disconnected n sum)

  pub activate-eq :
      (json : WorkerJson)
      → activate s host json
        ≡ (recompute_coefficients json.bench (node_at s inactive host) >>= finish_connect)
  unfolding activate
  activate-eq json = simp lookup-insert_self

  pub deactivate-eq : deactivate s host ≡ finish_disconnect (node_at s active host)
  unfolding deactivate
  deactivate-eq = simp lookup-insert_self

  pub activate_inv :
      (json : WorkerJson) {s' : WorkerService}
      → activate s host json ≡ ok s'
      → (m : ComputationalNode) × (sum : List ℕ) × (s' ≡ connected m sum)
        × (add_assign s.normalized m.node_speed ≡ ok sum)
  activate_inv json done =
      let (m, computed, then_sum) =
        >>=-eq-ok (recompute_coefficients json.bench (node_at s inactive host)) finish_connect
          (sym (activate-eq json) ∙ done) in
      let (sum, added, final) =
        >>=-eq-ok (add_assign s.normalized m.node_speed) (λ z. ok (connected m z)) then_sum in
      (m, sum, cc, added)

  pub deactivate_inv :
      (n : ComputationalNode) {s' : WorkerService}
      → lookup host s.active_nodes ≡ some n
      → deactivate s host ≡ ok s'
      → (sum : List ℕ) × (s' ≡ disconnected n sum) × (sub_assign s.normalized n.node_speed ≡ ok sum)
  deactivate_inv n here done =
      let e : node_at s active host ≡ n = ground (arith, here) in
      let (sum, taken, final) =
        >>=-eq-ok (sub_assign s.normalized n.node_speed) (λ z. ok (disconnected n z))
          (ap finish_disconnect (sym e) ∙ sym deactivate-eq ∙ done) in
      (sum, cc, taken)

abbrev pub is_refused : Reply → Bool
is_refused (refused code why o) = true
is_refused empty_reply = false
is_refused (answered json) = false

-- A method that returns normally from a request either refused it and changed nothing, or moved a
-- node that was there.
pub connect_node_cases :
    (s : WorkerService) (host : String) (answer : Answer) {s' : WorkerService} {r : Reply}
    → connect_node s host answer ≡ ok (s', r)
    → (is_refused r ≡ true) × (s ≡ s')
      ⊎ ((json : WorkerJson) × (n : ComputationalNode) × (r ≡ answered json)
          × (lookup host s.inactive_nodes ≡ some n)
          × (activate s host json ≡ ok s'))
unfolding connect_node
connect_node_cases s host answer done = ground arith

pub disconnect_node_cases :
    (s : WorkerService) (host : String) (answer : Answer) {s' : WorkerService} {r : Reply}
    → disconnect_node s host answer ≡ ok (s', r)
    → (is_refused r ≡ true) × (s ≡ s')
      ⊎ ((n : ComputationalNode) × (is_refused r ≡ false)
          × (lookup host s.active_nodes ≡ some n)
          × (deactivate s host ≡ ok s'))
unfolding disconnect_node
disconnect_node_cases s host answer done = ground arith
