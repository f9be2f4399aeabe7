-- ===== src/MainNode/Gate.antt =====
-- What every request to `MainNodeService` keeps, and what it refuses.
use distributed_math_arh.Prelude.{
  String, Bool, true, false, ◌≡◌, refl, List, [], ◌∷◌, arith, string_eq, ◌⊎◌, inl,
}
use distributed_math_arh.Outcome.{Outcome, ok}
use distributed_math_arh.Task.{TestSolveParam, range_size}
use distributed_math_arh.Worker.{Answer, ComputationalNode}
use distributed_math_arh.MainNode.{
  MainNode, MainReply, conflict, queue_unavailable, start_dispatch, publish_message,
  send_to_execution,
}
use distributed_math_arh.MainNode.Dispatch.{dispatch_P, publish_disconnected}
use distributed_math_arh.MainNode.Handlers.{
  Broker, connect_worker, disconnect_worker, connect_publisher, disconnect_publisher,
}

-- A request to the main node, with what the services around it answer.
pub data Command (F : Type 0) : Type 0 where
  joins : String → String → Broker → Answer → Command F
  leaves : String → Answer → Command F
  opens : String → Broker → Outcome (Unit {0}) → Command F
  closes : Command F
  runs : TestSolveParam F → Command F

module _ {F : Type 0} where
  abbrev pub handle : MainNode F → Command F → MainNode F × Outcome MainReply
  handle m (joins host name broker answer) = connect_worker m host name broker answer
  handle m (leaves host answer) = disconnect_worker m host answer
  handle m (opens qip broker opened) = connect_publisher m qip broker opened
  handle m closes = disconnect_publisher m
  handle m (runs ts) = send_to_execution m ts

  abbrev pub opening : Command F → Bool
  opening (opens qip broker opened) = true
  opening _ = false

  abbrev pub tasking : Command F → Bool
  tasking (runs ts) = true
  tasking _ = false

  start_dispatch_P :
      (P : MainNode F → Type 0)
      → ((m : MainNode F) (ts : TestSolveParam F) (key : String)
          → P m
          → P (publish_message m ts key).0)
      → (m : MainNode F) (ts : TestSolveParam F) (ns : List (String × ComputationalNode)) → P m
      → P (start_dispatch m ts ns).0
  start_dispatch_P P step m ts [] h = h
  start_dispatch_P P step m ts (first ∷ later) h =
      dispatch_P P step m (range_size ts) ts first later h

  -- While the publisher is disconnected, a request other than the one that connects it leaves the
  -- main node as it was; one that is not a task either is answered that the
  -- queue service is unavailable.
  pub disconnected_refuses :
      (m : MainNode F) (c : Command F)
      → m.connected ≡ false
      → opening c ≡ false
      → ((handle m c).0 ≡ m)
        × ((tasking c ≡ true) ⊎ ((handle m c).1 ≡ ok (conflict queue_unavailable)))
  unfolding connect_worker disconnect_worker disconnect_publisher send_to_execution
  disconnected_refuses m (joins host name broker answer) c o = ground arith
  disconnected_refuses m (leaves host answer) c o = ground arith
  disconnected_refuses m (opens qip broker opened) c o = absurd cc
  disconnected_refuses m closes c o = ground arith
  disconnected_refuses m (runs ts) c o = (
    start_dispatch_P (λ m'. m' ≡ m) (λ m' t k h. rw h (publish_disconnected m t k c)) m ts
        m.workers.active_nodes refl,
    inl refl,
  )
