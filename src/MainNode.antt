-- ===== src/MainNode.antt =====
-- mainNode/include/service/MainNodeService.h and mainNode/src/service/MainNodeService.cpp: the main
-- node. A handler gives the new state and how it ended: what it changed before an exception stays.
-- The answers of RabbitMQ and of the workers are arguments. The time stamp in a message's headers,
-- which nothing reads, is left out.
pub mod Dispatch
pub mod Safety
pub mod Gate
pub mod Failures
pub mod Shares
pub mod Handlers
pub mod Examples
use distributed_math_arh.Prelude.{
  ℕ, zero, suc, ◌+◌, String, Bool, true, false, not, List, [], ◌∷◌, ◌++◌, Option, none, some,
  nat_beq, leb, length, get_elem?, ◌==◌, string_eq, if◌then◌else◌,
}
use distributed_math_arh.Prelude.Dict.{Dict}
use distributed_math_arh.Outcome.{
  Outcome, ok, throw, undefined, Exception, http_error, curl_error, runtime_error, ◌>>=◌, deref,
}
use distributed_math_arh.Valarray.{div_assign, scale}
use distributed_math_arh.Task.{TestSolveParam, slice_away, range_size}
use distributed_math_arh.Worker.{
  WorkerService, ComputationalNode, WorkerJson, Answer, Reply, empty_reply, refused, answered,
  reply_status, new_service, add_new_node, connect_node, disconnect_node,
}

-- shared::ns of computationalLib/include/network_shared/sharedConstants.h
abbrev pub ns : List ℕ
ns = 1 ∷ 2 ∷ 4 ∷ 5 ∷ 8 ∷ 10 ∷ 20 ∷ 40 ∷ 50 ∷ 100 ∷ 200 ∷ 400 ∷ 500 ∷ []

-- std::find, as a distance from the beginning; the length where there is no match
unfoldable pub find_index : List ℕ → ℕ → ℕ
find_index [] v = 0
find_index (x ∷ xs) v = let later = suc (find_index xs v) in if nat_beq x v then 0 else later

unfoldable pub n_index : ℕ → ℕ
unfolding find_index
n_index v = find_index ns v

pub data Problem : Type 0 where
  queue_unavailable queue_shut_down no_nodes : Problem
  queue_creation_error : ℕ → String → Problem
  already_working curl_request_error publisher_error : String → Problem

-- The JSON that a handler answers with: its "status", and what goes with it.
pub data MainReply : Type 0 where
  success : MainReply
  conflict : Problem → MainReply
  balancer : ℕ → Reply → MainReply

-- res["status"], for the code of the HTTP response
unfoldable pub main_status : MainReply → ℕ
main_status success = 200
main_status (conflict p) = 409
main_status (balancer code r) = code

pub record MainNode (F : Type 0) : Type 0 where
  pub user : String
  pub password : String
  pub q_host : String
  pub connected : Bool
  pub default_exchange : String
  pub workers : WorkerService
  -- what the publisher was given, with its routing key, oldest first
  pub sent : List (String × TestSolveParam F)

-- The number of iterations for a node: iters[NIndex(n)].
unfoldable pub share : List ℕ → List ℕ → ℕ → ℕ → Outcome ℕ
share speed sum count n = do
  iters ← div_assign (scale speed count) sum
  deref (get_elem? iters (n_index n))

module _ {F : Type 0} where
  unfoldable pub publish_message : MainNode F → TestSolveParam F → String → MainNode F × MainReply
  publish_message m ts node =
      if not m.connected
      then (m, conflict queue_shut_down)
      else (record m { sent = m.sent ++ (node, ts) ∷ [] }, success)

  -- The loop over the active nodes, and the message to the last one after it.
  unfoldable pub dispatch :
      MainNode F
      → ℕ
      → TestSolveParam F
      → String × ComputationalNode
      → List (String × ComputationalNode)
      → MainNode F × Outcome MainReply
  dispatch m count ts (key, node) [] = ((publish_message m ts key).0, ok success)
  dispatch m count ts (key, node) (next ∷ later) =
      elim (do
        iters ← share node.node_speed m.workers.normalized count ts.system_size
        slice_away ts iters) [
          | ok (block, left) ↦ dispatch (publish_message m block key).0 count left next later
          | throw x ↦ (m, throw x)
          | undefined ↦ (m, undefined)
        ]

  abbrev pub start_dispatch :
      MainNode F
      → TestSolveParam F
      → List (String × ComputationalNode)
      → MainNode F × Outcome MainReply
  start_dispatch m ts [] = (m, ok (conflict no_nodes))
  start_dispatch m ts (first ∷ later) = dispatch m (range_size ts) ts first later

  unfoldable pub send_to_execution : MainNode F → TestSolveParam F → MainNode F × Outcome MainReply
  send_to_execution m ts = start_dispatch m ts m.workers.active_nodes
