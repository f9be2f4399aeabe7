-- ===== src/MainNode/Safety.antt =====
-- `SendToExecution`: what is published also where a share fails.
use distributed_math_arh.Prelude.{ℕ, ◌+◌, ◌<◌, ◌≡◌, String, List, [], ◌∷◌, ◌++◌, u64}
use distributed_math_arh.Outcome.{Outcome, ok}
use distributed_math_arh.Task.{TestSolveParam}
use distributed_math_arh.Task.Slice.{iterations}
use distributed_math_arh.Worker.{ComputationalNode}
use distributed_math_arh.MainNode.{MainNode, MainReply, share}
use distributed_math_arh.MainNode.Dispatch.{keys, covered}

-- A share that does not take the end of a task past 2^64, or that cannot be computed.
abbrev pub Stays : ℕ → Outcome ℕ → Type 0
Stays end (ok k) = end + k < u64
Stays end _ = Unit

-- Nothing is left of what a call that returns had to do.
abbrev pub IsDone : {A : Type 0} → Outcome MainReply → List A → Type 0
IsDone (ok r) left = left ≡ []
IsDone _ left = Unit

module _ {F : Type 0} where
  abbrev pub AllStay : List ℕ → ℕ → TestSolveParam F → List (String × ComputationalNode) → Type 0
  AllStay sum count ts [] = Unit
  AllStay sum count ts ((key, node) ∷ later) =
      Stays ts.range_second (share node.node_speed sum count ts.system_size)
      × AllStay sum count ts later

  -- The messages that a call published: their keys and their iterations are the first ones, in order,
  -- of the nodes and of the task, and all of them if the call returns.
  abbrev pub IsShared :
      MainNode F
      → TestSolveParam F
      → List (String × ComputationalNode)
      → MainNode F × Outcome MainReply
      → Type 0
  IsShared m ts nodes result =
      (ms : List (String × TestSolveParam F)) × (waiting : List String) × (left : List ℕ)
      × (result.0 ≡ record m { sent = m.sent ++ ms })
      × (keys ms ++ waiting ≡ keys nodes)
      × (covered ms ++ left ≡ iterations ts)
      × IsDone result.1 waiting
      × IsDone result.1 left
