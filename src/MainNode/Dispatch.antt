-- ===== src/MainNode/Dispatch.antt =====
-- `SendToExecution`: the published blocks are a partition of the task's iterations.
use distributed_math_arh.Prelude.{
  ℕ, ◌+◌, ◌≤◌, ◌<◌, ◌≡◌, refl, sym, ap, ◌∙◌, String, List, [], ◌∷◌, ◌++◌, true, false, length, All,
  arith, string_eq,
}
use mathlib.Core.List.{append-nil, append_assoc}
use distributed_math_arh.Prelude.Dict.{total}
use distributed_math_arh.Outcome.{Outcome, ok, throw, undefined, ◌>>=◌}
use distributed_math_arh.Task.{TestSolveParam, range_size, slice_away}
use distributed_math_arh.Task.Slice.{
  IsRange, iterations, block, rest, slice_away_accepts, rest-IsRange, iterations-cut,
  range_size-rest,
}
use distributed_math_arh.Worker.{ComputationalNode}
use distributed_math_arh.MainNode.{
  MainNode, MainReply, success, n_index, share, publish_message, dispatch, send_to_execution,
  start_dispatch,
}
use distributed_math_arh.MainNode.Shares.{Fits, quota, share-eq-quota, quota-pos}

abbrev pub keys {ℓ} : {V : Type ℓ} → List (String × V) → List String
keys [] = []
keys ((k, v) ∷ m) = k ∷ keys m

abbrev pub AllFit : ℕ → List ℕ → ℕ → List (String × ComputationalNode) → Type 0
AllFit count sum n [] = Unit
AllFit count sum n ((k, node) ∷ m) = Fits count sum n node × AllFit count sum n m

first_fits :
    (count : ℕ) (sum : List ℕ) (n : ℕ) (pos : All (λ y. 0 < y) sum) (known : n_index n < length sum)
    (node : ComputationalNode) (next : String × ComputationalNode)
    (later : List (String × ComputationalNode)) (size : ℕ)
    → AllFit count sum n (next ∷ later)
    → quota count sum n node + total (quota count sum n) (next ∷ later) ≤ size
    → quota count sum n node < size
first_fits count sum n pos known node (key, node') later size f le =
    omega (arith, quota-pos count sum n pos known node' f.0)

module _ {F : Type 0} where
  -- The iterations of the messages, in the order of publication.
  abbrev pub covered : List (String × TestSolveParam F) → List ℕ
  covered [] = []
  covered ((key, ts) ∷ ms) = iterations ts ++ covered ms

  pub publish_connected :
      (m : MainNode F) (ts : TestSolveParam F) (key : String)
      → m.connected ≡ true
      → (publish_message m ts key).0 ≡ record m { sent = m.sent ++ (key, ts) ∷ [] }
  unfolding publish_message
  publish_connected m ts key c = ground arith

  pub dispatch_step :
      (m : MainNode F) (count : ℕ) (ts a b : TestSolveParam F) (key : String)
      (node : ComputationalNode) (next : String × ComputationalNode)
      (later : List (String × ComputationalNode)) (k : ℕ)
      → m.connected ≡ true
      → share node.node_speed m.workers.normalized count ts.system_size ≡ ok k
      → slice_away ts k ≡ ok (a, b)
      → dispatch m count ts (key, node) (next ∷ later)
        ≡ dispatch (record m { sent = m.sent ++ (key, a) ∷ [] }) count b next later
  unfolding dispatch
  dispatch_step m count ts a b key node next later k c e f =
      rw (dispatch, e, f) (ap (λ m'. dispatch m' count b next later) (publish_connected m a key c))

  abbrev after :
      Outcome (TestSolveParam F × TestSolveParam F)
      → (TestSolveParam F → TestSolveParam F → MainNode F × Outcome MainReply)
      → MainNode F
      → MainNode F × Outcome MainReply
  after cut go_on m = elim cut [
    | ok (block, left) ↦ go_on block left
    | throw x ↦ (m, throw x)
    | undefined ↦ (m, undefined)
  ]

  after_P :
      (P : MainNode F → Type 0) (cut : Outcome (TestSolveParam F × TestSolveParam F))
      (go_on : TestSolveParam F → TestSolveParam F → MainNode F × Outcome MainReply)
      (m : MainNode F)
      → P m
      → ((a b : TestSolveParam F) → P (go_on a b).0)
      → P (after cut go_on m).0
  after_P P (ok (a, b)) go_on m h g = g a b
  after_P P (throw x) go_on m h g = h
  after_P P undefined go_on m h g = h

  -- What every publication keeps, the whole distribution keeps.
  pub dispatch_P :
      (P : MainNode F → Type 0)
      → ((m : MainNode F) (ts : TestSolveParam F) (key : String)
          → P m
          → P (publish_message m ts key).0)
      → (m : MainNode F) (count : ℕ) (ts : TestSolveParam F) (first : String × ComputationalNode)
        (later : List (String × ComputationalNode))
      → P m
      → P (dispatch m count ts first later).0
  unfolding dispatch
  dispatch_P P step m count ts (key, node) [] h = step m ts key h
  dispatch_P P step m count ts (key, node) (next ∷ later) h =
      after_P P (share node.node_speed m.workers.normalized count ts.system_size >>= slice_away ts)
        (λ block left. dispatch (publish_message m block key).0 count left next later) m h
        (λ block left.
          dispatch_P P step (publish_message m block key).0 count left next later
            (step m block key h))

  pub publish_disconnected :
      (m : MainNode F) (ts : TestSolveParam F) (key : String)
      → m.connected ≡ false
      → (publish_message m ts key).0 ≡ m
  unfolding publish_message
  publish_disconnected m ts key c = ground arith

  -- What follows a cut, if it leaves the main node alone and answers `r`.
  after_cut :
      (m : MainNode F) (r : MainReply) (cut : Outcome (TestSolveParam F × TestSolveParam F))
      (go_on : TestSolveParam F → TestSolveParam F → MainNode F × Outcome MainReply)
      → ((a b : TestSolveParam F) → (go_on a b).1 ≡ ok r → ((go_on a b).0 ≡ m) × (r ≡ success))
      → (after cut go_on m).1 ≡ ok r
      → ((after cut go_on m).0 ≡ m) × (r ≡ success)
  after_cut m r (ok (a, b)) go_on h done = h a b done
  after_cut m r (throw x) go_on h done = cc
  after_cut m r undefined go_on h done = cc

  dispatch_disconnected :
      (m : MainNode F) (count : ℕ) (ts : TestSolveParam F) (first : String × ComputationalNode)
      (later : List (String × ComputationalNode)) (r : MainReply)
      → m.connected ≡ false
      → (dispatch m count ts first later).1 ≡ ok r
      → ((dispatch m count ts first later).0 ≡ m) × (r ≡ success)
  unfolding dispatch
  dispatch_disconnected m count ts (key, node) [] r c done = (publish_disconnected m ts key c, cc)
  dispatch_disconnected m count ts (key, node) (next ∷ later) r c done =
      let still = publish_disconnected m in
      after_cut m r
        (share node.node_speed m.workers.normalized count ts.system_size >>= slice_away ts)
        (λ block left. dispatch (publish_message m block key).0 count left next later)
        (λ block left. rw (still block key c) (dispatch_disconnected m count left next later r c))
        done

  module _ (count : ℕ) (sum : List ℕ) (n : ℕ) where
    -- The messages of a task: a block of its quota for each node, what is left for the last.
    pub messages :
        TestSolveParam F
        → String × ComputationalNode
        → List (String × ComputationalNode)
        → List (String × TestSolveParam F)
    messages ts (key, node) [] = (key, ts) ∷ []
    messages ts (key, node) (next ∷ later) =
        (key, block ts (quota count sum n node))
        ∷ messages (rest ts (quota count sum n node)) next later

    pub keys-messages :
        (ts : TestSolveParam F) (first : String × ComputationalNode)
        (later : List (String × ComputationalNode))
        → keys (messages ts first later) ≡ keys (first ∷ later)
    unfolding messages
    keys-messages ts (key, node) [] = refl
    keys-messages ts (key, node) (next ∷ later) =
        ap (◌∷◌ key) (keys-messages (rest ts (quota count sum n node)) next later)

    module _ (pos : All (λ y. 0 < y) sum) (known : n_index n < length sum) where
      pub covered-messages :
          (ts : TestSolveParam F) (first : String × ComputationalNode)
          (later : List (String × ComputationalNode))
          → IsRange ts
          → AllFit count sum n (first ∷ later)
          → total (quota count sum n) (first ∷ later) ≤ range_size ts
          → covered (messages ts first later) ≡ iterations ts
      unfolding messages
      covered-messages ts (key, node) [] v f le = append-nil (iterations ts)
      covered-messages ts (key, node) (next ∷ later) v (f, fs) le =
          let q = quota count sum n node in
          let more = quota-pos count sum n pos known node f in
          let less = first_fits count sum n pos known node next later (range_size ts) fs le in
          let enough = range_size-rest ts q v more less in
          ap (iterations (block ts q) ++◌) (
            covered-messages (rest ts q) next later (rest-IsRange ts q v more less) fs
              (omega (arith, enough, le)))
          ∙ sym (iterations-cut ts q v more less)

      pub dispatch_lem :
          (m : MainNode F) (ts : TestSolveParam F) (first : String × ComputationalNode)
          (later : List (String × ComputationalNode))
          → m.connected ≡ true
          → m.workers.normalized ≡ sum
          → ts.system_size ≡ n
          → IsRange ts
          → AllFit count sum n (first ∷ later)
          → total (quota count sum n) (first ∷ later) ≤ range_size ts
          → dispatch m count ts first later
            ≡ (record m { sent = m.sent ++ messages ts first later }, ok success)
      unfolding messages dispatch
      dispatch_lem m ts (key, node) [] c w sz v f le =
          ap (λ m'. (m', ok success)) (publish_connected m ts key c)
      dispatch_lem m ts (key, node) (next ∷ later) c w sz v (f, fs) le =
          let q = quota count sum n node in
          let more = quota-pos count sum n pos known node f in
          let less = first_fits count sum n pos known node next later (range_size ts) fs le in
          let enough = range_size-rest ts q v more less in
          let m' : MainNode F = record m { sent = m.sent ++ (key, block ts q) ∷ [] } in
          dispatch_step m count ts (block ts q) (rest ts q) key node next later q c
            (ap (λ t. share node.node_speed t count ts.system_size) w
              ∙ ap (λ t. share node.node_speed sum count t) sz
              ∙ share-eq-quota count sum n pos known node f)
            (slice_away_accepts ts q v more less)
          ∙ dispatch_lem m' (rest ts q) next later c w sz (rest-IsRange ts q v more less) fs
              (omega (arith, enough, le))
          ∙ ap (λ xs. (record m { sent = xs }, ok success))
              (append_assoc m.sent ((key, block ts q) ∷ []) (messages (rest ts q) next later))

  -- While the publisher is disconnected, a task for one node or more that does not fail answers 200
  -- all the same, and the main node is as it was: nothing is published.
  pub send_to_execution_disconnected :
      (m : MainNode F) (ts : TestSolveParam F) (first : String × ComputationalNode)
      (later : List (String × ComputationalNode)) (m' : MainNode F) (r : MainReply)
      → m.connected ≡ false
      → m.workers.active_nodes ≡ first ∷ later
      → send_to_execution m ts ≡ (m', ok r)
      → (m' ≡ m) × (r ≡ success)
  unfolding send_to_execution
  send_to_execution_disconnected m ts first later m' r c e done =
      let (same, good) =
        dispatch_disconnected m (range_size ts) ts first later r c
          (ap (λ t. t.1) (sym (ap (start_dispatch m ts) e) ∙ done)) in
      (ap (λ t. t.0) (sym done ∙ ap (start_dispatch m ts) e) ∙ same, good)
