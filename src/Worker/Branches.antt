-- ===== src/Worker/Branches.antt =====
-- How the methods of `WorkerManagementService` end, branch by branch.
use distributed_math_arh.Prelude.{
  ℕ, String, ◌<◌, ◌≡◌, refl, true, ◌⊎◌, inl, inr, some, arith, string_eq, [], ◌∷◌, length, Option,
}
use distributed_math_arh.Prelude.Dict.{lookup}
use distributed_math_arh.Outcome.{Outcome, Exception, ok, throw, undefined, ◌>>=◌, bind-ok}
use distributed_math_arh.Continuous.{JsonReader, read_entries, json_to_continuous}
use distributed_math_arh.Valarray.{divide_scalar}
use distributed_math_arh.Valarray.Laws.{add_assign_mismatch}
use distributed_math_arh.Worker.{
  WorkerService, ComputationalNode, WorkerJson, HttpResponse, Answer, Reply, Notice, refused,
  answered, req_ok, bench_count, bench_infinity, add_new_node, activate, connect_node,
  disconnect_node, recompute_coefficients, with_bench,
}
use distributed_math_arh.Worker.Store.{activate-eq}

-- One request that the service serves, with what the worker answers to it.
pub data Request : Type 0 where
  adds : String → Request
  connects disconnects : String → Answer → Request

abbrev pub serve : WorkerService → Request → Outcome (WorkerService × Reply)
serve s (adds host) = ok (add_new_node s host)
serve s (connects host answer) = connect_node s host answer
serve s (disconnects host answer) = disconnect_node s host answer

-- A request that is refused, whatever the reason, leaves the service as it was.
pub refused_keeps_service :
    (s : WorkerService) (req : Request) (code : ℕ) (why : Notice) (o : Option WorkerJson)
    {s' : WorkerService}
    → serve s req ≡ ok (s', refused code why o)
    → s' ≡ s
unfolding add_new_node connect_node disconnect_node
refused_keeps_service s (adds host) code why o h = ground arith
refused_keeps_service s (connects host answer) code why o h = ground arith
refused_keeps_service s (disconnects host answer) code why o h = ground arith

-- One entry divides into one speed, or into none if it is 0.
divide_single :
    (x : ℕ)
    → (divide_scalar bench_infinity (x ∷ []) ≡ undefined)
      ⊎ ((z : ℕ) × (divide_scalar bench_infinity (x ∷ []) ≡ ok (z ∷ [])))
unfolding divide_scalar
divide_single x = ground arith

one_read :
    (val : JsonReader ℕ) (x : ℕ)
    → val.entry 0 ≡ ok x
    → json_to_continuous val (some 1) true ≡ ok (x ∷ [])
unfolding json_to_continuous read_entries
one_read val x h = rw h refl

-- A node without speeds gets a single one, from the first entry of the worker's list.
with_bench_single :
    (n : ComputationalNode) (x : ℕ)
    → n.node_speed ≡ []
    → (with_bench n (x ∷ []) ≡ undefined)
      ⊎ ((m : ComputationalNode) × (with_bench n (x ∷ []) ≡ ok m) × (length m.node_speed ≡ 1))
with_bench_single n x e = ground (arith, divide_single x)

recompute_single :
    (val : JsonReader ℕ) (n : ComputationalNode) (x : ℕ)
    → val.entry 0 ≡ ok x
    → recompute_coefficients val n ≡ with_bench n (x ∷ [])
unfolding recompute_coefficients
recompute_single val n x h = bind-ok (λ bench. with_bench n bench) (one_read val x h)

recompute_undefined :
    (val : JsonReader ℕ) (n : ComputationalNode)
    → val.entry 0 ≡ undefined
    → recompute_coefficients val n ≡ undefined
unfolding recompute_coefficients json_to_continuous read_entries
recompute_undefined val n h = rw h refl

recompute_throws :
    (val : JsonReader ℕ) (n : ComputationalNode) (x : Exception)
    → val.entry 0 ≡ throw x
    → recompute_coefficients val n ≡ throw x
unfolding recompute_coefficients json_to_continuous read_entries
recompute_throws val n x h = rw h refl

-- How a first connection ends, by how the first entry of the list is read.
abbrev pub first_ends : Outcome ℕ → Outcome (WorkerService × Reply)
first_ends (ok x) = undefined
first_ends (throw x) = throw x
first_ends undefined = undefined

module _ (s : WorkerService) (host : String) (n : ComputationalNode) where
  activate_first :
      (json : WorkerJson) (o : Outcome ℕ)
      → json.bench.entry 0 ≡ o
      → lookup host s.inactive_nodes ≡ some n
      → n.node_speed ≡ []
      → length s.normalized ≡ bench_count
      → (activate s host json >>= λ s'. ok (s', answered json)) ≡ first_ends o
  activate_first json (ok x) read here new whole =
      rw (activate-eq s host json, here, recompute_single json.bench n x read)
        (elim (with_bench_single n x new) [
          | inl e ↦ rw e
          | inr (m, e, single) ↦
              rw e
                (rw (add_assign_mismatch s.normalized m.node_speed (λ same. absurd (omega arith))))
        ])
  activate_first json (throw x) read here new whole =
      rw (activate-eq s host json, here, recompute_throws json.bench n x read) refl
  activate_first json undefined read here new whole =
      rw (activate-eq s host json, here, recompute_undefined json.bench n read) refl

  -- The first connection of a node, once the worker answers with a status below 400 and a JSON body,
  -- never succeeds: if the first entry of the body's list is read as a number, one speed is added to
  -- the thirteen sums, or the entry is 0 and is divided by, which is undefined behaviour; if it cannot
  -- be read, the exception of jsoncpp goes on.
  pub connect_node_first :
      (client : String) (answer : Answer) (resp : HttpResponse) (json : WorkerJson)
      → lookup host s.inactive_nodes ≡ some n
      → n.http_client ≡ some client
      → n.node_speed ≡ []
      → length s.normalized ≡ bench_count
      → answer.code ≡ req_ok
      → answer.response ≡ some resp
      → resp.status_code < 400
      → resp.json_object ≡ some json
      → connect_node s host answer ≡ first_ends (json.bench.entry 0)
  unfolding connect_node
  connect_node_first client answer resp json here known new whole sent got good body =
      ground (arith, activate_first json (json.bench.entry 0) refl here new whole)
