-- ===== src/Database/Branches.antt =====
-- What the requests of `DbService` do: who is authenticated, what is logged, when a service is connected.
use distributed_math_arh.Prelude.{
  ℕ, String, Bool, true, false, ◌≡◌, ap, ◌∙◌, List, [], ◌∷◌, Option, none, some, string_eq, arith,
  ◌↔◌,
}
use distributed_math_arh.Outcome.{Outcome, ok, throw, undefined, ◌>>=◌, >>=-eq-ok}
use distributed_math_arh.Database.{Postgres, Param, Row, text, one_row, first, as_text}
use distributed_math_arh.Database.Requests.{
  check_password, authenticate_user, exec_and_log, inner_log, create_experiment,
  update_experiment_status, create_iteration, update_iteration_status, register_node,
  update_node_status, unregister_node,
}
use distributed_math_arh.Database.Service.{
  DbService, DbRequest, DbReply, body, connect_database, is_connected, try_connect, with_id,
  with_done, creates_user, authenticates, deletes_user, gets_experiment, gets_iteration, gets_node,
  lists_users, lists_nodes, lists_logs, lists_experiments, lists_iterations, logs,
  creates_experiment, updates_experiment, creates_iteration, updates_iteration, registers_node,
  updates_node, unregisters_node,
}

module _ {Db : Type 0} (pg : Postgres Db) where
  check_password_only :
      (login password : String) (db db' : Db) (rows : List Row)
      → check_password pg login password db rows ≡ ok (db', true)
      → (later : Row) × (rows ≡ (some password ∷ later) ∷ [])
  unfolding check_password one_row first as_text
  check_password_only login password db db' [] h = absurd cc
  check_password_only login password db db' ([] ∷ []) h = absurd cc
  check_password_only login password db db' ((none ∷ row) ∷ []) h = absurd cc
  check_password_only login password db db' ((some stored ∷ row) ∷ []) h =
      let same : stored ≡ password = ground (arith, h, string_eq.beq_iff stored password) in
      (row, cc same)
  check_password_only login password db db' (row ∷ row' ∷ rows) h = absurd cc

  -- A user is authenticated only with the password that the database stores for the login: the query
  -- for it gave one row, which starts with it.
  pub authenticate_user_only :
      (login password : String) (db db' : Db)
      → authenticate_user pg login password db ≡ ok (db', true)
      → (db₁ : Db) × (later : Row) × (pg.exec db
            "SELECT hashed_password FROM \"User\" WHERE login = $1"
            (text login ∷ [])
          ≡ ok (db₁, (some password ∷ later) ∷ []))
  unfolding authenticate_user
  authenticate_user_only login password db db' h =
      let q : String = "SELECT hashed_password FROM \"User\" WHERE login = $1" in
      let (t, e, rest) =
        >>=-eq-ok (pg.exec db q (text login ∷ [])) (λ t. check_password pg login password t.0 t.1)
          h in
      let (later, same) = check_password_only login password t.0 db' t.1 rest in
      (t.0, later, e ∙ ap (λ rows. ok (t.0, rows)) same)

  -- The requests that write a log entry.
  abbrev pub logging : DbRequest → Bool
  logging (creates_experiment id parameters) = true
  logging (updates_experiment id status) = true
  logging (creates_iteration experiment node kind) = true
  logging (updates_iteration id status output) = true
  logging (registers_node ip bench) = true
  logging (updates_node id status) = true
  logging (unregisters_node id) = true
  logging _ = false

  abbrev pub Logged : Db → Type 0
  Logged db' =
      (experiment node : Option ℕ) × (message : String) × (db₁ : Db) × (id : ℕ) × (inner_log pg
          experiment node "info" message db₁
        ≡ ok (db', id))

  exec_and_log-Logged :
      (db db' : Db) (qq : String) (params : List Param) (experiment node : Option ℕ)
      (message : String)
      → exec_and_log pg db qq params experiment node message ≡ ok db'
      → Logged db'
  unfolding exec_and_log
  exec_and_log-Logged db db' qq params experiment node message h =
      let (t, e, rest) =
        >>=-eq-ok (pg.exec db qq params)
          (λ t. inner_log pg experiment node "info" message t.0 >>= λ u. ok u.0) h in
      let (u, f, last) =
        >>=-eq-ok (inner_log pg experiment node "info" message t.0) (λ u. ok u.0) rest in
      let same : u.0 ≡ db' = cc last in
      (experiment, node, message, t.0, u.1, f ∙ ap (λ d. ok (d, u.1)) same)

  abbrev then_log :
      Outcome (Db × ℕ) → (ℕ → Option ℕ) → (ℕ → Option ℕ) → (ℕ → String) → Outcome (Db × ℕ)
  then_log o experiment node message = do
    (db₁, id) ← o
    (db₂, _) ← inner_log pg (experiment id) (node id) "info" (message id) db₁
    ok (db₂, id)

  created-Logged :
      (db' : Db) (o : Outcome (Db × ℕ)) (experiment node : ℕ → Option ℕ) (message : ℕ → String)
      (r : ℕ)
      → then_log o experiment node message ≡ ok (db', r)
      → Logged db'
  created-Logged db' o experiment node message r h =
      let (t, e, rest) =
        >>=-eq-ok o
          (λ t. inner_log pg (experiment t.1) (node t.1) "info" (message t.1) t.0 >>= λ u.
            ok (u.0, t.1))
          h in
      let (u, f, last) =
        >>=-eq-ok (inner_log pg (experiment t.1) (node t.1) "info" (message t.1) t.0)
          (λ u. ok (u.0, t.1)) rest in
      let same : u.0 ≡ db' = cc last in
      (experiment t.1, node t.1, message t.1, t.0, u.1, f ∙ ap (λ d. ok (d, u.1)) same)

  unwrap_id :
      (o : Outcome (Db × ℕ)) (db' : Db) (r : DbReply)
      → with_id o ≡ ok (db', r)
      → (n : ℕ) × (o ≡ ok (db', n))
  unwrap_id (ok (d, n)) db' r h = let same : d ≡ db' = cc h in (n, ap (λ d. ok (d, n)) same)
  unwrap_id (throw x) db' r h = absurd cc
  unwrap_id undefined db' r h = absurd cc

  abbrev as_unit : Outcome Db → Outcome (Db × Unit {0})
  as_unit o = do d ← o; ok (d, tt)

  unwrap_done :
      (o : Outcome Db) (db' : Db) (r : DbReply) → with_done (as_unit o) ≡ ok (db', r) → o ≡ ok db'
  unwrap_done (ok d) db' r h = ap ok (cc h)
  unwrap_done (throw x) db' r h = absurd cc
  unwrap_done undefined db' r h = absurd cc

  updated-Logged :
      (db db' : Db) (qq : String) (params : List Param) (experiment node : Option ℕ)
      (message : String) (r : DbReply)
      → with_done (as_unit (exec_and_log pg db qq params experiment node message)) ≡ ok (db', r)
      → Logged db'
  updated-Logged db db' qq params experiment node message r h =
      exec_and_log-Logged db db' qq params experiment node message
        (unwrap_done (exec_and_log pg db qq params experiment node message) db' r h)

  wrapped-Logged :
      (db' : Db) (o : Outcome (Db × ℕ)) (experiment node : ℕ → Option ℕ) (message : ℕ → String)
      (r : DbReply)
      → with_id (then_log o experiment node message) ≡ ok (db', r)
      → Logged db'
  wrapped-Logged db' o experiment node message r h =
      let (n, e) = unwrap_id (then_log o experiment node message) db' r h in
      created-Logged db' o experiment node message n e

  -- A transaction that creates an experiment or an iteration, registers or unregisters a node, or
  -- changes a status, and succeeds, has written a log entry of the severity info, as its last statement.
  pub body-Logged :
      (req : DbRequest) (db db' : Db) (r : DbReply)
      → logging req ≡ true
      → body pg req db ≡ ok (db', r)
      → Logged db'
  unfolding body create_experiment create_iteration register_node update_experiment_status
      update_iteration_status update_node_status unregister_node
  body-Logged (creates_experiment id parameters) db db' r l h =
      wrapped-Logged db' _ (λ _. none) (λ _. none) _ r h
  body-Logged (creates_iteration experiment node kind) db db' r l h =
      wrapped-Logged db' _ (λ _. some experiment) (λ _. some node) _ r h
  body-Logged (registers_node ip bench) db db' r l h =
      wrapped-Logged db' _ (λ _. none) (λ id. some id) _ r h
  body-Logged (updates_experiment id status) db db' r l h = updated-Logged db db' _ _ _ _ _ r h
  body-Logged (updates_iteration id status output) db db' r l h =
      updated-Logged db db' _ _ _ _ _ r h
  body-Logged (updates_node id status) db db' r l h = updated-Logged db db' _ _ _ _ _ r h
  body-Logged (unregisters_node id) db db' r l h = updated-Logged db db' _ _ _ _ _ r h
  body-Logged (creates_user _ _ _) db db' r l h = absurd cc
  body-Logged (authenticates _ _) db db' r l h = absurd cc
  body-Logged (deletes_user _) db db' r l h = absurd cc
  body-Logged (gets_experiment _) db db' r l h = absurd cc
  body-Logged (gets_iteration _) db db' r l h = absurd cc
  body-Logged (gets_node _) db db' r l h = absurd cc
  body-Logged (lists_users _ _) db db' r l h = absurd cc
  body-Logged (lists_nodes _ _) db db' r l h = absurd cc
  body-Logged (lists_logs _ _) db db' r l h = absurd cc
  body-Logged (lists_experiments _ _ _) db db' r l h = absurd cc
  body-Logged (lists_iterations _ _ _) db db' r l h = absurd cc
  body-Logged (logs _ _ _ _) db db' r l h = absurd cc

-- A service connects exactly if it has no open connection and libpqxx makes one, which the service then
-- has; the rest of it is as it was.
pub connect_database_iff :
    (s s' : DbService) (attempt : Outcome Bool)
    → (connect_database s attempt ≡ ok s')
      ↔ (is_connected s ≡ false)
        × ((b : Bool) × (attempt ≡ ok b) × (s' ≡ record s { conn = some b }))
unfolding connect_database try_connect
connect_database_iff s s' attempt = ground arith
