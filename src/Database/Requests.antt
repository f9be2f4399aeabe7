-- ===== src/Database/Requests.antt =====
-- computationalLib/lib/network_shared/DbService.cpp: the bodies of the transactions that `DbService`
-- runs. JSON and benchmark results come as the text that is stored; of a record's overload, which
-- passes its fields on, only the other one is modelled.
use Prim.Native.String.{◌++◌ as ◌<>◌}
use distributed_math_arh.Prelude.{
  ℕ, String, Bool, true, false, List, [], ◌∷◌, Option, none, some, ◌==◌, string_eq, if◌then◌else◌,
}
use distributed_math_arh.Outcome.{Outcome, ok, ◌>>=◌}
use distributed_math_arh.ConnectionString.{decimal}
use distributed_math_arh.Database.{
  Postgres, Param, text, index, missing, Row, as_index, as_text, one_row, first,
  execute_sub_transaction, paginate_request,
}

-- std::optional as a parameter
abbrev optional : Option ℕ → Param
optional none = missing
optional (some n) = index n

abbrev pub log_query : String
log_query =
    "INSERT INTO \"Log\" (node_id,experiment_id, severity, message) VALUES ($1,$2, $3::log_severity, $4) RETURNING log_id"

module _ {Db : Type 0} (pg : Postgres Db) where
  -- exec(...).one_row()[0].as<IndexType>()
  unfoldable pub exec_id : Db → String → List Param → Outcome (Db × ℕ)
  exec_id db qq params = do
    (db', rows) ← pg.exec db qq params
    row ← one_row rows
    field ← first row
    id ← as_index pg field
    ok (db', id)

  -- The statement of Log, whose result is read after the transaction.
  unfoldable pub log_rows : Option ℕ → Option ℕ → String → String → Db → Outcome (Db × List Row)
  log_rows experiment_id node_id severity message db =
      pg.exec db log_query
        (optional node_id ∷ optional experiment_id ∷ text severity ∷ text message ∷ [])

  -- exec(...)[0][0].as<IndexType>()
  unfoldable pub insert_log : Option ℕ → Option ℕ → String → String → Db → Outcome (Db × ℕ)
  insert_log experiment_id node_id severity message db = do
    (db', rows) ←
        pg.exec db log_query
          (optional node_id ∷ optional experiment_id ∷ text severity ∷ text message ∷ [])
    row ← first rows
    field ← first row
    id ← as_index pg field
    ok (db', id)

  -- The number is read after the subtransaction, which has no effect on the state.
  unfoldable pub inner_log : Option ℕ → Option ℕ → String → String → Db → Outcome (Db × ℕ)
  inner_log experiment_id node_id severity message db =
      execute_sub_transaction pg (insert_log experiment_id node_id severity message) db

  -- A statement, and then a log entry in the same transaction.
  unfoldable pub exec_and_log : Db → String → List Param → Option ℕ → Option ℕ → String → Outcome Db
  exec_and_log db qq params experiment_id node_id message = do
    (db₁, _) ← pg.exec db qq params
    (db₂, _) ← inner_log experiment_id node_id "info" message db₁
    ok db₂

  unfoldable pub create_user : String → String → String → Db → Outcome (Db × ℕ)
  create_user login password role db =
      exec_id db
        "INSERT INTO \"User\" (login, hashed_password, role) VALUES ($1, $2, $3) RETURNING user_id"
        (text login ∷ text password ∷ text role ∷ [])

  -- What follows the query for the stored password.
  unfoldable pub check_password : String → String → Db → List Row → Outcome (Db × Bool)
  check_password login password db₁ rows = do
    row ← one_row rows
    field ← first row
    stored ← as_text field
    if stored == password
        then (do
          (db₂, _) ←
              pg.exec db₁ "UPDATE \"User\" SET last_login = NOW() WHERE login = $1"
                (text login ∷ [])
          ok (db₂, true))
        else ok (db₁, false)

  unfoldable pub authenticate_user : String → String → Db → Outcome (Db × Bool)
  authenticate_user login password db = do
    (db₁, rows) ←
        pg.exec db "SELECT hashed_password FROM \"User\" WHERE login = $1" (text login ∷ [])
    check_password login password db₁ rows

  unfoldable pub delete_user : ℕ → Db → Outcome (Db × Unit {0})
  delete_user user_id db = do
    (db', _) ← pg.exec db "DELETE FROM \"User\" WHERE user_id = $1" (index user_id ∷ [])
    ok (db', tt)

  unfoldable pub create_experiment : ℕ → String → Db → Outcome (Db × ℕ)
  create_experiment user_id parameters db = do
    (db₁, id) ←
        exec_id db
          "INSERT INTO \"Experiment\" (user_id, parameters) VALUES ($1, $2::jsonb) RETURNING experiment_id"
          (index user_id ∷ text parameters ∷ [])
    (db₂, _) ←
        inner_log none none "info" ("User " <> decimal 20 user_id <> " created experiment ") db₁
    ok (db₂, id)

  unfoldable pub update_experiment_status : ℕ → String → Db → Outcome (Db × Unit {0})
  update_experiment_status experiment_id status db = do
    db' ←
        exec_and_log db
          "UPDATE \"Experiment\" SET status = $1, start_time = CASE WHEN $1 = 'running'::status THEN NOW() ELSE start_time END, end_time = CASE WHEN $1 IN ('succeeded'::status, 'error'::status) THEN NOW() ELSE end_time END WHERE experiment_id = $2"
          (text status ∷ index experiment_id ∷ []) none none
          ("Experiment " <> decimal 20 experiment_id <> "  status updated to " <> status)
    ok (db', tt)

  -- The rows of a SELECT; the classes of daoClasses.h are made of them after the transaction.
  unfoldable pub list_users : ℕ → ℕ → Db → Outcome (Db × List Row)
  list_users page_num page_size db =
      pg.exec db (paginate_request "SELECT * FROM \"User\"" page_num page_size) []

  unfoldable pub list_experiments : ℕ → ℕ → ℕ → Db → Outcome (Db × List Row)
  list_experiments user_id page_num page_size db =
      pg.exec db
        (paginate_request "SELECT * FROM \"Experiment\" WHERE user_id =$1" page_num page_size)
        (index user_id ∷ [])

  unfoldable pub list_iterations : ℕ → ℕ → ℕ → Db → Outcome (Db × List Row)
  list_iterations experiment_id page_num page_size db =
      pg.exec db
        (paginate_request "SELECT * FROM \"Iteration\" WHERE experiment_id =$1" page_num page_size)
        (index experiment_id ∷ [])

  unfoldable pub list_nodes : ℕ → ℕ → Db → Outcome (Db × List Row)
  list_nodes page_num page_size db =
      pg.exec db (paginate_request "SELECT * FROM \"Node\"" page_num page_size) []

  unfoldable pub list_logs : ℕ → ℕ → Db → Outcome (Db × List Row)
  list_logs page_num page_size db =
      pg.exec db (paginate_request "SELECT * FROM \"Log\"" page_num page_size) []

  unfoldable pub exec_row : Db → String → ℕ → Outcome (Db × Row)
  exec_row db qq id = do
    (db', rows) ← pg.exec db qq (index id ∷ [])
    row ← one_row rows
    ok (db', row)

  unfoldable pub get_experiment : ℕ → Db → Outcome (Db × Row)
  get_experiment id db = exec_row db "SELECT * FROM \"Experiment\" WHERE experiment_id = $1" id

  unfoldable pub get_iteration : ℕ → Db → Outcome (Db × Row)
  get_iteration id db = exec_row db "SELECT * FROM \"Iteration\" WHERE iteration_id = $1" id

  -- The query runs twice; the first of the rows is taken after the transaction.
  unfoldable pub get_node : ℕ → Db → Outcome (Db × List Row)
  get_node id db = do
    (db', _) ← pg.exec db "SELECT * FROM \"Node\" WHERE node_id = $1" (index id ∷ [])
    pg.exec db' "SELECT * FROM \"Node\" WHERE node_id = $1" (index id ∷ [])

  unfoldable pub create_iteration : ℕ → ℕ → String → Db → Outcome (Db × ℕ)
  create_iteration experiment_id node_id iter_type db = do
    (db₁, id) ←
        exec_id db
          "INSERT INTO \"Iteration\" (experiment_id, node_id, iter_t) VALUES ($1, $2, $3) RETURNING iteration_id"
          (index experiment_id ∷ index node_id ∷ text iter_type ∷ [])
    (db₂, _) ←
        inner_log (some experiment_id) (some node_id) "info"
          ("Iteration " <> decimal 20 id <> " created for experiment " <> decimal 20 experiment_id)
          db₁
    ok (db₂, id)

  -- No output for a JSON null.
  abbrev pub iteration_update : ℕ → String → Option String → String × List Param
  iteration_update iteration_id status none = (
    "UPDATE \"Iteration\" SET status = $1::iteration_status, end_time = CASE WHEN $1 IN ('succeeded', 'error') THEN NOW() ELSE end_time END  WHERE iteration_id = $2",
    text status ∷ index iteration_id ∷ [],
  )
  iteration_update iteration_id status (some output) = (
    "UPDATE \"Iteration\" SET status = $1::iteration_status, output_data = $2::jsonb, end_time = CASE WHEN $1 IN ('succeeded', 'error') THEN NOW() ELSE end_time END WHERE iteration_id = $3",
    text status ∷ text output ∷ index iteration_id ∷ [],
  )

  unfoldable pub update_iteration_status : ℕ → String → Option String → Db → Outcome (Db × Unit {0})
  update_iteration_status iteration_id status output db = do
    let (qq, params) = iteration_update iteration_id status output
    db' ←
        exec_and_log db qq params none none
          ("Iteration " <> decimal 20 iteration_id <> " status updated to " <> status)
    ok (db', tt)

  unfoldable pub register_node : String → String → Db → Outcome (Db × ℕ)
  register_node ip_address bench_vec db = do
    (db₁, id) ←
        exec_id db
          "INSERT INTO \"Node\" (ip_address, benchmark_score, status, last_ping) VALUES ($1, $2, 'active', NOW())RETURNING node_id"
          (text ip_address ∷ text bench_vec ∷ [])
    (db₂, _) ← inner_log none (some id) "info" ("Node registered with IP " <> ip_address) db₁
    ok (db₂, id)

  unfoldable pub update_node_status : ℕ → String → Db → Outcome (Db × Unit {0})
  update_node_status node_id status db = do
    db' ←
        exec_and_log db
          "UPDATE \"Node\" SET status = $1::node_status, last_ping = NOW() WHERE node_id = $2"
          (text status ∷ index node_id ∷ []) none (some node_id)
          ("Node status updated to " <> decimal 20 node_id)
    ok (db', tt)

  unfoldable pub unregister_node : ℕ → Db → Outcome (Db × Unit {0})
  unregister_node node_id db = do
    db' ←
        exec_and_log db
          "UPDATE \"Node\" SET status = 'inactive', last_ping = NOW() WHERE node_id = $1"
          (index node_id ∷ []) none (some node_id)
          ("Node " <> decimal 20 node_id <> " unregistered.")
    ok (db', tt)
