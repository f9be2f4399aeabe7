-- ===== src/Database/Service.antt =====
-- computationalLib/lib/network_shared/DbService.cpp: the service, its connection and its requests.
use distributed_math_arh.Prelude.{ℕ, String, Bool, List, Option, none, some, if◌then◌else◌}
use distributed_math_arh.Outcome.{
  Outcome, ok, throw, undefined, already_connected, broken_connection, ◌>>=◌,
}
use distributed_math_arh.ConnectionString.{PostgreSqlCStr, postgres_verbose_name}
use distributed_math_arh.Database.{
  Postgres, Row, check_connection, execute_transaction, first, as_index,
}
use distributed_math_arh.Database.Requests.{
  create_user, authenticate_user, delete_user, get_experiment, get_iteration, get_node,
  unregister_node, list_users, list_nodes, list_logs, list_experiments, list_iterations,
  create_experiment, update_experiment_status, update_node_status, create_iteration,
  update_iteration_status, register_node, log_rows,
}

pub record DbService : Type 0 where
  pub conn_str : PostgreSqlCStr
  pub conn : Option Bool

abbrev pub service_name : String
service_name = "DbService"

unfoldable pub new_db_service : PostgreSqlCStr → DbService
new_db_service c = record { conn_str = c; conn = none }

unfoldable pub is_connected : DbService → Bool
unfolding check_connection
is_connected s = check_connection s.conn

-- TryConnect: what libpqxx's constructor does, where only `broken_connection` is caught.
unfoldable pub try_connect : Outcome Bool → String → PostgreSqlCStr → Outcome (Option Bool)
try_connect (ok is_open) service c = ok (some is_open)
try_connect (throw (broken_connection _ _)) service c =
    throw (broken_connection service (postgres_verbose_name c))
try_connect (throw x) service c = throw x
try_connect undefined service c = undefined

-- Reconnect, given how the attempt to connect ends.
unfoldable pub connect_database : DbService → Outcome Bool → Outcome DbService
unfolding is_connected
connect_database s attempt =
    if is_connected s
    then throw (already_connected service_name (postgres_verbose_name s.conn_str))
    else (do conn ← try_connect attempt service_name s.conn_str; ok (record s { conn = conn }))

unfoldable pub disconnect_database : DbService → DbService
disconnect_database s = record s { conn = none }

unfoldable pub set_conn_str : DbService → PostgreSqlCStr → DbService
set_conn_str s c = record s { conn_str = c }

pub data DbRequest : Type 0 where
  creates_user : String → String → String → DbRequest
  authenticates : String → String → DbRequest
  deletes_user gets_experiment gets_iteration gets_node unregisters_node : ℕ → DbRequest
  lists_users lists_nodes lists_logs : ℕ → ℕ → DbRequest
  lists_experiments lists_iterations : ℕ → ℕ → ℕ → DbRequest
  creates_experiment updates_experiment updates_node : ℕ → String → DbRequest
  creates_iteration : ℕ → ℕ → String → DbRequest
  updates_iteration : ℕ → String → Option String → DbRequest
  registers_node : String → String → DbRequest
  logs : Option ℕ → Option ℕ → String → String → DbRequest

pub data DbReply : Type 0 where
  id_is : ℕ → DbReply
  flag_is : Bool → DbReply
  rows_are : List Row → DbReply
  row_is : Row → DbReply
  done : DbReply

module _ {Db : Type 0} where
  abbrev pub with_id : Outcome (Db × ℕ) → Outcome (Db × DbReply)
  with_id o = do (db, n) ← o; ok (db, id_is n)

  abbrev pub with_rows : Outcome (Db × List Row) → Outcome (Db × DbReply)
  with_rows o = do (db, rows) ← o; ok (db, rows_are rows)

  abbrev pub with_done : Outcome (Db × Unit {0}) → Outcome (Db × DbReply)
  with_done o = do (db, _) ← o; ok (db, done)

  abbrev pub with_row : Outcome (Db × Row) → Outcome (Db × DbReply)
  with_row o = do (db, row) ← o; ok (db, row_is row)

module _ {Db : Type 0} (pg : Postgres Db) where
  -- The body of a request's transaction.
  unfoldable pub body : DbRequest → Db → Outcome (Db × DbReply)
  body (creates_user login password role) db = with_id (create_user pg login password role db)
  body (authenticates login password) db = do
    (db', b) ← authenticate_user pg login password db
    ok (db', flag_is b)
  body (deletes_user id) db = with_done (delete_user pg id db)
  body (gets_experiment id) db = with_row (get_experiment pg id db)
  body (gets_iteration id) db = with_row (get_iteration pg id db)
  body (gets_node id) db = with_rows (get_node pg id db)
  body (unregisters_node id) db = with_done (unregister_node pg id db)
  body (lists_users page size) db = with_rows (list_users pg page size db)
  body (lists_nodes page size) db = with_rows (list_nodes pg page size db)
  body (lists_logs page size) db = with_rows (list_logs pg page size db)
  body (lists_experiments id page size) db = with_rows (list_experiments pg id page size db)
  body (lists_iterations id page size) db = with_rows (list_iterations pg id page size db)
  body (creates_experiment id parameters) db = with_id (create_experiment pg id parameters db)
  body (updates_experiment id status) db = with_done (update_experiment_status pg id status db)
  body (updates_node id status) db = with_done (update_node_status pg id status db)
  body (creates_iteration experiment node kind) db =
      with_id (create_iteration pg experiment node kind db)
  body (updates_iteration id status output) db =
      with_done (update_iteration_status pg id status output db)
  body (registers_node ip bench) db = with_id (register_node pg ip bench db)
  body (logs experiment node severity message) db =
      with_rows (log_rows pg experiment node severity message db)

  -- What the service does after the transaction: the record of a node is made of the first row, and the
  -- number of a log entry is read from it. The records of a list are made row by row.
  abbrev pub after_transaction : DbRequest → Outcome DbReply → Outcome DbReply
  after_transaction (gets_node id) (ok (rows_are rows)) = do row ← first rows; ok (row_is row)
  after_transaction (logs experiment_id node_id severity message) (ok (rows_are rows)) = do
    row ← first rows
    field ← first row
    id ← as_index pg field
    ok (id_is id)
  after_transaction req o = o

  unfoldable pub serve_database : DbService → DbRequest → Db → Db × Outcome DbReply
  serve_database s req db =
      let (db', o) = execute_transaction pg s.conn (body req) service_name s.conn_str db in
      (db', after_transaction req o)
