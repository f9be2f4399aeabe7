-- ===== src/Database/Examples.antt =====
-- Tests and instances for `Database`: a stand-in for PostgreSQL that counts the statements that ran.
use distributed_math_arh.Prelude.{
  ℕ, suc, ◌+◌, Bool, true, false, ◌≡◌, refl, [], ◌∷◌, none, some, ◌↔◌, arith,
}
use distributed_math_arh.Outcome.{ok, throw, logic_error, sql_error, broken_connection}
use distributed_math_arh.ConnectionString.{
  PostgreSqlCStr, new_postgres, postgres_verbose_name, decimal,
}
use distributed_math_arh.Database.{
  Postgres, Row, text, execute_transaction, page_offset, paginate_request, check_connection,
  as_index, as_text, one_row, first, execute_sub_transaction,
}
use distributed_math_arh.Database.Requests.{
  authenticate_user, check_password, inner_log, insert_log, log_rows, delete_user, exec_and_log,
  unregister_node,
}
use distributed_math_arh.Database.Service.{
  DbService, deletes_user, unregisters_node, logs, done, new_db_service, is_connected, body,
  serve_database, service_name, connect_database,
}
use distributed_math_arh.Database.Refusal.{disconnected_request}
use distributed_math_arh.Database.Branches.{
  authenticate_user_only, body-Logged, Logged, connect_database_iff,
}
use distributed_math_arh.Database.Pages.{page_offset_next}

abbrev counting : Postgres ℕ
counting = record {
  exec = λ db qq params. ok (suc db, (some "1" ∷ []) ∷ []);
  commit = λ db inside. (inside, ok tt);
  abort = λ db. db;
  read_index = λ t. some 1;
}

-- One whose statements all fail.
abbrev failing : Postgres ℕ
failing = record counting { exec = λ db qq params. throw (sql_error "syntax error" qq "42601") }

abbrev conn_string : PostgreSqlCStr
conn_string = new_postgres "postgres" "secret" "127.0.0.1" "test_db" 5432

abbrev service : DbService
service = record { conn_str = conn_string; conn = some true }

second_page :
    paginate_request "SELECT * FROM \"User\"" 2 50 ≡ "SELECT * FROM \"User\" LIMIT 50 OFFSET 50"
unfolding paginate_request decimal
second_page = refl

failed :
    (serve_database failing service (deletes_user 3) 7).1
    ≡ throw (sql_error "syntax error" "DELETE FROM \"User\" WHERE user_id = $1" "42601")
unfolding serve_database execute_transaction check_connection body delete_user
failed = refl

-- The number of a log entry is read after the commit: where it cannot be read the entry stays.
abbrev unreadable : Postgres ℕ
unreadable = record counting { read_index = λ t. none }

log_stays :
    serve_database unreadable service (logs none none "info" "started") 7 ≡ (8, throw logic_error)
unfolding serve_database execute_transaction check_connection body log_rows first as_index
log_stays = refl

no_connection_is_refused :
    serve_database counting (new_db_service conn_string) (deletes_user 3) 7
    ≡ (7, throw (broken_connection service_name (postgres_verbose_name conn_string)))
unfolding new_db_service is_connected
no_connection_is_refused =
    disconnected_request counting (new_db_service conn_string) (deletes_user 3) 7 refl

authenticated : authenticate_user counting "user" "1" 7 ≡ ok (9, true)
unfolding authenticate_user check_password one_row first as_text
authenticated = refl

authenticate_user_only_example :
    (db₁ : ℕ) × (later : Row) × (counting.exec 7
        "SELECT hashed_password FROM \"User\" WHERE login = $1"
        (text "user" ∷ [])
      ≡ ok (db₁, (some "1" ∷ later) ∷ []))
authenticate_user_only_example = authenticate_user_only counting "user" "1" 7 9 authenticated

unregistered : body counting (unregisters_node 4) 7 ≡ ok (9, done)
unfolding body unregister_node exec_and_log inner_log insert_log execute_sub_transaction first
    as_index
unregistered = refl

body-Logged_example : Logged counting 9
body-Logged_example = body-Logged counting (unregisters_node 4) 7 9 done refl unregistered

connect_database_iff_example :
    (connect_database (new_db_service conn_string) (ok true) ≡ ok service)
    ↔ (is_connected (new_db_service conn_string) ≡ false)
      × ((b : Bool) × (ok true ≡ ok b)
          × (service ≡ record (new_db_service conn_string) { conn = some b }))
connect_database_iff_example = connect_database_iff (new_db_service conn_string) service (ok true)

next_page : (page_offset 1 50 ≡ 0) × (page_offset 3 50 ≡ page_offset 2 50 + 50)
next_page = page_offset_next 2 50 (omega arith) (omega arith) (omega arith)
