-- ===== src/Database/Refusal.antt =====
-- What `DbService` does without a connection.
use distributed_math_arh.Prelude.{false, ◌≡◌, arith}
use distributed_math_arh.Outcome.{Exception, throw, broken_connection}
use distributed_math_arh.ConnectionString.{postgres_verbose_name}
use distributed_math_arh.Database.{Postgres, execute_transaction}
use distributed_math_arh.Database.Service.{
  DbService, DbRequest, serve_database, is_connected, service_name, after_transaction,
}

broken_passes :
    {Db : Type 0} (pg : Postgres Db) (req : DbRequest) (x : Exception)
    → after_transaction pg req (throw x) ≡ throw x
broken_passes pg req x = ground arith

module _ {Db : Type 0} (pg : Postgres Db) where
  -- Without an open connection every request fails with a broken connection that names the service,
  -- and the database is as it was.
  pub disconnected_request :
      (s : DbService) (req : DbRequest) (db : Db)
      → is_connected s ≡ false
      → serve_database pg s req db
        ≡ (db, throw (broken_connection service_name (postgres_verbose_name s.conn_str)))
  unfolding serve_database execute_transaction is_connected
  disconnected_request s req db off = ground arith
