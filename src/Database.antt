-- ===== src/Database.antt =====
-- computationalLib/include/network_shared/dbCommon.h and lib/network_shared/dbCommon.cpp: what the
-- code does around PostgreSQL. The database and libpqxx are the record `Postgres`, an argument. The
-- catch that turns a `pqxx::sql_error` into a `SQL_ERROR` keeps text, query and state; both are `sql_error` here.
pub mod Requests
pub mod Service
pub mod Refusal
pub mod Pages
pub mod Branches
pub mod Examples
use Prim.Native.String.{◌++◌ as ◌<>◌}
use distributed_math_arh.Prelude.{
  ℕ, String, Bool, true, false, not, ◌&&◌, List, [], ◌∷◌, Option, none, some, if◌then◌else◌, sub64,
  mul64,
}
use distributed_math_arh.Outcome.{
  Outcome, ok, throw, undefined, deref, logic_error, sql_error, broken_connection, ◌>>=◌,
}
use distributed_math_arh.ConnectionString.{
  PostgreSqlCStr, set_dbname, postgres_verbose_name, decimal,
}

-- A parameter of a query, and a row of its result: the fields, none for NULL.
pub data Param : Type 0 where
  text : String → Param
  index : ℕ → Param
  missing : Param

abbrev pub Row : Type 0
Row = List (Option String)

-- What the code uses of PostgreSQL and libpqxx, for a type of database states: to run a query, in a
-- transaction or without one, and to read a number from a field. A commit is given the states before
-- and inside of the transaction, and leaves a state also where it fails; `abort` is what is left when
-- the object of a transaction that began in a state is destroyed without a commit.
pub record Postgres (Db : Type 0) : Type 0 where
  pub exec : Db → String → List Param → Outcome (Db × List Row)
  pub commit : Db → Db → Db × Outcome (Unit {0})
  pub abort : Db → Db
  pub read_index : String → Option ℕ

-- std::shared_ptr<pqxx::connection>: an empty pointer, or whether the connection is open.
unfoldable pub check_connection : Option Bool → Bool
check_connection none = false
check_connection (some is_open) = is_open

-- field.as<IndexType>(), which throws for NULL and for what is not a number
abbrev pub number_or_error : Option ℕ → Outcome ℕ
number_or_error none = throw logic_error
number_or_error (some n) = ok n

unfoldable pub as_index : {Db : Type 0} → Postgres Db → Option String → Outcome ℕ
as_index pg none = throw logic_error
as_index pg (some t) = number_or_error (pg.read_index t)

-- field.as<std::string>()
unfoldable pub as_text : Option String → Outcome String
as_text none = throw logic_error
as_text (some t) = ok t

-- result.one_row()
unfoldable pub one_row : List Row → Outcome Row
one_row (row ∷ []) = ok row
one_row _ = throw logic_error

-- row[0] and result[0], of which there must be one
unfoldable pub first {ℓ} : {A : Type ℓ} → List A → Outcome A
first [] = undefined
first (x ∷ xs) = ok x

module _ {Db : Type 0} (pg : Postgres Db) where
  -- The end of a transaction that began in `db`.
  abbrev pub finish {ℓ} : {A : Type ℓ} → Db → Outcome (Db × A) → Db × Outcome A
  finish db (ok (db', a)) = let (after, o) = pg.commit db db' in (after, (do _ ← o; ok a))
  finish db (throw x) = (pg.abort db, throw x)
  finish db undefined = (db, undefined)

  unfoldable pub execute_transaction {ℓ} :
      {A : Type ℓ}
      → Option Bool
      → (Db → Outcome (Db × A))
      → String
      → PostgreSqlCStr
      → Db
      → Db × Outcome A
  execute_transaction conn func service_name conn_str db =
      if not (check_connection conn)
      then (db, throw (broken_connection service_name (postgres_verbose_name conn_str)))
      else finish db (func db)

  -- The savepoint's part in the transaction's state; an exception goes on to the transaction.
  unfoldable pub execute_sub_transaction {ℓ} :
      {A : Type ℓ} → (Db → Outcome (Db × A)) → Db → Outcome (Db × A)
  execute_sub_transaction func db = do (db', a) ← func db; ok (db', a)

  unfoldable pub check_database_existence : Db → String → Outcome Bool
  check_database_existence db name = do
    (_, rows) ← pg.exec db ("SELECT 1 FROM pg_database WHERE datname = '" <> name <> "';") []
    ok (elim rows [ [] ↦ false | _ ∷ _ ↦ true ])

  -- The statements that create a database, outside a transaction: what ran before an exception stays.
  abbrev after_grant : Db → Outcome (Db × List Row) → Db × Outcome (Unit {0})
  after_grant db (ok (db', _)) = (db', ok tt)
  after_grant db (throw x) = (db, throw x)
  after_grant db undefined = (db, undefined)

  abbrev after_create : Db → PostgreSqlCStr → Outcome (Db × List Row) → Db × Outcome (Unit {0})
  after_create db c (ok (db', _)) =
      after_grant db'
        (pg.exec db' ("GRANT ALL ON DATABASE \"" <> c.dbname <> "\" TO " <> c.user <> ";") [])
  after_create db c (throw x) = (db, throw x)
  after_create db c undefined = (db, undefined)

  abbrev after_check : Db → PostgreSqlCStr → Outcome Bool → Db × Outcome (Unit {0})
  after_check db c (ok true) = (db, ok tt)
  after_check db c (ok false) =
      after_create db c (pg.exec db ("CREATE DATABASE \"" <> c.dbname <> "\";") [])
  after_check db c (throw x) = (db, throw x)
  after_check db c undefined = (db, undefined)

  -- The connections to the template and to the new database are not part of the state.
  unfoldable pub create_database : Db → PostgreSqlCStr → String → Db × Outcome (Unit {0})
  unfolding set_dbname
  create_database db c_string db_name =
      let c = set_dbname c_string db_name in after_check db c (check_database_existence db c.dbname)

-- (page_num - 1) * page_size, on uint64_t
unfoldable pub page_offset : ℕ → ℕ → ℕ
page_offset page_num page_size = mul64 (sub64 page_num 1) page_size

unfoldable pub paginate_request : String → ℕ → ℕ → String
unfolding page_offset
paginate_request initial_request page_num page_size =
    initial_request
    <> " LIMIT "
    <> decimal 20 page_size
    <> " OFFSET "
    <> decimal 20 (page_offset page_num page_size)
