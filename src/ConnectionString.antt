-- ===== src/ConnectionString.antt =====
-- computationalLib/include/network_shared/connectionString.h and lib/network_shared/
-- connectionString.cpp: the connection strings of PostgreSQL and of RabbitMQ. scn::scan, of a library,
-- is an argument of the functions that parse.
pub mod Decode
pub mod Fields
pub mod Examples
use Prim.Native.Char.{Char, code}
use Prim.Native.String.{◌++◌ as ◌<>◌}
use distributed_math_arh.Prelude.{
  ℕ, zero, suc, ◌+◌, ◌/◌, ◌%◌, String, Bool, true, false, ◌||◌, List, [], ◌∷◌, ◌==◌, string_eq,
  nat_beq, get_or, if◌then◌else◌,
}
use distributed_math_arh.Outcome.{Outcome, ok, undefined, ◌>>=◌, deref}
use distributed_math_arh.Prelude.{Option, none, some}

-- constexpr const char *kDelimiters = "/@:?&=#"
abbrev pub delimiters : List ℕ
delimiters = b'/' ∷ b'@' ∷ b':' ∷ b'?' ∷ b'&' ∷ b'=' ∷ b'#' ∷ []

unfoldable pub is_delimiter : List ℕ → Char → Bool
is_delimiter [] c = false
is_delimiter (d ∷ ds) c = nat_beq d (code c) || is_delimiter ds c

unfoldable pub url_decode : String → String
url_decode String.[] = String.[]
url_decode (String.◌∷◌ c s) =
    String.◌∷◌ (if is_delimiter delimiters c then " " else c) (url_decode s)

-- std::to_string of an unsigned number, at most `fuel` digits of it; ten are enough for 32 bits.
abbrev digits : List String
digits = "0" ∷ "1" ∷ "2" ∷ "3" ∷ "4" ∷ "5" ∷ "6" ∷ "7" ∷ "8" ∷ "9" ∷ []

unfoldable pub decimal : ℕ → ℕ → String
decimal zero n = ""
decimal (suc fuel) n =
    let higher = decimal fuel (n / 10) in
    (if nat_beq (n / 10) 0 then "" else higher) <> get_or digits (n % 10) ""

pub record PostgreSqlCStr : Type 0 where
  pub user : String
  pub password : String
  pub host : String
  pub dbname : String
  pub port : ℕ
  pub formatted_string : String

-- What UpdateFormat writes.
unfoldable pub postgres_format : PostgreSqlCStr → String
postgres_format c =
    "postgresql://"
    <> c.user
    <> ":"
    <> c.password
    <> "@"
    <> c.host
    <> ":"
    <> decimal 10 c.port
    <> "/"
    <> c.dbname

unfoldable pub update_postgres : PostgreSqlCStr → PostgreSqlCStr
update_postgres c = record c { formatted_string = postgres_format c }

unfoldable pub default_postgres : PostgreSqlCStr
default_postgres = record {
  user = "";
  password = "";
  host = "";
  dbname = "";
  port = 5432;
  formatted_string = "";
}

unfoldable pub new_postgres : String → String → String → String → ℕ → PostgreSqlCStr
unfolding update_postgres
new_postgres u p h d n =
    update_postgres
      (record { user = u; password = p; host = h; dbname = d; port = n; formatted_string = "" })

module _ (c : PostgreSqlCStr) where
  unfoldable pub set_password : String → PostgreSqlCStr
  unfolding update_postgres
  set_password new = update_postgres (record c { password = new })

  unfoldable pub set_host : String → PostgreSqlCStr
  unfolding update_postgres
  set_host new = update_postgres (record c { host = new })

  unfoldable pub set_port : ℕ → PostgreSqlCStr
  unfolding update_postgres
  set_port new = update_postgres (record c { port = new })

  unfoldable pub set_dbname : String → PostgreSqlCStr
  unfolding update_postgres
  set_dbname new = update_postgres (record c { dbname = new })

  unfoldable pub set_user : String → PostgreSqlCStr
  unfolding update_postgres
  set_user new = update_postgres (record c { user = new })

  unfoldable pub postgres_verbose_name : String
  postgres_verbose_name = c.host <> ":" <> decimal 10 c.port <> " db:" <> c.dbname

  -- The words are tied in the order user, password, host, port, dbname.
  unfoldable pub postgres_from_string :
      (String → Outcome (String × String × String × ℕ × String)) → String → Outcome PostgreSqlCStr
  unfolding update_postgres
  postgres_from_string scan s = do
    (u, p, h, n, d) ← scan (url_decode s)
    ok (update_postgres (record c { user = u; password = p; host = h; port = n; dbname = d }))

pub record AmqpCStr : Type 0 where
  pub host_port : String
  pub amqp_user : String
  pub amqp_password : String
  pub secure : Bool
  pub amqp_formatted : String

unfoldable pub amqp_format : AmqpCStr → String
amqp_format c =
    "amqp"
    <> (if c.secure then "s" else "")
    <> "://"
    <> c.amqp_user
    <> ":"
    <> c.amqp_password
    <> "@"
    <> c.host_port
    <> "/"

unfoldable pub update_amqp : AmqpCStr → AmqpCStr
update_amqp c = record c { amqp_formatted = amqp_format c }

unfoldable pub default_amqp : AmqpCStr
default_amqp = record {
  host_port = "";
  amqp_user = "";
  amqp_password = "";
  secure = false;
  amqp_formatted = "";
}

unfoldable pub new_amqp : String → String → String → Bool → AmqpCStr
unfolding update_amqp
new_amqp h u p b =
    update_amqp
      (record { host_port = h; amqp_user = u; amqp_password = p; secure = b; amqp_formatted = "" })

-- c.back(), undefined on an empty string
abbrev ends_in_s : String → Option Bool
ends_in_s String.[] = none
ends_in_s (String.◌∷◌ c String.[]) = some (nat_beq (code c) b's')
ends_in_s (String.◌∷◌ c (String.◌∷◌ d s)) = ends_in_s (String.◌∷◌ d s)

module _ (c : AmqpCStr) where
  unfoldable pub set_host_port : String → AmqpCStr
  unfolding update_amqp
  set_host_port new = update_amqp (record c { host_port = new })

  unfoldable pub set_amqp_user : String → AmqpCStr
  unfolding update_amqp
  set_amqp_user new = update_amqp (record c { amqp_user = new })

  unfoldable pub set_amqp_password : String → AmqpCStr
  unfolding update_amqp
  set_amqp_password new = update_amqp (record c { amqp_password = new })

  unfoldable pub set_secure : Bool → AmqpCStr
  unfolding update_amqp
  set_secure new = update_amqp (record c { secure = new })

  unfoldable pub amqp_verbose_name : String
  amqp_verbose_name = c.host_port <> " secure:" <> (if c.secure then "1" else "0")

  unfoldable pub amqp_from_string :
      (String → Outcome (String × String × String × String × String)) → String → Outcome AmqpCStr
  unfolding update_amqp
  amqp_from_string scan s = do
    (scheme, u, p, h, port) ← scan (url_decode s)
    b ← deref (ends_in_s scheme)
    ok (
        update_amqp
          (record c { host_port = h <> ":" <> port; amqp_user = u; amqp_password = p; secure = b }))
