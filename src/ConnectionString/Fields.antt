-- ===== src/ConnectionString/Fields.antt =====
-- The setters of the connection strings: the formatted string always shows the fields.
use distributed_math_arh.Prelude.{ℕ, String, Bool, ◌≡◌, refl}
use distributed_math_arh.ConnectionString.{
  PostgreSqlCStr, postgres_format, set_password, set_host, set_port, set_dbname, set_user, AmqpCStr,
  amqp_format, set_host_port, set_amqp_user, set_amqp_password, set_secure,
}

pub data PostgresCall : Type 0 where
  user_is password_is host_is dbname_is : String → PostgresCall
  port_is : ℕ → PostgresCall

abbrev pub call_postgres : PostgreSqlCStr → PostgresCall → PostgreSqlCStr
call_postgres c (user_is new) = set_user c new
call_postgres c (password_is new) = set_password c new
call_postgres c (host_is new) = set_host c new
call_postgres c (dbname_is new) = set_dbname c new
call_postgres c (port_is new) = set_port c new

-- The fields that a call asks for, the formatted string aside.
abbrev pub fields_after : PostgreSqlCStr → PostgresCall → String × String × String × String × ℕ
fields_after c (user_is new) = (new, c.password, c.host, c.dbname, c.port)
fields_after c (password_is new) = (c.user, new, c.host, c.dbname, c.port)
fields_after c (host_is new) = (c.user, c.password, new, c.dbname, c.port)
fields_after c (dbname_is new) = (c.user, c.password, c.host, new, c.port)
fields_after c (port_is new) = (c.user, c.password, c.host, c.dbname, new)

-- Every setter changes its own field and no other, and leaves a formatted string that is the format
-- of the fields.
pub call_postgres_lem :
    (c : PostgreSqlCStr) (call : PostgresCall)
    → let c' = call_postgres c call in
      ((c'.user, c'.password, c'.host, c'.dbname, c'.port) ≡ fields_after c call)
      × (c'.formatted_string ≡ postgres_format c')
unfolding set_user set_password set_host set_dbname set_port postgres_format
call_postgres_lem c (user_is new) = (refl, refl)
call_postgres_lem c (password_is new) = (refl, refl)
call_postgres_lem c (host_is new) = (refl, refl)
call_postgres_lem c (dbname_is new) = (refl, refl)
call_postgres_lem c (port_is new) = (refl, refl)

pub data AmqpCall : Type 0 where
  host_port_is amqp_user_is amqp_password_is : String → AmqpCall
  secure_is : Bool → AmqpCall

abbrev pub call_amqp : AmqpCStr → AmqpCall → AmqpCStr
call_amqp c (host_port_is new) = set_host_port c new
call_amqp c (amqp_user_is new) = set_amqp_user c new
call_amqp c (amqp_password_is new) = set_amqp_password c new
call_amqp c (secure_is new) = set_secure c new

abbrev pub amqp_fields_after : AmqpCStr → AmqpCall → String × String × String × Bool
amqp_fields_after c (host_port_is new) = (new, c.amqp_user, c.amqp_password, c.secure)
amqp_fields_after c (amqp_user_is new) = (c.host_port, new, c.amqp_password, c.secure)
amqp_fields_after c (amqp_password_is new) = (c.host_port, c.amqp_user, new, c.secure)
amqp_fields_after c (secure_is new) = (c.host_port, c.amqp_user, c.amqp_password, new)

-- Likewise for the connection strings of RabbitMQ: every setter changes its own field only and leaves
-- the format of the fields.
pub call_amqp_lem :
    (c : AmqpCStr) (call : AmqpCall)
    → let c' = call_amqp c call in
      ((c'.host_port, c'.amqp_user, c'.amqp_password, c'.secure) ≡ amqp_fields_after c call)
      × (c'.amqp_formatted ≡ amqp_format c')
unfolding set_host_port set_amqp_user set_amqp_password set_secure amqp_format
call_amqp_lem c (host_port_is new) = (refl, refl)
call_amqp_lem c (amqp_user_is new) = (refl, refl)
call_amqp_lem c (amqp_password_is new) = (refl, refl)
call_amqp_lem c (secure_is new) = (refl, refl)
