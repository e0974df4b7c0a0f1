-- ===== src/Tests/Database.antt =====
-- A database that counts its rows, and a pool of two connections.
use cpp_chat_server.Prelude.{
  pos, ℕ, suc, ◌≡◌, refl, Bool, false, if◌then◌else◌, none, some, List, [], ◌∷◌,
}
use cpp_chat_server.Domain.{default_user, default_room, default_message}
use cpp_chat_server.Data.Driver.{
  Driver, Backend, value, raises, soci_error, connection_error, Sql, with_connection, lift,
  transaction,
}
use cpp_chat_server.Data.UserTable.{add_user}
use cpp_chat_server.Data.RoomTable.{add_room}
use cpp_chat_server.Data.MessageTable.{add_message}
use cpp_chat_server.Data.Connections.{
  init, no_connections, pool_run, total, PoolEvent, takes, ends, replenishes, init-total,
}
use cpp_chat_server.Data.Transactions.{IsSettled, is_added}
use cpp_chat_server.Data.Transactions.Outcomes.{is_broken, answer_after, with_connection-settles}
use cpp_chat_server.Data.Transactions.Adds.{adds-IsSettled}

abbrev counting : Driver ℕ
counting = record {
  select = λ statement bound db. (value [], db);
  change = λ statement bound db. (value 1, suc db);
  last_insert_id = λ table db. (value (some (pos db)), db);
  begin = λ db. (value tt, db);
  commit = λ db. (value tt, db);
  rollback = λ begun db. begun;
  mktime = λ t. pos 0;
  now = pos 0;
}

abbrev backend : Backend ℕ
backend = record { db = 3; returned = 0; replenished = 0 }

adds-IsSettled_example :
    let with_user = add_user counting default_user backend in
    let with_room = add_room counting default_room backend in
    let with_message = add_message counting default_message backend in
    IsSettled counting 3 (is_added with_user.0) with_user.1.db
    × IsSettled counting 3 (is_added with_room.0) with_room.1.db
    × IsSettled counting 3 (is_added with_message.0) with_message.1.db
adds-IsSettled_example =
    adds-IsSettled counting default_user default_room default_message backend 3 refl

-- A block that loses its connection.
abbrev broken : Sql ℕ (Unit {0}) Bool
broken = lift (λ db. (raises (soci_error connection_error), db))

with_connection-settles_example :
    let (r, sc) = broken (record { db = 3; committed = false; object = tt }) in
    with_connection false tt (transaction counting broken) backend ≡ (
      answer_after false sc.object r,
      record {
        db = if sc.committed then sc.db else counting.rollback 3 sc.db;
        returned = if is_broken r then backend.returned else suc backend.returned;
        replenished = if is_broken r then suc backend.replenished else backend.replenished;
      },
    )
with_connection-settles_example = with_connection-settles counting false tt broken backend 3 refl

-- A connection is lent and found broken, and cannot be replaced; the other one is lent.
abbrev pool_history : List PoolEvent
pool_history = takes ∷ ends false 1 ∷ replenishes none ∷ takes ∷ []

init-total_example : total (pool_run (init 2 (λ n. n) no_connections) pool_history) ≡ 2
init-total_example = init-total 2 (λ n. n) pool_history
