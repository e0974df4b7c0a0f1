-- ===== src/Data/RoomTable/Stores.antt =====
-- addRoom and findRoomByName of server/src/data/MySQLRoomRepository.cpp over a database that keeps the table
-- `rooms`.
use cpp_chat_server.Prelude.{
  ℤ, suc, ◌≡◌, refl, sym, ap, ◌∙◌, String, Bool, true, false, some, List, ◌∷◌, map, int_eq, ◌==◌,
  int_beq_iff,
}
use cpp_chat_server.Domain.{Room, TimePoint}
use cpp_chat_server.RoomService.Together.{StoresRooms}
use cpp_chat_server.Data.Driver.{
  Driver, Cell, Tm, value, Scope, Backend, pure, lift, update, ◌>>=◌, ◌>>◌, recover, pair_with,
  give_back, close, transaction,
}
use cpp_chat_server.Data.Driver.Inversion.{
  bind-value, of_value, of_db, then-value, lift-value, update-value, pure-value, try_or-value,
  committed-value, transaction-value, kept-scope, with_connection-value,
}
use cpp_chat_server.Data.Times.{found_at, from_time_t}
use cpp_chat_server.Data.RoomTable.{
  mysql_rooms, add_room, add_room_block, stored_room, read_room_time, commit_room_if, first_time,
  found_room, look_up_room, find_room_by_name,
}
use cpp_chat_server.Data.RoomTable.Rows.{RoomRow, room_time, keep, KeepsRooms}

-- The row that an INSERT makes.
abbrev row_of : Room → ℤ → Tm → RoomRow
row_of room id t = record {
  id = id;
  name = room.name;
  creator_id = room.creator_id;
  created_at = some t;
}

module _ {Db : Type 0} (driver : Driver Db) (rows : Db → List RoomRow)
    (same : String → String → Bool) (keeps : KeepsRooms driver rows same) where
  -- The room of a row.
  abbrev room_of : Room → ℤ → Tm → Room
  room_of room id t = record room { id = id; created_at = from_time_t (driver.mktime t) }

  first_time-newest :
      (found : List (List Cell)) (l : List RoomRow) (room : Room) (id : ℤ) (t : Tm)
      (rest : List RoomRow)
      → found ≡ map room_time (keep (λ r. r.id == id) l)
      → l ≡ row_of room id t ∷ rest
      → first_time driver found ≡ from_time_t (driver.mktime t)
  unfolding first_time found_at
  first_time-newest found l room id t rest f e = rw (f, e, (int_beq_iff id id).1 refl) refl

  -- The inner `try` of addRoom, on a table whose newest row is the new one.
  read-value :
      (room : Room) (id : ℤ) (t : Tm) (rest : List RoomRow) (start sc : Scope Db Room)
      → rows start.db ≡ row_of room id t ∷ rest
      → read_room_time driver id start ≡ (value true, sc)
      → (sc.db ≡ start.db)
        × (sc.object ≡ record start.object { created_at = from_time_t (driver.mktime t) })
  unfolding read_room_time
  read-value room id t rest start sc e h =
      let (found, s, l, k) = bind-value (lift (driver.select _ _)) _ start true sc h in
      let (q, o, _) = lift-value (driver.select _ _) start found s l in
      let (u, s₂, up, fin) = then-value (update _) _ s true sc k in
      let (_, same_end) = pure-value true true s₂ sc fin in
      let changed = update-value _ s u s₂ up in
      let answer = sym (keeps.selects_time id start.db) ∙ q in
      (
        ap (λ x. x.db) same_end ∙ ap (λ x. x.db) changed ∙ sym (of_db answer),
        ap (λ x. x.object) same_end
            ∙ ap (λ x. x.object) changed
            ∙ ap (λ (x : Room). record x { created_at = first_time driver found }) o
            ∙ ap (λ (x : TimePoint). record start.object { created_at = x })
                (first_time-newest found (rows start.db) room id t rest (sym (of_value answer)) e),
      )

  -- The commit behind the inner `try`.
  committed_room :
      (read : Bool) (start sc : Scope Db Room)
      → commit_room_if driver read start ≡ (value true, sc)
      → (read ≡ true)
        × (rows sc.db ≡ rows start.db)
        × (sc.object ≡ start.object)
        × (sc.committed ≡ true)
  unfolding commit_room_if pure
  committed_room true start sc h =
      let (d, o, committed) = committed-value driver start sc h in
      (refl, keeps.commits start.db sc.db d, o, committed)
  committed_room false start sc h = cc

  -- The room that an INSERT makes, in the table that a commit has kept.
  abbrev Added : Room → Scope Db Room → Type 0
  Added room sc =
      (id : ℤ) × (t : Tm) × (rest : List RoomRow) × (rows sc.db ≡ row_of room id t ∷ rest)
      × (sc.object ≡ room_of room id t)
      × (sc.committed ≡ true)

  stored-value :
      (room : Room) (id : ℤ) (t : Tm) (rest : List RoomRow) (start sc : Scope Db Room)
      → start.object ≡ room
      → rows start.db ≡ row_of room id t ∷ rest
      → stored_room driver (some id) start ≡ (value true, sc)
      → Added room sc
  unfolding stored_room
  stored-value room id t rest start sc o e h =
      let (u, s, up, k) = then-value (update _) _ start true sc h in
      let changed = update-value _ start u s up in
      let table = ap (λ x. rows x.db) changed ∙ e in
      let (read, s₂, tried, fin) = bind-value _ (commit_room_if driver) s true sc k in
      let (is_read, kept, same_object, committed) = committed_room read s₂ sc fin in
      let (same_table, object) =
        read-value room id t rest s s₂ table (
          try_or-value (read_room_time driver id) s s₂ (tried ∙ ap (λ a. (value a, s₂)) is_read)) in
      (
        id,
        t,
        rest,
        kept ∙ ap rows same_table ∙ table,
        same_object
            ∙ object
            ∙ ap (λ (x : Room). record x { created_at = from_time_t (driver.mktime t) })
                (ap (λ x. x.object) changed)
            ∙ ap (λ (x : Room). record x { id = id; created_at = from_time_t (driver.mktime t) }) o,
        committed,
      )

  add_room_block-Added :
      (room : Room) (start sc : Scope Db Room)
      → start.object ≡ room
      → add_room_block driver room start ≡ (value true, sc)
      → Added room sc
  unfolding add_room_block
  add_room_block-Added room start sc o h =
      let (n, s, l, k) = then-value (lift (driver.change _ _)) _ start true sc h in
      let (change, o₁, _) = lift-value (driver.change _ _) start n s l in
      let (_, (id, t, table, last)) =
        keeps.inserts room.name room.creator_id n start.db s.db change in
      let (new_id, s₂, l₂, fin) =
        bind-value (lift (driver.last_insert_id "rooms")) (stored_room driver) s true sc k in
      let (q, o₂, _) = lift-value (driver.last_insert_id "rooms") s new_id s₂ l₂ in
      let answer = sym last ∙ q in
      stored-value room id t (rows start.db) s₂ sc (o₂ ∙ o₁ ∙ o)
        (ap rows (sym (of_db answer)) ∙ table)
        (ap (λ i. stored_room driver i s₂) (of_value answer) ∙ fin)

  -- A look-up finds the newest row by its name.
  find-newest :
      (room : Room) (id : ℤ) (t : Tm) (rest : List RoomRow) (b : Backend Db)
      → rows b.db ≡ row_of room id t ∷ rest
      → (b' : Backend Db) × (find_room_by_name driver room.name b
          ≡ (some (some (room_of room id t)), b'))
  unfolding find_room_by_name look_up_room ◌>>=◌ ◌>>◌ lift pure recover pair_with give_back close
      found_room found_at
  find-newest room id t rest b e =
      let (begun, began, r) = keeps.begins b.db in
      (
        record {
          db = driver.rollback begun begun;
          returned = suc b.returned;
          replenished = b.replenished;
        },
        rw (began, keeps.selects_by_name room.name begun, r, e, keeps.same_self room.name) refl,
      )

  added :
      (room room' : Room) (b b' : Backend Db)
      → add_room driver room b ≡ (some (true, room'), b')
      → (b'' : Backend Db) × (find_room_by_name driver room.name b' ≡ (some (some room'), b''))
  unfolding add_room
  added room room' b b' h =
      let (sc, e, o, d) =
        with_connection-value room room' (transaction driver (add_room_block driver room)) b b' h in
      let (begun, s, _, body, k) = transaction-value driver (add_room_block driver room) _ sc e in
      let (id, t, rest, table, object, committed) = add_room_block-Added room _ s refl body in
      let same_scope = kept-scope driver begun s sc committed k in
      let (b'', f) =
        find-newest room id t rest b' (ap rows (d ∙ ap (λ x. x.db) same_scope) ∙ table) in
      let room'_is : room' ≡ room_of room id t = sym o ∙ ap (λ x. x.object) same_scope ∙ object in
      (b'', f ∙ ap (λ x. (some (some x), b'')) (sym room'_is))

  -- Over a database that keeps the table of rooms, whose look-ups do not fail, and whose INSERT
  -- throws where a name is taken, the MySQL room repository is what the room service relies on: a
  -- room that addRoom answered true for is found under its name as addRoom left it, with the new
  -- id and time.
  pub mysql_rooms-StoresRooms : StoresRooms (mysql_rooms driver)
  unfolding mysql_rooms
  mysql_rooms-StoresRooms = record { added = added }
