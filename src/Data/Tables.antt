-- ===== src/Data/Tables.antt =====
-- The constructor of server/src/core/Server.cpp: the repositories that the services get.
use cpp_chat_server.Repository.{Repositories}
use cpp_chat_server.Data.Driver.{Driver, Backend}
use cpp_chat_server.Data.UserTable.{mysql_users}
use cpp_chat_server.Data.RoomTable.{mysql_rooms}
use cpp_chat_server.Data.MessageTable.{mysql_messages}

-- The repositories that the constructor of Server makes.
abbrev pub mysql_repositories : {Db : Type 0} → Driver Db → Repositories (Backend Db)
mysql_repositories driver = record {
  users = mysql_users driver;
  rooms = mysql_rooms driver;
  messages = mysql_messages driver;
}
