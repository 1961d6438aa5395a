-- ===== src/Tests/Data.antt =====
-- Users, groups, requests and a database for the runs.
use mobile_chatting_app.Common.{ℕ, suc, true, false, [], ◌∷◌, none, some}
use mobile_chatting_app.Common.Bytes.{codes}
use mobile_chatting_app.Server.Data.{User, Group, ServerState, PendingMsg}
use mobile_chatting_app.Server.Database.{Database}
use mobile_chatting_app.Server.World.{World, Context}

-- A database that counts the messages it saves and knows no rows.
abbrev pub counter : Database ℕ
counter = record {
  create_user = λ name password phone d. (some 7, d);
  update_user_online_status = λ uid online d. (true, d);
  send_friend_request = λ a b d. (true, d);
  accept_friend_request = λ a b d. (true, d);
  decline_friend_request = λ a b d. (true, d);
  get_pending_requests = λ a d. ([], d);
  has_pending_request = λ a b d. (false, d);
  save_message = λ a b text ts d. (true, suc d);
  get_conversation = λ a b limit d. ([], d);
  delete_conversation = λ a b d. (true, d);
  create_group = λ name owner d. (some 5, d);
  add_group_member = λ g u d. (true, d);
  set_group_nickname = λ g u nick d. (true, d);
  get_group_member_nicknames = λ g d. ([], d);
  remove_group_member = λ g u d. (true, d);
  set_group_admin = λ g u admin d. (true, d);
  is_group_admin = λ g u d. (true, d);
  get_user_groups = λ u d. ([], d);
  get_group_members = λ g d. ([], d);
  get_pending_group_invites = λ u d. ([], d);
  delete_group_invite = λ g u d. (true, d);
  is_group_member = λ g u d. (true, d);
  rename_group = λ g name d. (true, d);
  save_group_message = λ g u text ts d. (true, suc d);
  get_group_messages = λ g limit d. ([], d);
}

abbrev pub ann : User
ann = record {
  id = 1;
  username = codes "ann";
  password_hash = codes "a";
  phone = codes "1";
  socket_fd = 4;
  is_online = true;
  last_seen = 0;
}

abbrev pub bob : User
bob = record {
  id = 2;
  username = codes "bob";
  password_hash = codes "b";
  phone = codes "2";
  socket_fd = 5;
  is_online = false;
  last_seen = 0;
}

-- A group of the users 1, 2 and 3 with the administrator 1.
abbrev pub trio : Group
trio = record {
  id = 9;
  name = codes "trio";
  owner_id = 1;
  members = (1, true) ∷ (2, true) ∷ (3, true) ∷ [];
  admins = (1, true) ∷ [];
  member_nicknames = [];
}

abbrev pub waiting : PendingMsg
waiting = record { type = 20; payload = codes "message=hi"; from_user_id = 1 }

-- `ann` is online and `bob` is not; one message waits for `bob`.
abbrev pub globals : ServerState
globals = record {
  users_by_name = (codes "ann", ann) ∷ (codes "bob", bob) ∷ [];
  users_by_id = (1, ann) ∷ (2, bob) ∷ [];
  next_user_id = 3;
  friends = (1, (2, true) ∷ []) ∷ (2, (1, true) ∷ []) ∷ [];
  friend_requests = [];
  online_clients = (1, 4) ∷ [];
  groups = (9, trio) ∷ [];
  next_group_id = 10;
  offline_messages = (2, waiting ∷ []) ∷ [];
}

abbrev pub in_memory : World ℕ
in_memory = record {
  state = globals;
  db = none;
  users_file = none;
  file_opens = true;
  sent = [];
  activities = [];
}

abbrev pub with_db : World ℕ
with_db = record {
  state = globals;
  db = some 0;
  users_file = none;
  file_opens = true;
  sent = [];
  activities = [];
}

-- A request of `ann`, and one of a connection that is not logged in.
abbrev pub by_ann : Context
by_ann = record { fd = 4; current_user_id = 1; requester_id = 1; seconds = 100; millis = 100500 }

abbrev pub by_nobody : Context
by_nobody = record { fd = 6; current_user_id = 0; requester_id = 0; seconds = 100; millis = 100500 }
