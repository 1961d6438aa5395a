-- ===== src/Server/Protocol.antt =====
-- server-cpp/include/protocol.h: the types of messages that the server tells apart.
use mobile_chatting_app.Common.{ℕ}

abbrev pub magic : ℕ
magic = 0x43484154

abbrev pub version : ℕ
version = 1

abbrev pub header_size : ℕ
header_size = 32

abbrev pub register : ℕ
register = 0x01

abbrev pub login : ℕ
login = 0x02

abbrev pub logout : ℕ
logout = 0x03

abbrev pub search_user : ℕ
search_user = 0x04

abbrev pub get_all_users : ℕ
get_all_users = 0x05

abbrev pub friend_request : ℕ
friend_request = 0x10

abbrev pub friend_accept : ℕ
friend_accept = 0x11

abbrev pub friend_decline : ℕ
friend_decline = 0x12

abbrev pub unfriend : ℕ
unfriend = 0x13

abbrev pub get_friends_list : ℕ
get_friends_list = 0x14

abbrev pub direct_message : ℕ
direct_message = 0x20

abbrev pub get_conversation_history : ℕ
get_conversation_history = 0x23

abbrev pub get_group_history : ℕ
get_group_history = 0x35

abbrev pub get_user_groups : ℕ
get_user_groups = 0x36

abbrev pub rename_group : ℕ
rename_group = 0x38

abbrev pub set_group_nickname : ℕ
set_group_nickname = 0x39

abbrev pub delete_conversation : ℕ
delete_conversation = 0x24

abbrev pub create_group : ℕ
create_group = 0x30

abbrev pub invite_to_group : ℕ
invite_to_group = 0x31

abbrev pub accept_group_invite : ℕ
accept_group_invite = 0x3a

abbrev pub decline_group_invite : ℕ
decline_group_invite = 0x3b

abbrev pub make_admin : ℕ
make_admin = 0x3c

abbrev pub remove_from_group : ℕ
remove_from_group = 0x32

abbrev pub leave_group : ℕ
leave_group = 0x33

abbrev pub group_message : ℕ
group_message = 0x34

abbrev pub user_online : ℕ
user_online = 0x40

abbrev pub user_offline : ℕ
user_offline = 0x41

abbrev pub success : ℕ
success = 0xf0

abbrev pub error : ℕ
error = 0xf1

abbrev pub heartbeat : ℕ
heartbeat = 0xff
