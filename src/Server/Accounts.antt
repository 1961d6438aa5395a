-- ===== src/Server/Accounts.antt =====
-- What REGISTER leaves, and LOGIN after it (server-cpp/src/message_handler.cpp).
pub mod Lasting
use mobile_chatting_app.Common.{
  ℕ, ◌≡◌, refl, ◌∙◌, true, false, ◌||◌, ◌==◌, ==_refl, if◌then◌else◌, Map, has, lookup, nat_eq,
  lookup-insert, none, some,
}
use mobile_chatting_app.Common.Bytes.{Bytes, codes, bytes_beq, bytes_beq_iff, bytes_eq, is_empty}
use mobile_chatting_app.Codec.Kv.{parse_kv}
use mobile_chatting_app.Server.Data.{User, ServerState}
use mobile_chatting_app.Server.Database.{Database}
use mobile_chatting_app.Server.World.{World, Context, field, monad}
use mobile_chatting_app.Server.Messaging.{Returns, Returns-map}
use mobile_chatting_app.Server.Messaging.Login.{LoggedIn, login-LoggedIn}
use mobile_chatting_app.Server.Handlers.Account.{
  handle_register, handle_login, add_user, take_user_id, save_users, user_lines,
}

-- The account that a REGISTER with these fields makes.
abbrev pub new_user : ℕ → Map Bytes Bytes → ℕ → User
new_user uid kv fd = record {
  id = uid;
  username = field (codes "username") kv;
  password_hash = field (codes "password") kv;
  phone = field (codes "phone") kv;
  socket_fd = fd;
  is_online = true;
  last_seen = 0;
}

-- The tables hold the account, with its id and its name, and the others as in `s`.
abbrev pub HasAccount : User → ServerState → ServerState → Type 0
HasAccount u s t =
    ((name : Bytes)
      → lookup name t.users_by_name
        ≡ (if bytes_beq u.username name then some u else lookup name s.users_by_name))
    × ((i : ℕ) → lookup i t.users_by_id ≡ (if u.id == i then some u else lookup i s.users_by_id))
    × (lookup u.id t.online_clients ≡ some u.socket_fd)

-- A REGISTER that names a user and a password, for a name that is free.
abbrev pub IsNew : Map Bytes Bytes → ServerState → Type 0
IsNew kv s =
    ((is_empty (field (codes "username") kv) || is_empty (field (codes "password") kv)) ≡ false)
    × (has (field (codes "username") kv) s.users_by_name ≡ false)

module _ {D : Type 0} (db : Database D) (c : Context) where
  -- Without a database, REGISTER with a free name always succeeds: the tables gain the account, whose
  -- id is `g_next_user_id`, under its name and its id, and change nowhere else; the user is online;
  -- but the file of users, if it can be opened, is written from the table as it was, without the new
  -- account, and else stays as it is.
  pub register-HasAccount :
      (payload : Bytes) (w : World D)
      → IsNew (parse_kv payload) w.state
      → w.db ≡ none
      → Returns (handle_register db c payload w) (λ uid w'.
        (uid ≡ w.state.next_user_id)
        × HasAccount (new_user uid (parse_kv payload) c.fd) w.state w'.state
        × (w'.users_file
            ≡ (if w.file_opens then some (user_lines w.state.users_by_name) else w.users_file)))
  unfolding handle_register monad add_user take_user_id save_users
  register-HasAccount payload w (full, free) z =
      rw (Returns, full, free, z)
        (
          refl,
          (
            λ name.
                lookup-insert (field (codes "username") (parse_kv payload)) name
                  (new_user w.state.next_user_id (parse_kv payload) c.fd) w.state.users_by_name,
            λ i.
                lookup-insert w.state.next_user_id i
                  (new_user w.state.next_user_id (parse_kv payload) c.fd) w.state.users_by_id,
            lookup-insert w.state.next_user_id w.state.next_user_id c.fd w.state.online_clients
                ∙ rw (==_refl w.state.next_user_id) refl,
          ),
          refl,
        )

module _ {D : Type 0} (db : Database D) (c d : Context) where
  -- Without a database, after a REGISTER with a free name, a LOGIN from any connection with the same
  -- name and password succeeds and logs in the new user.
  pub register-login :
      (payload again : Bytes) (w : World D)
      → IsNew (parse_kv payload) w.state
      → w.db ≡ none
      → field (codes "username") (parse_kv again) ≡ field (codes "username") (parse_kv payload)
      → field (codes "password") (parse_kv again) ≡ field (codes "password") (parse_kv payload)
      → Returns
          (handle_register db c payload w)
          (λ uid w1. Returns (handle_login db d again w1) (LoggedIn uid d.fd w1.state))
  register-login payload again w new z same_name same_password =
      let name = field (codes "username") (parse_kv payload) in
      let password = field (codes "password") (parse_kv payload) in
      Returns-map
        {P = λ uid w'.
          (uid ≡ w.state.next_user_id)
          × HasAccount (new_user uid (parse_kv payload) c.fd) w.state w'.state
          × (w'.users_file
              ≡ (if w.file_opens then some (user_lines w.state.users_by_name) else w.users_file))}
        (handle_register db c payload w)
        (λ uid w1 h.
          login-LoggedIn db d again (new_user uid (parse_kv payload) c.fd) w1
            (rw (same_name) (h.1.0 name ∙ rw ((bytes_beq_iff name name).1 refl) refl))
            (rw (same_password) ((bytes_beq_iff password password).1 refl)))
        (register-HasAccount db c payload w new z)
