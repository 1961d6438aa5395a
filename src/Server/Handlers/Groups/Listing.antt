-- ===== src/Server/Handlers/Groups/Listing.antt =====
-- GET_USER_GROUPS (server-cpp/src/message_handler.cpp).
use mobile_chatting_app.Common.{
  ℕ, ◌+◌, List, [], ◌∷◌, ◌++◌, ◌==◌, if◌then◌else◌, nat_eq, Map, has, find_or, keys, map, length,
}
use mobile_chatting_app.Common.Bytes.{Bytes, codes, bytes_eq, is_empty}
use mobile_chatting_app.Common.Decimal.{to_string, to_string_int}
use mobile_chatting_app.Codec.Kv.{serialize_kv}
use mobile_chatting_app.Server.Protocol.{success}
use mobile_chatting_app.Server.Data.{Group, ServerState}
use mobile_chatting_app.Server.Database.{Database}
use mobile_chatting_app.Server.World.{M, pure, ◌>>=◌, get, has_db, call, Context}
use mobile_chatting_app.Server.Handlers.Names.{username_or, int_suc}
use mobile_chatting_app.Server.Handlers.Lookup.{Items, numbered, flag}
use mobile_chatting_app.Server.Handlers.Groups.{reply}
use mobile_chatting_app.Codec.Base64.{base64_encode}

-- `if (!csv.empty()) csv += ","; csv += token;`
abbrev pub append_token : Bytes → Bytes → Bytes
append_token acc token = if is_empty acc then token else acc ++ (b',' ∷ token)

-- The nickname of a member as the answer carries it.
unfoldable pub encoded_nick : ℕ → Map ℕ Bytes → Bytes
encoded_nick uid nicks =
    let nick = find_or [] uid nicks in if is_empty nick then [] else base64_encode nick

-- `memberNicksCsv`, grown from `acc`.
unfoldable pub nicks_csv : List ℕ → Map ℕ Bytes → Bytes → Bytes
unfolding encoded_nick
nicks_csv [] nicks acc = acc
nicks_csv (i ∷ is) nicks acc = nicks_csv is nicks (append_token acc (encoded_nick i nicks))

-- `memberNamesCsv`, and the same loop for other tokens.
unfoldable pub tokens_csv : List Bytes → Bytes → Bytes
tokens_csv [] acc = acc
tokens_csv (t ∷ ts) acc = tokens_csv ts (append_token acc t)

-- `membersCsv`: a comma behind each id but the last.
unfoldable pub ids_csv : List ℕ → Bytes
ids_csv [] = []
ids_csv (i ∷ is) =
    let rest = ids_csv is in
    elim is [ [] ↦ to_string_int i | _ ∷ _ ↦ to_string_int i ++ (b',' ∷ rest) ]

-- `std::count(csv.begin(), csv.end(), ',') + 1`
abbrev pub count_commas : Bytes → ℕ
count_commas [] = 0
count_commas (c ∷ s) = let rest = count_commas s in if c == b',' then rest + 1 else rest

-- The four lists of a group.
pub record Rows : Type 0 where
  pub ids : Bytes
  pub nicks : Bytes
  pub names : Bytes
  pub admins : Bytes

unfoldable pub group_rows : ℕ → Group → Rows → Items
group_rows i g r =
    (numbered (codes "groupId") i, to_string_int g.id)
    ∷ (numbered (codes "name") i, g.name)
    ∷ (numbered (codes "memberCount") i, to_string_int (int_suc (count_commas r.ids)))
    ∷ (numbered (codes "members") i, r.ids)
    ∷ (numbered (codes "memberNicks") i, r.nicks)
    ∷ (numbered (codes "memberNames") i, r.names)
    ∷ (numbered (codes "memberAdmins") i, r.admins)
    ∷ []

-- The groups in memory that have the user as a member.
abbrev pub groups_of : ℕ → Map ℕ Group → List Group
groups_of uid [] = []
groups_of uid ((i, g) ∷ m) =
    let rest = groups_of uid m in if has uid g.members then g ∷ rest else rest

-- The rows of a group where there is no database.
unfoldable pub memory_rows : Group → ServerState → Rows
memory_rows g s =
    let ids = keys g.members in
    record {
      ids = ids_csv ids;
      nicks = [];
      names = tokens_csv (map (λ i. username_or (codes "User " ++ to_string_int i) i s) ids) [];
      admins = [];
    }

unfoldable pub memory_items : List Group → ℕ → ServerState → Items
unfolding memory_rows group_rows
memory_items [] i s = []
memory_items (g ∷ gs) i s = group_rows i g (memory_rows g s) ++ memory_items gs (i + 1) s

module _ {D : Type 0} (db : Database D) (c : Context) where
  open c use {current_user_id, requester_id}

  -- `is_group_admin` of each member.
  unfoldable pub admin_flags : ℕ → List ℕ → M D (List Bytes)
  admin_flags gid [] = pure []
  admin_flags gid (i ∷ is) = do
    b ← call (db.is_group_admin gid i)
    rest ← admin_flags gid is
    pure (flag b ∷ rest)

  unfoldable pub stored_rows : Group → M D Rows
  stored_rows g = do
    users ← call (db.get_group_members g.id)
    nicks ← call (db.get_group_member_nicknames g.id)
    let ids = map (λ u. u.id) users
    flags ← admin_flags g.id ids
    pure (record {
      ids = ids_csv ids;
      nicks = nicks_csv ids nicks [];
      names = tokens_csv (map (λ u. u.username) users) [];
      admins = tokens_csv flags [];
    })

  unfoldable pub stored_items : List Group → ℕ → M D Items
  stored_items [] i = pure []
  stored_items (g ∷ gs) i = do
    r ← stored_rows g
    rest ← stored_items gs (i + 1)
    pure (group_rows i g r ++ rest)

  unfoldable pub handle_get_user_groups : M D ℕ
  handle_get_user_groups = do
    persistent ← has_db
    s ← get
    items ←
        if persistent
        then (do
          gs ← call (db.get_user_groups requester_id)
          rows ← stored_items gs 0
          pure ((codes "count", to_string (length gs)) ∷ rows))
        else (do
          let gs = groups_of requester_id s.groups
          pure ((codes "count", to_string (length gs)) ∷ memory_items gs 0 s))
    reply db c success (serialize_kv items)
