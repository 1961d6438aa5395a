-- ===== src/Server/Handlers/Groups/Create.antt =====
-- CREATE_GROUP and GROUP_MESSAGE (server-cpp/src/message_handler.cpp).
use mobile_chatting_app.Common.{
  ℕ, ◌+◌, Bool, true, List, [], ◌∷◌, ◌++◌, ◌==◌, if◌then◌else◌, Option, none, some, nat_eq, Map,
  insert, has, map, length,
}
use mobile_chatting_app.Common.Bytes.{Bytes, codes, bytes_eq, is_empty}
use mobile_chatting_app.Common.Decimal.{to_string, to_string_int}
use mobile_chatting_app.Codec.Kv.{parse_kv, serialize_kv, get_lines}
use mobile_chatting_app.Server.Protocol.{success, error, group_message}
use mobile_chatting_app.Server.Data.{Group, ServerState, minus_one}
use mobile_chatting_app.Server.Database.{Database}
use mobile_chatting_app.Server.World.{
  M, case_option, pure, ◌>>=◌, ◌>>◌, get, modify, exec, has_db, call, log_activity, field, to_int,
  Context,
}
use mobile_chatting_app.Server.Delivery.{broadcast}
use mobile_chatting_app.Server.Handlers.Names.{session_name, is_friend, int_suc}
use mobile_chatting_app.Server.Handlers.Groups.{
  is_member, members_of, group_payload, reply, announce,
}

-- `m[id] = true` for each id.
abbrev pub insert_members : List ℕ → Map ℕ Bool → Map ℕ Bool
insert_members [] m = m
insert_members (i ∷ is) m = insert_members is (insert i true m)

-- The ids that are friends of the user.
abbrev pub only_friends : ℕ → List ℕ → ServerState → List ℕ
only_friends me [] s = []
only_friends me (i ∷ is) s =
    let rest = only_friends me is s in if is_friend me i s then i ∷ rest else rest

-- The group that CREATE_GROUP keeps in memory.
unfoldable pub new_group : ℕ → Bytes → ℕ → List ℕ → Group
new_group gid name owner ids = record {
  id = gid;
  name = name;
  owner_id = owner;
  members = insert_members ids (insert owner true []);
  admins = insert owner true [];
  member_nicknames = [];
}

unfoldable pub put_group : Group → ServerState → ServerState
put_group g s = record s { groups = insert g.id g s.groups }

-- `gid = g_next_group_id++;`
unfoldable pub take_group_id : ServerState → ServerState
take_group_id s = record s { next_group_id = int_suc s.next_group_id }

-- Numbers with `,` between them.
unfoldable pub csv : List ℕ → Bytes
csv [] = []
csv (i ∷ is) =
    let rest = csv is in elim is [ [] ↦ to_string_int i | _ ∷ _ ↦ to_string_int i ++ (b',' ∷ rest) ]

unfoldable pub all_but : ℕ → List ℕ → List ℕ
all_but me [] = []
all_but me (i ∷ is) = let rest = all_but me is in if i == me then rest else i ∷ rest

module _ {D : Type 0} (db : Database D) (c : Context) where
  open c use {fd, current_user_id, seconds, millis}

  -- The ids of the tokens that are not empty.
  unfoldable pub parse_ids : List Bytes → M D (List ℕ)
  parse_ids [] = pure []
  parse_ids (t ∷ ts) =
      let rest = parse_ids ts in
      if is_empty t then rest else (do i ← to_int t; is ← rest; pure (i ∷ is))

  unfoldable pub add_members : ℕ → List ℕ → M D (Unit {0})
  add_members gid [] = pure tt
  add_members gid (i ∷ is) = do _ ← call (db.add_group_member gid i); add_members gid is

  -- A group with a new id, or `none` where the database makes none.
  unfoldable pub make_group : Bytes → List ℕ → M D (Option ℕ)
  make_group name ids = do
    persistent ← has_db
    if persistent
        then (do
          made ← call (db.create_group name current_user_id)
          case_option made (pure none) (λ gid. do
            _ ← call (db.set_group_admin gid current_user_id true)
            add_members gid ids
            pure (some gid)))
        else (do
          s ← get
          let gid = s.next_group_id
          modify take_group_id
          modify (put_group (new_group gid name current_user_id ids))
          pure (some gid))

  unfoldable pub handle_create_group : Bytes → M D ℕ
  handle_create_group payload =
      let kv = parse_kv payload in
      let name =
        if has (codes "name") kv
        then field (codes "name") kv
        else codes "group_" ++ to_string seconds in
      do
        ids ← parse_ids (get_lines b',' (field (codes "members") kv))
        made ← make_group name ids
        case_option made (reply db c error (codes "Failed to create group")) (λ gid.
            if gid == minus_one then reply db c error (codes "Failed to create group") else (do
              persistent ← has_db
              s ← get
              let kept = if persistent then only_friends current_user_id ids s else ids
              modify (put_group (new_group gid name current_user_id kept))
              log_activity (codes "CREATE_GROUP") current_user_id (
                  codes "groupId="
                  ++ (to_string_int gid
                      ++ (codes " name="
                          ++ (name ++ (codes " members=" ++ to_string (length ids + 1))))))
              _ ← reply db c success (
                  serialize_kv (
                    (codes "groupId", to_string_int gid)
                    ∷ (codes "name", name)
                    ∷ (codes "memberCount", to_string (length ids + 1))
                    ∷ (codes "members", csv (current_user_id ∷ ids))
                    ∷ []))
              _ ← announce db c gid (session_name current_user_id s ++ codes " created the group")
              pure current_user_id))

  -- The members other than the sender, or `none` where the sender is no member.
  unfoldable pub recipients : ℕ → M D (Option (List ℕ))
  unfolding all_but
  recipients gid = do
    persistent ← has_db
    if persistent
        then (do
          member ← call (db.is_group_member gid current_user_id)
          if member
              then (do
                users ← call (db.get_group_members gid)
                pure (some (all_but current_user_id (map (λ u. u.id) users))))
              else pure none)
        else (do
          s ← get
          pure (
              if is_member gid current_user_id s
              then some (all_but current_user_id (members_of gid s))
              else none))

  unfoldable pub handle_group_message : Bytes → M D ℕ
  handle_group_message payload =
      let kv = parse_kv payload in
      let message = field (codes "message") kv in
      do
        gid ← to_int (field (codes "groupId") kv)
        found ← recipients gid
        case_option found (reply db c error (codes "Not in group")) (λ members. do
          persistent ← has_db
          if persistent
              then (do _ ← call (db.save_group_message gid current_user_id message millis); pure tt)
              else pure tt
          exec (
              broadcast members group_message (group_payload gid current_user_id message millis)
                current_user_id)
          log_activity (codes "GROUP_MESSAGE") current_user_id
              (codes "groupId=" ++ to_string_int gid)
          reply db c success (codes "Group message sent"))
