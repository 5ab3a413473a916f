-- ===== src/Groups.antt =====
-- Chihiro/src/Groups/GroupManager.h and GroupManager.cpp. A `Player *` is a number and `player_at` what lies
-- behind it. The name of a player is the list of its bytes, `toupper` of a byte is an argument, and so is the random
-- password. Messages and the database are left out, and the methods that only read a field of a party or
-- hold no code. Party numbers stay below 2 ^ 31, and are whole numbers here.
pub mod Sound
pub mod Members
pub mod Levels
pub mod Tests
use rzemulator.Base.{
  ℕ, ◌+◌, ◌<◌, Bool, true, false, not, ◌&&◌, ◌||◌, Option, none, some, List, [], ◌∷◌, ◌++◌, length,
  ◌==◌, leb, if◌then◌else◌, map,
}
use rzemulator.Base.Assoc.{nat_eq, string_eq, lookup, insert, erase}
use rzemulator.Base.Int.{ℤ, pos, negsuc, ltb_ℤ}
use text.Mathlib.Text.{◌==◌ as str_eq}
use Prim.Native.String.{String}

pub data PartyType : Type 0 where
  type_unknown type_normal_party type_raid_attackteam type_siege_attackteam : PartyType

pub data ItemShareMode : Type 0 where
  item_share_monopoly item_share_random item_share_linear : ItemShareMode

pub record PartyMemberTag : Type 0 where
  pub is_online : Bool
  pub sid : ℕ
  pub name : List ℕ
  pub player : Option ℕ
  pub level : ℤ
  pub job_id : ℤ

pub record PartyInfo : Type 0 where
  pub party_password : ℕ
  pub party_id : ℕ
  pub leader_sid : ℕ
  pub share_mode : ItemShareMode
  pub party_type : PartyType
  pub party_name : String
  pub leader_name : List ℕ
  pub leader_job_id : ℤ
  pub members : List PartyMemberTag

-- What the manager reads and writes of a `Player`.
pub record PartyPlayer : Type 0 where
  pub name : List ℕ
  pub uid : ℕ
  pub level : ℤ
  pub current_job : ℤ
  pub party_id : ℕ

-- `m_nMaxPartyID` and `m_hshPartyID`, with the players of the process.
pub record GroupManager : Type 0 where
  pub max_party_id : ℕ
  pub parties : List (ℕ × PartyInfo)
  pub player_at : ℕ → PartyPlayer

abbrev pub set_party : (ℕ → PartyPlayer) → ℕ → ℕ → ℕ → PartyPlayer
set_party m p id q = if p == q then record (m p) { party_id = id } else m q

-- `getPartyInfo` and `getPartyInfoNC`.
pub get_party_info : GroupManager → ℕ → Option PartyInfo
get_party_info g id = lookup id g.parties

pub get_member_count : GroupManager → ℕ → ℕ
unfolding get_party_info
get_member_count g id = elim (get_party_info g id) [ none ↦ 0 | some i ↦ length i.members ]

pub same_bytes : List ℕ → List ℕ → Bool
same_bytes [] [] = true
same_bytes [] (y ∷ b) = false
same_bytes (x ∷ a) [] = false
same_bytes (x ∷ a) (y ∷ b) = x == y && same_bytes a b

pub is_leader : GroupManager → ℕ → List ℕ → Bool
unfolding get_party_info same_bytes
is_leader g id name = elim (get_party_info g id) [
  | none ↦ false
  | some i ↦ same_bytes i.leader_name name
]

-- The tag that `JoinParty` fills in.
abbrev pub new_tag : PartyPlayer → ℕ → PartyMemberTag
new_tag me p = record {
  is_online = true;
  sid = me.uid;
  name = me.name;
  player = some p;
  level = me.level;
  job_id = me.current_job;
}

abbrev pub with_members : PartyInfo → List PartyMemberTag → PartyInfo
with_members i ms = record i { members = ms }

abbrev pub put_info : GroupManager → ℕ → PartyInfo → GroupManager
put_info g id i = record g { parties = insert id i g.parties }

-- `JoinParty`.
pub join_party : GroupManager → ℕ → ℕ → ℕ → GroupManager × Bool
unfolding get_party_info
join_party g id p pass = elim (get_party_info g id) [
  | none ↦ (g, false)
  | some i ↦ if leb 8 (length i.members) || not (pass == i.party_password) then (g, false) else (
    record (put_info g id (with_members i (i.members ++ new_tag (g.player_at p) p ∷ []))) {
      player_at = set_party g.player_at p id;
    },
    true,
  )
]

pub has_name : List (ℕ × PartyInfo) → String → Bool
has_name [] name = false
has_name ((k, i) ∷ ps) name = str_eq i.party_name name || has_name ps name

abbrev pub new_party : PartyPlayer → ℕ → String → PartyType → ℕ → PartyInfo
new_party me id name t password = record {
  party_password = password;
  party_id = id;
  leader_sid = me.uid;
  share_mode = ItemShareMode.item_share_random;
  party_type = t;
  party_name = name;
  leader_name = me.name;
  leader_job_id = me.current_job;
  members = [];
}

-- `CreateParty`: -1, or the number of the new party.
pub create_party : GroupManager → ℕ → String → PartyType → ℕ → GroupManager × ℤ
unfolding has_name join_party
create_party g p name t password =
    if has_name g.parties name
    then (g, negsuc 0)
    else (let id = g.max_party_id + 1 in
        let made = record (put_info g id (new_party (g.player_at p) id name t password)) {
          max_party_id = id;
        } in
        ((join_party made id p password).0, pos id))

-- `iequals` of shared/Utilities/Util.h: `std::equal` runs to the end of the first string only. Behind the
-- second string it meets the terminator, which no character of a name equals.
pub iequals : (ℕ → ℕ) → List ℕ → List ℕ → Bool
iequals to_upper [] b = true
iequals to_upper (x ∷ a) [] = false
iequals to_upper (x ∷ a) (y ∷ b) = to_upper x == to_upper y && iequals to_upper a b

-- `LeaveParty` drops the first member of that name.
pub drop_member : (ℕ → ℕ) → List ℕ → List PartyMemberTag → List PartyMemberTag
unfolding iequals
drop_member to_upper name [] = []
drop_member to_upper name (t ∷ ts) =
    if iequals to_upper name t.name then ts else t ∷ drop_member to_upper name ts

pub leave_party : (ℕ → ℕ) → GroupManager → ℕ → List ℕ → GroupManager × Bool
unfolding get_party_info drop_member iequals
leave_party to_upper g id name = elim (get_party_info g id) [
  | none ↦ (g, false)
  | some i ↦
      if iequals to_upper i.leader_name name
      then (g, false)
      else (put_info g id (with_members i (drop_member to_upper name i.members)), true)
]

-- `DestroyParty`: the members that are online lose the number of the party.
pub clear_online : (ℕ → PartyPlayer) → List PartyMemberTag → ℕ → PartyPlayer
clear_online m [] = m
clear_online m (t ∷ ts) = elim t.player [
  | none ↦ clear_online m ts
  | some p ↦ clear_online (if t.is_online then set_party m p 0 else m) ts
]

pub members_of : GroupManager → ℕ → List PartyMemberTag
unfolding get_party_info
members_of g id = elim (get_party_info g id) [ none ↦ [] | some i ↦ i.members ]

pub destroy_party : GroupManager → ℕ → GroupManager
unfolding clear_online members_of
destroy_party g id = record g {
  parties = erase id g.parties;
  player_at = clear_online g.player_at (members_of g id);
}

-- The loops of `onLogin` and `onLogout`.
abbrev pub tag_login : (ℕ → ℕ) → PartyPlayer → ℕ → PartyMemberTag → PartyMemberTag
tag_login to_upper me p t =
    if iequals to_upper t.name me.name
    then record t { is_online = true; player = some p; level = me.level; job_id = me.current_job }
    else t

abbrev pub tag_logout : (ℕ → ℕ) → PartyPlayer → PartyMemberTag → PartyMemberTag
tag_logout to_upper me t =
    if iequals to_upper t.name me.name then record t { is_online = false; player = none } else t

pub is_member : (ℕ → ℕ) → List ℕ → List PartyMemberTag → Bool
unfolding iequals
is_member to_upper name [] = false
is_member to_upper name (t ∷ ts) = iequals to_upper t.name name || is_member to_upper name ts

pub on_login : (ℕ → ℕ) → GroupManager → ℕ → ℕ → GroupManager × Bool
unfolding get_party_info is_member iequals
on_login to_upper g id p = elim (get_party_info g id) [
  | none ↦ (g, false)
  | some i ↦
      let me = g.player_at p in
      (
        put_info g id (with_members i (map (tag_login to_upper me p) i.members)),
        is_member to_upper me.name i.members,
      )
]

pub on_logout : (ℕ → ℕ) → GroupManager → ℕ → ℕ → GroupManager × Bool
unfolding get_party_info is_member iequals
on_logout to_upper g id p = elim (get_party_info g id) [
  | none ↦ (g, false)
  | some i ↦
      let me = g.player_at p in
      (
        put_info g id (with_members i (map (tag_logout to_upper me) i.members)),
        is_member to_upper me.name i.members,
      )
]

-- `GetMinLevel` and `GetMaxLevel`.
pub min_level : List PartyMemberTag → ℤ → ℤ
min_level [] m = m
min_level (t ∷ ts) m = min_level ts (if ltb_ℤ t.level m then t.level else m)

pub max_level : List PartyMemberTag → ℤ → ℤ
max_level [] m = m
max_level (t ∷ ts) m = max_level ts (if ltb_ℤ m t.level then t.level else m)

pub get_min_level : GroupManager → ℕ → ℤ
unfolding min_level members_of
get_min_level g id = min_level (members_of g id) (pos 255)

pub get_max_level : GroupManager → ℕ → ℤ
unfolding max_level members_of
get_max_level g id = max_level (members_of g id) (pos 0)
