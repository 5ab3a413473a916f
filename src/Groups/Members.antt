-- ===== src/Groups/Members.antt =====
-- Creating, joining and leaving a party of Chihiro/src/Groups/GroupManager.cpp: its members and its leader.
use rzemulator.Base.{
  ℕ, ◌+◌, ◌<◌, ◌≡◌, ◌≢◌, refl, ap, ◌∙◌, true, false, not, ◌||◌, some, List, [], ◌∷◌, ◌++◌, length,
  ◌==◌, leb, if◌then◌else◌, arith, length-append,
}
use rzemulator.Base.Assoc.{nat_eq, lookup-insert}
use rzemulator.Base.Int.{pos}
use rzemulator.Groups.{
  PartyType, PartyMemberTag, PartyInfo, GroupManager, set_party, get_party_info, get_member_count,
  is_leader, same_bytes, new_tag, with_members, put_info, join_party, has_name, new_party,
  create_party, iequals, drop_member, leave_party,
}
use Prim.Native.String.{String}

same_bytes_refl : (a : List ℕ) → same_bytes a a ≡ true
unfolding same_bytes
same_bytes_refl [] = refl
same_bytes_refl (x ∷ a) = ground (arith, same_bytes_refl a)

get_party_info-made :
    (g : GroupManager) (id k : ℕ) (i : PartyInfo)
    → get_party_info (record (put_info g id i) { max_party_id = id }) k
      ≡ (if id == k then some i else get_party_info g k)
unfolding get_party_info
get_party_info-made g id k i = lookup-insert id k i g.parties

abbrev pub joined : GroupManager → ℕ → ℕ → PartyInfo → GroupManager
joined g id p i =
    record (put_info g id (with_members i (i.members ++ new_tag (g.player_at p) p ∷ []))) {
      player_at = set_party g.player_at p id;
    }

join_party_lem :
    (g : GroupManager) (id p pass : ℕ) (i : PartyInfo)
    → get_party_info g id ≡ some i
    → length i.members < 8
    → pass ≡ i.party_password
    → join_party g id p pass ≡ (joined g id p i, true)
unfolding join_party
join_party_lem g id p pass i e room same =
    let fine : leb 8 (length i.members) || not (pass == i.party_password) ≡ false = ground arith in
    rw (join_party, e, fine) refl

get_party_info-joined :
    (g : GroupManager) (id p k : ℕ) (i : PartyInfo)
    → get_party_info (joined g id p i) k ≡ (
        if id == k
        then some (with_members i (i.members ++ new_tag (g.player_at p) p ∷ []))
        else get_party_info g k)
unfolding get_party_info
get_party_info-joined g id p k i =
    lookup-insert id k (with_members i (i.members ++ new_tag (g.player_at p) p ∷ [])) g.parties

-- Under a name that no party has, creating gives the next number: the new party has the player as its one
-- member and its leader, the player knows the number, and every other party stays as it was.
pub create_party_lem :
    (g : GroupManager) (p : ℕ) (name : String) (t : PartyType) (password : ℕ)
    → has_name g.parties name ≡ false
    → let id = g.max_party_id + 1 in
      (g' : GroupManager) × (create_party g p name t password ≡ (g', pos id))
      × (get_member_count g' id ≡ 1)
      × (is_leader g' id (g.player_at p).name ≡ true)
      × ((g'.player_at p).party_id ≡ id)
      × ((k : ℕ) → k ≢ id → get_party_info g' k ≡ get_party_info g k)
unfolding create_party get_member_count is_leader
create_party_lem g p name t password free =
    let id = g.max_party_id + 1 in
    let i = new_party (g.player_at p) id name t password in
    let made : GroupManager = record (put_info g id i) { max_party_id = id } in
    let at_id : get_party_info made id ≡ some i = ground (arith, get_party_info-made g id id i) in
    let enters = join_party_lem made id p password i at_id (omega arith) refl in
    let now : get_party_info (joined made id p i) id
        ≡ some (with_members i (new_tag (g.player_at p) p ∷ [])) =
      ground (arith, get_party_info-joined made id p id i) in
    (
      joined made id p i,
      rw (create_party, free, enters) refl,
      rw (get_member_count, now) refl,
      rw (is_leader, now) (same_bytes_refl (g.player_at p).name),
      ground arith,
      λ k ne. ground (arith, get_party_info-joined made id p k i, get_party_info-made g id k i),
    )

-- JoinParty itself tests for room and the password alone: with both, a member who joins again stands in the
-- list twice.
pub join_party_again :
    (g : GroupManager) (id p pass : ℕ) (i : PartyInfo)
    → get_party_info g id ≡ some i
    → length i.members < 7
    → pass ≡ i.party_password
    → let g1 = (join_party g id p pass).0 in
      ((join_party g id p pass).1 ≡ true)
      × ((join_party g1 id p pass).1 ≡ true)
      × (get_member_count (join_party g1 id p pass).0 id ≡ length i.members + 2)
unfolding get_member_count
join_party_again g id p pass i e room same =
    let tag = new_tag (g.player_at p) p in
    let i1 = with_members i (i.members ++ tag ∷ []) in
    let g1 = joined g id p i in
    let first = join_party_lem g id p pass i e (omega arith) same in
    let now : get_party_info g1 id ≡ some i1 = ground (arith, get_party_info-joined g id p id i) in
    let count1 = length-append i.members (tag ∷ []) in
    let again = join_party_lem g1 id p pass i1 now (omega (arith, count1)) same in
    let tag1 = new_tag (g1.player_at p) p in
    let last : get_party_info (joined g1 id p i1) id
        ≡ some (with_members i1 (i1.members ++ tag1 ∷ [])) =
      ground (arith, get_party_info-joined g1 id p id i1) in
    (
      rw first refl,
      rw (first, again) refl,
      rw (first, again, get_member_count, last)
          (omega (arith, count1, length-append i1.members (tag1 ∷ []))),
    )

-- By `iequals` a name equals every name that goes on from it, and not the other way round.
iequals_longer :
    (to_upper : ℕ → ℕ) (name rest : List ℕ) → iequals to_upper name (name ++ rest) ≡ true
unfolding iequals
iequals_longer to_upper [] rest = refl
iequals_longer to_upper (x ∷ name) rest = ground (arith, iequals_longer to_upper name rest)

iequals_shorter :
    (to_upper : ℕ → ℕ) (name : List ℕ) (c : ℕ) (rest : List ℕ)
    → iequals to_upper (name ++ c ∷ rest) name ≡ false
unfolding iequals
iequals_shorter to_upper [] c rest = refl
iequals_shorter to_upper (x ∷ name) c rest = ground (arith, iequals_shorter to_upper name c rest)

-- Where the leader is the first member and the leader's name goes on behind the whole name of another member: when that
-- member leaves, it is the leader who is dropped. All other members stay, the one who leaves among them, and the
-- party keeps the leader's name.
pub leave_drops_leader :
    (to_upper : ℕ → ℕ) (g : GroupManager) (id : ℕ) (i : PartyInfo) (leader me : PartyMemberTag)
    (c : ℕ) (rest : List ℕ) (before after : List PartyMemberTag)
    → get_party_info g id ≡ some i
    → i.members ≡ leader ∷ before ++ me ∷ after
    → i.leader_name ≡ leader.name
    → leader.name ≡ me.name ++ c ∷ rest
    → leave_party to_upper g id me.name
      ≡ (put_info g id (with_members i (before ++ me ∷ after)), true)
unfolding leave_party drop_member
leave_drops_leader to_upper g id i leader me c rest before after e ms led longer =
    let kept : iequals to_upper i.leader_name me.name ≡ false =
      ap (λ n. iequals to_upper n me.name) (led ∙ longer)
      ∙ iequals_shorter to_upper me.name c rest in
    let begins : iequals to_upper me.name leader.name ≡ true =
      ap (iequals to_upper me.name) longer ∙ iequals_longer to_upper me.name (c ∷ rest) in
    let dropped : drop_member to_upper me.name i.members ≡ before ++ me ∷ after =
      rw ms (unfold drop_member in rw begins refl) in
    rw (leave_party, e, kept, dropped) refl
