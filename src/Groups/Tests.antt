-- ===== src/Groups/Tests.antt =====
-- Two players whose names begin alike, in one party.
use rzemulator.Base.{ℕ, ◌≡◌, ◌≢◌, refl, true, false, some, [], ◌∷◌, arith, if◌then◌else◌, ◌==◌}
use rzemulator.Base.Assoc.{nat_eq, lookup}
use rzemulator.Base.Int.{pos, ◌≤ℤ◌}
use rzemulator.Groups.{
  PartyType, PartyInfo, PartyPlayer, GroupManager, get_party_info, get_member_count, is_leader,
  new_tag, with_members, put_info, join_party, has_name, new_party, create_party, leave_party,
  get_min_level, get_max_level,
}
use rzemulator.Groups.Sound.{IsSound, Step, Reach, groups-IsSound}
use rzemulator.Groups.Levels.{levels_lem}
use rzemulator.Groups.Members.{create_party_lem, join_party_again, leave_drops_leader}

-- "BOBBY" is 1 and "BOB" is 2.
abbrev player_of : ℕ → PartyPlayer
player_of p = record {
  name = if p == 1 then 66 ∷ 79 ∷ 66 ∷ 66 ∷ 89 ∷ [] else 66 ∷ 79 ∷ 66 ∷ [];
  uid = p;
  level = pos 10;
  current_job = pos 1;
  party_id = 0;
}

abbrev same_case : ℕ → ℕ
same_case c = c

abbrev empty : GroupManager
empty = record { max_party_id = 0; parties = []; player_at = player_of }

abbrev party : PartyInfo
party =
    with_members (new_party (player_of 1) 1 "Hunters" PartyType.type_normal_party 77)
      (new_tag (player_of 1) 1 ∷ new_tag (player_of 2) 2 ∷ [])

abbrev manager : GroupManager
manager = record { max_party_id = 1; parties = (1, party) ∷ []; player_at = player_of }

empty-IsSound : IsSound empty
unfolding get_party_info
empty-IsSound = record {
  each = λ id i e. absurd (unfold lookup in ground (arith, e));
  apart = λ a b i j e f same. absurd (unfold lookup in ground (arith, e));
}

groups-IsSound_example : IsSound (create_party empty 1 "Hunters" PartyType.type_normal_party 77).0
groups-IsSound_example =
    groups-IsSound same_case {g = empty}
      (Reach.next Reach.here (Step.create 1 "Hunters" PartyType.type_normal_party 77)) empty-IsSound

new_name : has_name manager.parties "Miners" ≡ false
unfolding has_name
new_name = refl

create_party_lem_run :
    (g' : GroupManager) × (create_party manager 2 "Miners" PartyType.type_normal_party 5
      ≡ (g', pos 2))
    × (get_member_count g' 2 ≡ 1)
    × (is_leader g' 2 (66 ∷ 79 ∷ 66 ∷ []) ≡ true)
    × ((g'.player_at 2).party_id ≡ 2)
    × ((k : ℕ) → k ≢ 2 → get_party_info g' k ≡ get_party_info manager k)
create_party_lem_run = create_party_lem manager 2 "Miners" PartyType.type_normal_party 5 new_name

the_party : get_party_info manager 1 ≡ some party
unfolding get_party_info lookup
the_party = refl

join_party_again_run :
    ((join_party manager 1 2 77).1 ≡ true)
    × ((join_party (join_party manager 1 2 77).0 1 2 77).1 ≡ true)
    × (get_member_count (join_party (join_party manager 1 2 77).0 1 2 77).0 1 ≡ 4)
join_party_again_run = join_party_again manager 1 2 77 party the_party (omega arith) refl

-- Bob leaves, and Bobby is gone.
leave_drops_leader_example :
    leave_party same_case manager 1 (66 ∷ 79 ∷ 66 ∷ [])
    ≡ (put_info manager 1 (with_members party (new_tag (player_of 2) 2 ∷ [])), true)
leave_drops_leader_example =
    leave_drops_leader same_case manager 1 party (new_tag (player_of 1) 1) (new_tag (player_of 2) 2)
      66 (89 ∷ []) [] [] the_party refl refl refl

levels_lem_run :
    (get_min_level manager 1 ≤ℤ pos 10)
    × (pos 10 ≤ℤ get_max_level manager 1)
    × (get_min_level manager 1 ≤ℤ pos 255)
    × (pos 0 ≤ℤ get_max_level manager 1)
levels_lem_run = levels_lem manager 1 party 1 (new_tag (player_of 2) 2) the_party refl
