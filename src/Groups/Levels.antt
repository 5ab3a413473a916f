-- ===== src/Groups/Levels.antt =====
-- `GetMinLevel` and `GetMaxLevel` of Chihiro/src/Groups/GroupManager.cpp.
use rzemulator.Base.{ℕ, zero, suc, ◌≡◌, refl, some, List, [], ◌∷◌, get_elem?, arith}
use rzemulator.Base.Int.{ℤ, pos, ◌≤ℤ◌}
use rzemulator.Groups.{
  PartyMemberTag, PartyInfo, GroupManager, get_party_info, members_of, min_level, max_level,
  get_min_level, get_max_level,
}

min_level_start : (ts : List PartyMemberTag) (m : ℤ) → min_level ts m ≤ℤ m
unfolding min_level
min_level_start [] m = omega arith
min_level_start (t ∷ ts) m = ground (arith, min_level_start ts t.level, min_level_start ts m)

max_level_start : (ts : List PartyMemberTag) (m : ℤ) → m ≤ℤ max_level ts m
unfolding max_level
max_level_start [] m = omega arith
max_level_start (t ∷ ts) m = ground (arith, max_level_start ts t.level, max_level_start ts m)

min_level_le :
    (ts : List PartyMemberTag) (m : ℤ) (j : ℕ) (t : PartyMemberTag)
    → get_elem? ts j ≡ some t
    → min_level ts m ≤ℤ t.level
unfolding min_level
min_level_le [] m j t e = absurd (ground arith)
min_level_le (u ∷ ts) m zero t e = ground (arith, min_level_start ts u.level, min_level_start ts m)
min_level_le (u ∷ ts) m (suc j) t e = min_level_le ts _ j t e

max_level_le :
    (ts : List PartyMemberTag) (m : ℤ) (j : ℕ) (t : PartyMemberTag)
    → get_elem? ts j ≡ some t
    → t.level ≤ℤ max_level ts m
unfolding max_level
max_level_le [] m j t e = absurd (ground arith)
max_level_le (u ∷ ts) m zero t e = ground (arith, max_level_start ts u.level, max_level_start ts m)
max_level_le (u ∷ ts) m (suc j) t e = max_level_le ts _ j t e

-- Every member of a party has a level between the two that the manager reports, which are 255 at most and 0
-- at least.
pub levels_lem :
    (g : GroupManager) (id : ℕ) (i : PartyInfo) (j : ℕ) (t : PartyMemberTag)
    → get_party_info g id ≡ some i
    → get_elem? i.members j ≡ some t
    → (get_min_level g id ≤ℤ t.level)
      × (t.level ≤ℤ get_max_level g id)
      × (get_min_level g id ≤ℤ pos 255)
      × (pos 0 ≤ℤ get_max_level g id)
unfolding get_min_level get_max_level members_of
levels_lem g id i j t e at =
    let ms : members_of g id ≡ i.members = unfold members_of in rw (members_of, e) refl in
    (
      rw (get_min_level, ms) (min_level_le i.members (pos 255) j t at),
      rw (get_max_level, ms) (max_level_le i.members (pos 0) j t at),
      min_level_start (members_of g id) (pos 255),
      max_level_start (members_of g id) (pos 0),
    )
