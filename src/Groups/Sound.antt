-- ===== src/Groups/Sound.antt =====
-- The parties of Chihiro/src/Groups/GroupManager.cpp under every sequence of its operations.
use rzemulator.Base.{
  ℕ, ◌+◌, ◌≤◌, ◌≡◌, ◌≢◌, refl, false, not, ◌||◌, none, some, List, [], ◌∷◌, ◌++◌, length, ◌==◌, leb,
  if◌then◌else◌, map, arith, Bool-cases, Option-cases, inl, inr, length-append,
}
use rzemulator.Base.Assoc.{nat_eq, lookup, erase, lookup-insert, lookup-erase}
use rzemulator.Groups.{
  PartyType, PartyMemberTag, PartyInfo, PartyPlayer, GroupManager, set_party, get_party_info,
  new_tag, with_members, put_info, join_party, has_name, new_party, create_party, iequals,
  drop_member, leave_party, destroy_party, tag_login, tag_logout, on_login, on_logout,
}
use text.Mathlib.TextEquality.{eq_iff}
use Prim.Native.String.{String}

-- A party under its own number, one that was given out, with eight members at most.
pub record IsParty (max id : ℕ) (i : PartyInfo) : Type 0 where
  pub own : i.party_id ≡ id
  pub given : id ≤ max
  pub few : length i.members ≤ 8

-- Different parties have different names.
pub record IsSound (g : GroupManager) : Type 0 where
  pub each : (id : ℕ) (i : PartyInfo) → get_party_info g id ≡ some i → IsParty g.max_party_id id i
  pub apart :
      (a b : ℕ) (i j : PartyInfo)
      → get_party_info g a ≡ some i
      → get_party_info g b ≡ some j
      → i.party_name ≡ j.party_name
      → a ≡ b

length-drop_member :
    (to_upper : ℕ → ℕ) (name : List ℕ) (ts : List PartyMemberTag)
    → length (drop_member to_upper name ts) ≤ length ts
unfolding drop_member
length-drop_member to_upper name [] = omega arith
length-drop_member to_upper name (t ∷ ts) = ground (arith, length-drop_member to_upper name ts)

length-map :
    (f : PartyMemberTag → PartyMemberTag) (ts : List PartyMemberTag) → length (map f ts) ≡ length ts
length-map f [] = refl
length-map f (t ∷ ts) = omega (arith, length-map f ts)

get_party_info-put :
    (g : GroupManager) (id k : ℕ) (i : PartyInfo)
    → get_party_info (put_info g id i) k ≡ (if id == k then some i else get_party_info g k)
unfolding get_party_info
get_party_info-put g id k i = lookup-insert id k i g.parties

get_party_info-made :
    (g : GroupManager) (id k : ℕ) (i : PartyInfo)
    → get_party_info (record (put_info g id i) { max_party_id = id }) k
      ≡ (if id == k then some i else get_party_info g k)
unfolding get_party_info
get_party_info-made g id k i = lookup-insert id k i g.parties

get_party_info-erase :
    (g : GroupManager) (id k : ℕ) (m : ℕ → PartyPlayer)
    → get_party_info (record g { parties = erase id g.parties; player_at = m }) k
      ≡ (if id == k then none else get_party_info g k)
unfolding get_party_info
get_party_info-erase g id k m = lookup-erase id k g.parties

-- A party gets new members, eight at most.
put_info-IsSound :
    (g : GroupManager) (id : ℕ) (i : PartyInfo) (ms : List PartyMemberTag)
    → IsSound g
    → get_party_info g id ≡ some i
    → length ms ≤ 8
    → IsSound (put_info g id (with_members i ms))
put_info-IsSound g id i ms w e few =
    let put = λ (k : ℕ). get_party_info-put g id k (with_members i ms) in
    record {
      each = λ k j f. record {
        own = ground (arith, put k, w.each id i e, w.each k j);
        given = ground (arith, put k, w.each id i e, w.each k j);
        few = ground (arith, put k, w.each k j);
      };
      apart = λ a b j k f h same.
          ground (arith, put a, put b, w.apart a b j k, w.apart id b i k e, w.apart a id j i);
    }

-- What the players hold does not matter.
players-IsSound :
    (g : GroupManager) (m : ℕ → PartyPlayer) → IsSound g → IsSound (record g { player_at = m })
unfolding get_party_info
players-IsSound g m w = record { each = w.each; apart = w.apart }

join_party-IsSound :
    (g : GroupManager) (id p pass : ℕ) → IsSound g → IsSound (join_party g id p pass).0
unfolding join_party
join_party-IsSound g id p pass w = elim (Option-cases (get_party_info g id)) [
  | inl e ↦ rw (join_party, e) w
  | inr (i, e) ↦ elim (Bool-cases (leb 8 (length i.members) || not (pass == i.party_password))) [
    | inl refused ↦ rw (join_party, e, refused) w
    | inr fine ↦
        let ms = i.members ++ new_tag (g.player_at p) p ∷ [] in
        let few : length ms ≤ 8 =
          ground (arith, length-append i.members (new_tag (g.player_at p) p ∷ [])) in
        rw (join_party, e, fine)
          (players-IsSound _ (set_party g.player_at p id) (put_info-IsSound g id i ms w e few))
  ]
]

leave_party-IsSound :
    (to_upper : ℕ → ℕ) (g : GroupManager) (id : ℕ) (name : List ℕ)
    → IsSound g
    → IsSound (leave_party to_upper g id name).0
unfolding leave_party
leave_party-IsSound to_upper g id name w = elim (Option-cases (get_party_info g id)) [
  | inl e ↦ rw (leave_party, e) w
  | inr (i, e) ↦ elim (Bool-cases (iequals to_upper i.leader_name name)) [
    | inl refused ↦ rw (leave_party, e, refused) w
    | inr fine ↦
        let few : length (drop_member to_upper name i.members) ≤ 8 =
          omega (arith, length-drop_member to_upper name i.members, (w.each id i e).few) in
        rw (leave_party, e, fine)
          (put_info-IsSound g id i (drop_member to_upper name i.members) w e few)
  ]
]

destroy_party-IsSound : (g : GroupManager) (id : ℕ) → IsSound g → IsSound (destroy_party g id)
unfolding destroy_party
destroy_party-IsSound g id w =
    let gone = λ (k : ℕ). get_party_info-erase g id k (destroy_party g id).player_at in
    record {
      each = λ k j f. w.each k j (ground (arith, gone k));
      apart = λ a b j k f h same. ground (arith, gone a, gone b, w.apart a b j k);
    }

map-IsSound :
    (g : GroupManager) (id : ℕ) (i : PartyInfo) (f : PartyMemberTag → PartyMemberTag)
    → IsSound g
    → get_party_info g id ≡ some i
    → IsSound (put_info g id (with_members i (map f i.members)))
map-IsSound g id i f w e =
    put_info-IsSound g id i (map f i.members) w e
      (omega (arith, length-map f i.members, (w.each id i e).few))

on_login-IsSound :
    (to_upper : ℕ → ℕ) (g : GroupManager) (id p : ℕ)
    → IsSound g
    → IsSound (on_login to_upper g id p).0
unfolding on_login
on_login-IsSound to_upper g id p w = elim (Option-cases (get_party_info g id)) [
  | inl e ↦ rw (on_login, e) w
  | inr (i, e) ↦ rw (on_login, e) (map-IsSound g id i (tag_login to_upper (g.player_at p) p) w e)
]

on_logout-IsSound :
    (to_upper : ℕ → ℕ) (g : GroupManager) (id p : ℕ)
    → IsSound g
    → IsSound (on_logout to_upper g id p).0
unfolding on_logout
on_logout-IsSound to_upper g id p w = elim (Option-cases (get_party_info g id)) [
  | inl e ↦ rw (on_logout, e) w
  | inr (i, e) ↦ rw (on_logout, e) (map-IsSound g id i (tag_logout to_upper (g.player_at p)) w e)
]

has_name_lem :
    (ps : List (ℕ × PartyInfo)) (name : String) (k : ℕ) (i : PartyInfo)
    → has_name ps name ≡ false
    → lookup k ps ≡ some i
    → i.party_name ≢ name
unfolding has_name lookup
has_name_lem [] name k i free e same = absurd (ground arith)
has_name_lem ((j, v) ∷ ps) name k i free e same =
    ground (arith, eq_iff v.party_name name, has_name_lem ps name k i, same)

create_party-IsSound :
    (g : GroupManager) (p : ℕ) (name : String) (t : PartyType) (password : ℕ)
    → IsSound g
    → IsSound (create_party g p name t password).0
create_party-IsSound g p name t password w = elim (Bool-cases (has_name g.parties name)) [
  | inl taken ↦ unfold create_party in rw (create_party, taken) w
  | inr free ↦
      let id = g.max_party_id + 1 in
      let i = new_party (g.player_at p) id name t password in
      let made : GroupManager = record (put_info g id i) { max_party_id = id } in
      let put = λ (k : ℕ). get_party_info-made g id k i in
      let other = λ (k : ℕ) (j : PartyInfo) (e : get_party_info g k ≡ some j).
        has_name_lem g.parties name k j free (unfold get_party_info in e) in
      let sound : IsSound made = record {
        each = λ k j f. record {
          own = ground (arith, put k, w.each k j);
          given = ground (arith, put k, w.each k j);
          few = ground (arith, put k, w.each k j);
        };
        apart =
            λ a b j k f h same. ground (arith, put a, put b, w.apart a b j k, other a j, other b k);
      } in
      unfold create_party in rw (create_party, free) (join_party-IsSound made id p password sound)
]

-- One call of the manager, or a change of what the players hold.
pub data Step (to_upper : ℕ → ℕ) (g : GroupManager) : GroupManager → Type 0 where
  create :
      (p : ℕ) (name : String) (t : PartyType) (password : ℕ)
      → Step to_upper g ((create_party g p name t password).0)
  join : (id p pass : ℕ) → Step to_upper g ((join_party g id p pass).0)
  leave : (id : ℕ) (name : List ℕ) → Step to_upper g ((leave_party to_upper g id name).0)
  destroy : (id : ℕ) → Step to_upper g (destroy_party g id)
  login : (id p : ℕ) → Step to_upper g ((on_login to_upper g id p).0)
  logout : (id p : ℕ) → Step to_upper g ((on_logout to_upper g id p).0)
  players : (m : ℕ → PartyPlayer) → Step to_upper g (record g { player_at = m })

pub data Reach (to_upper : ℕ → ℕ) (g : GroupManager) : GroupManager → Type 0 where
  here : Reach to_upper g g
  next : {h k : GroupManager} → Reach to_upper g h → Step to_upper h k → Reach to_upper g k

step-IsSound : (to_upper : ℕ → ℕ) {g h : GroupManager} → Step to_upper g h → IsSound g → IsSound h
step-IsSound to_upper {g = g} (create p name t password) w =
    create_party-IsSound g p name t password w
step-IsSound to_upper {g = g} (join id p pass) w = join_party-IsSound g id p pass w
step-IsSound to_upper {g = g} (leave id name) w = leave_party-IsSound to_upper g id name w
step-IsSound to_upper {g = g} (destroy id) w = destroy_party-IsSound g id w
step-IsSound to_upper {g = g} (login id p) w = on_login-IsSound to_upper g id p w
step-IsSound to_upper {g = g} (logout id p) w = on_logout-IsSound to_upper g id p w
step-IsSound to_upper {g = g} (players m) w = players-IsSound g m w

-- From a manager whose parties stand under their own numbers, each given out before, have eight members
-- at most and different names, every sequence of creations, joins, leaves, destructions, logins and
-- logouts, with any change of the players between them, leads to such a manager again.
pub groups-IsSound :
    (to_upper : ℕ → ℕ) {g h : GroupManager} → Reach to_upper g h → IsSound g → IsSound h
groups-IsSound to_upper here w = w
groups-IsSound to_upper (next r st) w = step-IsSound to_upper st (groups-IsSound to_upper r w)
