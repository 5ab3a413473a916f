-- ===== src/Quest/Unique.antt =====
-- The codes of the active quests, under the operations of Chihiro/src/Quests/QuestManager.cpp.
use rzemulator.Base.{
  ◌≡◌, ◌≢◌, refl, ◌∙◌, Bool, true, false, not, ◌&&◌, ◌||◌, none, some, List, [], ◌∷◌, ◌++◌,
  if◌then◌else◌, arith, Bool-cases, Option-cases, inl, inr,
}
use rzemulator.Base.Int.{ℤ, pos, eqb_ℤ, eq_of_parts}
use rzemulator.Quest.{Quest, set_progress}
use rzemulator.Quest.Manager.{
  Manager, lookup, emplace, find_quest, has_instance, set_finishable, pop_from_active,
}

-- One code for the base and the instance, not zero.
abbrev pub IsCoded : Quest → Type 0
IsCoded q = (q.base.code ≡ q.instance_.code) × (eqb_ℤ q.instance_.code (pos 0) ≡ false)

abbrev pub IsDistinct : List Quest → Type 0
IsDistinct [] = Unit {0}
IsDistinct (q ∷ qs) = IsCoded q × (has_instance qs q.instance_.code ≡ false) × IsDistinct qs

-- The finished quests are all marked true.
pub record IsSound (m : Manager) : Type 0 where
  pub distinct : IsDistinct m.active
  pub marked : (code : ℤ) → lookup code m.finished ≢ some false

pub eqb_refl : (a : ℤ) → eqb_ℤ a a ≡ true
eqb_refl a = ground arith

eqb_eq : (a b : ℤ) → eqb_ℤ a b ≡ true → a ≡ b
eqb_eq a b h = eq_of_parts a b (ground arith)

eqb_comm : (a b : ℤ) → eqb_ℤ a b ≡ eqb_ℤ b a
eqb_comm a b = ground arith

has_instance-append :
    (qs : List Quest) (q : Quest) (code : ℤ)
    → has_instance (qs ++ q ∷ []) code ≡ has_instance qs code || eqb_ℤ code q.instance_.code
unfolding has_instance
has_instance-append [] q code = ground arith
has_instance-append (p ∷ qs) q code = ground (arith, has_instance-append qs q code)

pub append-IsDistinct :
    (qs : List Quest) (q : Quest)
    → IsDistinct qs
    → IsCoded q
    → has_instance qs q.instance_.code ≡ false
    → IsDistinct (qs ++ q ∷ [])
unfolding has_instance
append-IsDistinct [] q d c n = (c, refl, tt)
append-IsDistinct (p ∷ qs) q (pc, pn, d) c n = (
  pc,
  ground (
    arith,
    has_instance-append qs q p.instance_.code,
    eqb_comm p.instance_.code q.instance_.code,
  ),
  append-IsDistinct qs q d c (ground arith),
)

pub find_quest-none :
    (qs : List Quest) (code : ℤ)
    → IsDistinct qs
    → find_quest qs code ≡ none
    → has_instance qs code ≡ false
unfolding find_quest has_instance
find_quest-none [] code d e = refl
find_quest-none (q ∷ qs) code ((same, nz), n, d) e =
    ground (arith, same, find_quest-none qs code d, eqb_comm code q.instance_.code)

pub find_quest_missing :
    (qs : List Quest) (code : ℤ)
    → IsDistinct qs
    → has_instance qs code ≡ false
    → find_quest qs code ≡ none
unfolding find_quest has_instance
find_quest_missing [] code d e = refl
find_quest_missing (q ∷ qs) code ((same, nz), n, d) e =
    ground (arith, same, find_quest_missing qs code d, eqb_comm code q.instance_.code)

pub find_quest_code :
    (qs : List Quest) (code : ℤ) (q : Quest)
    → IsDistinct qs
    → find_quest qs code ≡ some q
    → q.instance_.code ≡ code
unfolding find_quest
find_quest_code [] code q d e = ground arith
find_quest_code (p ∷ qs) code q ((same, nz), n, d) e = elim (Bool-cases (eqb_ℤ p.base.code code)) [
  | inl y ↦ let same_code = eqb_eq p.base.code code y in ground arith
  | inr ne ↦ find_quest_code qs code q d (ground arith)
]

pub has_instance-finishable :
    (qs : List Quest) (code other : ℤ)
    → has_instance (set_finishable qs code) other ≡ has_instance qs other
unfolding has_instance set_finishable set_progress
has_instance-finishable [] code other = refl
has_instance-finishable (q ∷ qs) code other = ground (arith, has_instance-finishable qs code other)

pub finishable-IsDistinct :
    (qs : List Quest) (code : ℤ) → IsDistinct qs → IsDistinct (set_finishable qs code)
unfolding set_finishable set_progress
finishable-IsDistinct [] code d = tt
finishable-IsDistinct (q ∷ qs) code (c, n, d) =
    let rest = finishable-IsDistinct qs code d in
    elim (Bool-cases (eqb_ℤ q.instance_.code code)) [
      | inl y ↦ rw y (c, n, d)
      | inr ne ↦ rw ne (c, has_instance-finishable qs code q.instance_.code ∙ n, rest)
    ]

pub has_instance-pop :
    (qs : List Quest) (code other : ℤ)
    → IsDistinct qs
    → has_instance (pop_from_active qs code) other ≡ has_instance qs other && not (eqb_ℤ code other)
unfolding has_instance pop_from_active
has_instance-pop [] code other d = refl
has_instance-pop (q ∷ qs) code other (c, n, d) = elim (Bool-cases (eqb_ℤ q.instance_.code code)) [
  | inl y ↦
      let e = eqb_eq q.instance_.code code y in
      elim (Bool-cases (eqb_ℤ code other)) [
        | inl z ↦
            let f = eqb_eq code other z in ground (arith, e, f, eqb_comm other q.instance_.code)
        | inr z ↦ ground (arith, e, eqb_comm other q.instance_.code)
      ]
  | inr ne ↦ elim (Bool-cases (eqb_ℤ other q.instance_.code)) [
    | inl z ↦
        let f = eqb_eq other q.instance_.code z in
        ground (arith, f, eqb_comm code q.instance_.code, has_instance-pop qs code other d)
    | inr z ↦ ground (arith, has_instance-pop qs code other d)
  ]
]

pub pop-IsDistinct :
    (qs : List Quest) (code : ℤ) → IsDistinct qs → IsDistinct (pop_from_active qs code)
unfolding pop_from_active
pop-IsDistinct [] code d = tt
pop-IsDistinct (q ∷ qs) code (c, n, d) =
    let rest = pop-IsDistinct qs code d in
    elim (Bool-cases (eqb_ℤ q.instance_.code code)) [
      | inl y ↦ rw y d
      | inr ne ↦ rw ne (c, ground (arith, n, has_instance-pop qs code q.instance_.code d), rest)
    ]

pub lookup-emplace :
    (k j : ℤ) (m : List (ℤ × Bool))
    → lookup j (emplace k m) ≡ (elim (lookup k m) [
      | none ↦ if eqb_ℤ k j then some true else lookup j m
      | some v ↦ lookup j m
    ])
unfolding lookup emplace
lookup-emplace k j m = elim (Option-cases (lookup k m)) [
  | inl e ↦ ground (arith, e)
  | inr (v, e) ↦ ground (arith, e)
]

pub emplace-marked :
    (k : ℤ) (m : List (ℤ × Bool))
    → ((code : ℤ) → lookup code m ≢ some false)
    → (code : ℤ) → lookup code (emplace k m) ≢ some false
emplace-marked k m h code = elim (Option-cases (lookup k m)) [
  | inl e ↦ λ f. h code (ground (arith, e, f, lookup-emplace k code m))
  | inr (v, e) ↦ λ f. h code (ground (arith, e, f, lookup-emplace k code m))
]
