-- ===== src/Quest/Lifecycle.antt =====
-- Chihiro/src/Quests/QuestManager.cpp as steps: a player loads, starts, ends and drops quests, in any
-- order. `Player::onEndQuest` of Entities/Player/Player.cpp drops a quest that was ended.
use rzemulator.Base.{
  ◌≡◌, sym, ap, ◌∙◌, Bool, true, false, not, ◌&&◌, ◌||◌, Option, none, some, List, [], ◌∷◌, ◌++◌,
  if◌then◌else◌, arith, Bool-cases, Option-cases, inl, inr,
}
use rzemulator.Base.Int.{ℤ, pos, ◌+ℤ◌, eqb_ℤ}
use rzemulator.Quest.{
  Quest, QuestBase, QuestProgress, in_progress, alloc_quest, is_finishable_progress,
}
use rzemulator.Quest.Manager.{
  Manager, lookup, is_finished_quest, has_entry, find_quest, has_instance, add_quest, start_quest,
  end_quest, pop_from_active, is_startable_quest, no_fore_quest, any_fore_finished,
}
use rzemulator.Quest.Unique.{
  IsSound, append-IsDistinct, find_quest-none, find_quest_missing, find_quest_code,
  finishable-IsDistinct, has_instance-pop, pop-IsDistinct, lookup-emplace, emplace-marked, eqb_refl,
}

-- The table of quests gives a code the quest of that code, as the map of the object manager does.
abbrev pub IsTable : (ℤ → Option QuestBase) → Type 0
IsTable get_base = (code : ℤ) (b : QuestBase) → get_base code ≡ some b → b.code ≡ code

-- What a player does with its quests: loading one that `AllocQuest` made, starting, ending, dropping.
pub data Step (get_base : ℤ → Option QuestBase) : Manager → Manager → Type 0 where
  add :
      (m : Manager) (q : Quest) (id code : ℤ) (status : List ℤ) (p : QuestProgress) (start_id : ℤ)
      → alloc_quest get_base id code status p start_id ≡ some q
      → Step get_base m ((add_quest m q).0)
  start :
      (m m' : Manager) (code start_id : ℤ) (r : Bool)
      → start_quest get_base m code start_id ≡ some (m', r)
      → Step get_base m m'
  end_ :
      (m : Manager) (q : Quest) (code : ℤ)
      → find_quest m.active code ≡ some q
      → Step get_base m (end_quest m q)
  drop :
      (m : Manager) (code : ℤ)
      → Step get_base m (record m { active = pop_from_active m.active code })

pub data Reach (get_base : ℤ → Option QuestBase) : Manager → Type 0 where
  fresh : (index : ℤ) → Reach get_base (record { finished = []; active = []; quest_index = index })
  next : (m m' : Manager) → Reach get_base m → Step get_base m m' → Reach get_base m'

alloc_quest_lem :
    (get_base : ℤ → Option QuestBase) (id code : ℤ) (status : List ℤ) (p : QuestProgress)
    (start_id : ℤ) (q : Quest)
    → IsTable get_base
    → alloc_quest get_base id code status p start_id ≡ some q
    → (q.base.code ≡ q.instance_.code) × (q.instance_.code ≡ code)
unfolding alloc_quest
alloc_quest_lem get_base id code status p start_id q t e = elim (Option-cases (get_base code)) [
  | inl n ↦ ground (arith, n)
  | inr (b, eb) ↦ let same = t code b eb in (ground (arith, eb, same), ground (arith, eb))
]

add-IsSound :
    (m : Manager) (q : Quest)
    → IsSound m
    → q.base.code ≡ q.instance_.code
    → IsSound ((add_quest m q).0)
unfolding add_quest
add-IsSound m q s same =
    elim (Bool-cases (eqb_ℤ q.instance_.code (pos 0) || has_instance m.active q.instance_.code)) [
      | inl refused ↦ rw refused s
      | inr free ↦ elim (Bool-cases (is_finishable_progress q.instance_.progress)) [
        | inl done ↦ elim (Bool-cases (has_entry m q.instance_.code && not q.base.is_repeatable)) [
          | inl twice ↦ rw (free, done, twice) s
          | inr once ↦
              rw (free, done, once)
                (record {
                  distinct = s.distinct;
                  marked = emplace-marked q.instance_.code m.finished s.marked;
                })
        ]
        | inr going ↦
            rw (free, going)
              (record {
                distinct =
                    append-IsDistinct m.active q s.distinct (same, ground arith) (ground arith);
                marked = s.marked;
              })
      ]
    ]

start-IsSound :
    (get_base : ℤ → Option QuestBase) (m m' : Manager) (code start_id : ℤ) (r : Bool)
    → IsTable get_base
    → IsSound m
    → start_quest get_base m code start_id ≡ some (m', r)
    → IsSound m'
unfolding start_quest
start-IsSound get_base m m' code start_id r t s e = elim (Bool-cases (eqb_ℤ code (pos 0))) [
  | inl zero_code ↦ let same : m ≡ m' = ground (arith, zero_code) in rw⁻¹ same s
  | inr nz ↦ elim (Option-cases (find_quest m.active code)) [
    | inr (p, found) ↦ let same : m ≡ m' = ground (arith, nz, found) in rw⁻¹ same s
    | inl new ↦
        let zeros = pos 0 ∷ pos 0 ∷ pos 0 ∷ [] in
        let id = m.quest_index +ℤ pos 1 in
        elim (Option-cases (alloc_quest get_base id code zeros in_progress start_id)) [
          | inl none_ ↦ ground (arith, nz, new, none_)
          | inr (q, made) ↦
              let (same, coded) =
                alloc_quest_lem get_base id code zeros in_progress start_id q t made in
              let is_next : record m { active = m.active ++ q ∷ []; quest_index = id } ≡ m' =
                ground (arith, nz, new, made) in
              let free = find_quest-none m.active code s.distinct new in
              rw⁻¹ is_next (record {
                distinct =
                    append-IsDistinct m.active q s.distinct (same, ground (arith, coded))
                      (ground (arith, coded));
                marked = s.marked;
              })
        ]
  ]
]

end-IsSound : (m : Manager) (q : Quest) → IsSound m → IsSound (end_quest m q)
unfolding end_quest
end-IsSound m q s = record {
  distinct = finishable-IsDistinct m.active q.instance_.code s.distinct;
  marked = emplace-marked q.instance_.code m.finished s.marked;
}

step-IsSound :
    (get_base : ℤ → Option QuestBase) (m m' : Manager)
    → IsTable get_base
    → IsSound m
    → Step get_base m m'
    → IsSound m'
step-IsSound get_base m m' t s (add _ q id code status p start_id e) =
    add-IsSound m q s ((alloc_quest_lem get_base id code status p start_id q t e).0)
step-IsSound get_base m m' t s (start _ _ code start_id r e) =
    start-IsSound get_base m m' code start_id r t s e
step-IsSound get_base m m' t s (end_ _ q code e) = end-IsSound m q s
step-IsSound get_base m m' t s (drop _ code) = record {
  distinct = pop-IsDistinct m.active code s.distinct;
  marked = s.marked;
}

-- Whatever sequence of loads, starts, ends and drops a player makes, if the table of quests gives each
-- code the quest of that code: the active quests have different codes, none of them zero, each with the
-- code of its base, and every quest in the finished map is marked finished.
pub Reach-IsSound :
    (get_base : ℤ → Option QuestBase) (m : Manager)
    → IsTable get_base
    → Reach get_base m
    → IsSound m
unfolding lookup
Reach-IsSound get_base m t (fresh index) = record {
  distinct = tt;
  marked = λ code e. ground (arith, e);
}
Reach-IsSound get_base m t (next m0 _ r st) =
    step-IsSound get_base m0 m t (Reach-IsSound get_base m0 t r) st

-- `Player::onEndQuest`.
abbrev pub on_end_quest : Manager → Quest → Manager
on_end_quest m q = record m { active = pop_from_active m.active q.instance_.code }

-- What `Player::EndQuest` does to the quests of the player: the manager's `EndQuest`, and in the end `onEndQuest`.
pub finish : Manager → Quest → Manager
finish m q = on_end_quest (end_quest m q) q

-- The quests before it are asked for, if the first place of the table names one.
abbrev pub fore_done : Manager → QuestBase → Bool
fore_done m b = if no_fore_quest b.fore_quest then true else any_fore_finished m b.fore_quest

is_finished-finish :
    (m : Manager) (q : Quest) → IsSound m → is_finished_quest (finish m q) q.instance_.code ≡ true
unfolding finish end_quest is_finished_quest
is_finished-finish m q s =
    let code = q.instance_.code in
    elim (Option-cases (lookup code m.finished)) [
      | inl e ↦ ground (arith, e, lookup-emplace code code m.finished, eqb_refl code)
      | inr (true, e) ↦ ground (arith, e, lookup-emplace code code m.finished)
      | inr (false, e) ↦ absurd (s.marked code e)
    ]

-- Where the active quests have different codes, none zero, each that of its base, and every quest in the
-- finished map is marked finished: when an active quest that the table knows is ended and dropped, it is no
-- longer active, it is finished, and it can be started again just when it is repeatable and its fore quests
-- allow it.
pub finish-restart :
    (get_base : ℤ → Option QuestBase) (m : Manager) (code : ℤ) (q : Quest) (b : QuestBase)
    → IsSound m
    → find_quest m.active code ≡ some q
    → get_base code ≡ some b
    → (find_quest (finish m q).active code ≡ none)
      × (is_finished_quest (finish m q) code ≡ true)
      × (is_startable_quest get_base (finish m q) code
          ≡ b.is_repeatable && fore_done (finish m q) b)
finish-restart get_base m code q b s e eb =
    let coded = find_quest_code m.active code q s.distinct e in
    let d = finishable-IsDistinct m.active q.instance_.code s.distinct in
    let gone : find_quest (finish m q).active code ≡ none =
      unfold finish end_quest in
      find_quest_missing _ code (pop-IsDistinct _ q.instance_.code d)
        (has_instance-pop _ q.instance_.code code d ∙ ground (arith, coded, eqb_refl code)) in
    let done : is_finished_quest (finish m q) code ≡ true =
      ap (is_finished_quest (finish m q)) (sym coded) ∙ is_finished-finish m q s in
    (gone, done, unfold is_startable_quest in ground (arith, gone, done, eb))
