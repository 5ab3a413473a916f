-- ===== src/Crafting/Enhance.antt =====
-- Chihiro/src/Crafting/MixManager.cpp: registering and finding an EnhanceInfo, EnhanceItem, procEnhanceFail, MixItem,
-- RepairItem and EnhanceSkillCard. Calls of the player and of Messages are an `Effect` each, in their order; the flag
-- that asks for a save is set just before the save. The items of a request are different objects. `percentage`
-- holds what `fPercentage[i] * 100000` converts to, 20 numbers. The results of `irand` and `urand` are arguments.
use rzemulator.Base.{
  ℕ, zero, suc, ◌^◌, ◌-◌, ◌%◌, Bool, true, false, not, ◌&&◌, ◌||◌, Option, none, some, List, [],
  ◌∷◌, ◌++◌, get_elem?, length, ◌==◌, leb, ltb, if◌then◌else◌,
}
use rzemulator.Base.Int.{ℤ, pos, negsuc, eqb_ℤ, ltb_ℤ, leb_ℤ, ◌+ℤ◌, ◌-ℤ◌}
use rzemulator.Crafting.{CraftItem, MixBase, MixType, mix_enhance, mix_enhance_without_fail}

pub record EnhanceInfo : Type 0 where
  pub sid : ℤ
  pub fail_result : ℤ
  pub max_enhance : ℤ
  pub need_item_code : ℤ
  pub percentage : List ℕ

-- `MixManager::getenhanceInfo` and `MixManager::RegisterEnhanceInfo`.
unfoldable pub get_enhance_info : ℤ → List EnhanceInfo → Option EnhanceInfo
get_enhance_info sid [] = none
get_enhance_info sid (i ∷ is) = if eqb_ℤ sid i.sid then some i else get_enhance_info sid is

abbrev pub is_known : ℤ → List EnhanceInfo → Bool
is_known sid [] = false
is_known sid (i ∷ is) = if eqb_ℤ i.sid sid then true else is_known sid is

unfoldable pub register_enhance_info : EnhanceInfo → List EnhanceInfo → List EnhanceInfo
register_enhance_info info is = if is_known info.sid is then is else is ++ info ∷ []

-- `EraseItem`, `SendItemMessage`, `SendMixResult`, `SendResult` with any code, `DBUpdate` and `KickPlayer`,
-- and the write of the level of a skill card.
pub data Effect : Type 0 where
  erase : ℕ → ℕ → Effect
  item_message : ℕ → Effect
  mix_result : List ℕ → Effect
  refused : Effect
  db_update : ℕ → Effect
  kicked : Effect
  set_enhance : ℕ → ℤ → Effect

-- `endless` is a run that the fuel does not end, `faulted` an access outside an array.
pub data Run {ℓ} (A : Type ℓ) : Type ℓ where
  ended : A → Run A
  faulted : Run A
  endless : Run A

pub record Outcome : Type 0 where
  pub item : CraftItem
  pub effects : List Effect
  pub success : Bool

-- The constants of ItemFields.h.
abbrev max_socket_number : ℕ
max_socket_number = 4

abbrev pub item_flag_failed : ℕ
item_flag_failed = 8

abbrev pub item_flag_normal : ℕ
item_flag_normal = 0

abbrev type_cube : ℕ
type_cube = 4

-- The loop of `procEnhanceFail`, with the constant as its condition. The counter's overflow is left out.
unfoldable pub set_sockets : ℕ → Run ℕ
set_sockets zero = endless
set_sockets (suc fuel) = if max_socket_number == 0 then ended 0 else set_sockets fuel

-- `MixManager::procEnhanceFail`.
abbrev pub or_fail : ℤ → ℤ
or_fail r = if eqb_ℤ r (pos 0) then pos 1 else r

abbrev saved : CraftItem → CraftItem × List Effect
saved it = (it, item_message it.handle ∷ db_update it.handle ∷ [])

abbrev with_enhance : CraftItem → ℤ → CraftItem
with_enhance it n = record it { enhance = n }

unfoldable pub proc_enhance_fail : ℕ → CraftItem → ℤ → Run (CraftItem × List Effect)
proc_enhance_fail fuel it fail_result =
    let r = or_fail fail_result in
    if eqb_ℤ r (pos 1)
    then elim (set_sockets fuel) [
      | ended i ↦ ended (saved (record it { flag = item_flag_failed }))
      | faulted ↦ faulted
      | endless ↦ endless
    ]
    else (if eqb_ℤ r (pos 2)
        then (if leb_ℤ it.enhance (pos 3)
            then ended (it, erase it.handle 1 ∷ [])
            else ended (saved (with_enhance it (it.enhance -ℤ pos 3))))
        else (if eqb_ℤ r (pos 3)
            then (if leb_ℤ it.enhance (pos 3)
                then ended (saved (with_enhance it (pos 0)))
                else ended (saved (with_enhance it (it.enhance -ℤ pos 3))))
            else ended (it, [])))

-- The cube and the powder among the other items.
abbrev pub is_protected : MixType → Bool
is_protected mix_enhance_without_fail = true
is_protected _ = false

abbrev pub is_plain : MixType → Bool
is_plain mix_enhance = true
is_plain _ = false

unfoldable pub cube_and_powder : MixType → List CraftItem → Option (CraftItem × Option CraftItem)
cube_and_powder type_ [] = none
cube_and_powder type_ (c ∷ rest) =
    if is_protected type_
    then elim rest [
      | [] ↦ none
      | d ∷ _ ↦ some (if c.item_type == type_cube then (c, some d) else (d, some c))
    ]
    else some (c, none)

abbrev pub erased : CraftItem × Option CraftItem → List Effect
erased (cube, none) = erase cube.handle 1 ∷ []
erased (cube, some powder) = erase cube.handle 1 ∷ erase powder.handle 1 ∷ []

-- `fPercentage[nCurrentEnhance]`.
abbrev pub percentage_at : List ℕ → ℤ → Option ℕ
percentage_at ps (pos n) = get_elem? ps n
percentage_at ps (negsuc n) = none

-- How much a success adds.
unfoldable pub item_enhance : MixBase → EnhanceInfo → (ℤ → ℤ → ℤ) → ℤ → ℤ
item_enhance mb info irand current =
    let n = if is_plain mb.type_ then irand (mb.value 1) (mb.value 2) else pos 1 in
    if ltb_ℤ info.max_enhance (current +ℤ n) then info.max_enhance -ℤ current else n

abbrev pub refusal : CraftItem → Run Outcome
refusal main = ended (record { item = main; effects = refused ∷ []; success = false })

-- What follows once the cube and the powder are erased.
abbrev succeeded : CraftItem → List Effect → ℤ → Outcome
succeeded main taken n = record {
  item = with_enhance main n;
  effects =
      taken
      ++ item_message main.handle ∷ mix_result (main.handle ∷ []) ∷ db_update main.handle ∷ [];
  success = true;
}

abbrev failed : CraftItem → List Effect → CraftItem × List Effect → Outcome
failed main taken (it, es) = record {
  item = it;
  effects = taken ++ es ++ mix_result [] ∷ db_update main.handle ∷ [];
  success = false;
}

abbrev pub after_fail : CraftItem → List Effect → Run (CraftItem × List Effect) → Run Outcome
after_fail main taken (ended r) = ended (failed main taken r)
after_fail main taken faulted = faulted
after_fail main taken endless = endless

abbrev pub lowered : CraftItem → CraftItem × List Effect
lowered main = (with_enhance main (main.enhance -ℤ pos 1), item_message main.handle ∷ [])

unfoldable pub roll : ℕ → MixBase → EnhanceInfo → CraftItem → List Effect → ℤ → ℕ → ℕ → Run Outcome
roll fuel mb info main taken n urand chance =
    if leb urand chance
    then ended (succeeded main taken (main.enhance +ℤ n))
    else (if not (is_protected mb.type_)
        then after_fail main taken (proc_enhance_fail fuel main info.fail_result)
        else ended (failed main taken (lowered main)))

-- `MixManager::EnhanceItem`.
unfoldable pub enhance_with :
    ℕ
    → MixBase
    → EnhanceInfo
    → CraftItem
    → (ℤ → ℤ → ℤ)
    → ℕ
    → CraftItem × Option CraftItem
    → Run Outcome
enhance_with fuel mb info main irand urand (cube, powder) =
    let n = item_enhance mb info irand main.enhance in
    if not (eqb_ℤ cube.code info.need_item_code) || leb_ℤ n (pos 0)
    then refusal main
    else elim (percentage_at info.percentage main.enhance) [
      | none ↦ faulted
      | some chance ↦ roll fuel mb info main (erased (cube, powder)) n urand chance
    ]

unfoldable pub enhance_item :
    ℕ → List EnhanceInfo → MixBase → CraftItem → List CraftItem → (ℤ → ℤ → ℤ) → ℕ → Run Outcome
enhance_item fuel infos mb main items irand urand = elim (get_enhance_info (mb.value 0) infos) [
  | none ↦ refusal main
  | some info ↦ elim (cube_and_powder mb.type_ items) [
    | none ↦ faulted
    | some found ↦ enhance_with fuel mb info main irand urand found
  ]
]

-- The loop of `MixItem` and `RepairItem` over the other items.
unfoldable pub erase_all : List CraftItem → List ℕ → List Effect
erase_all (it ∷ its) (n ∷ ns) = erase it.handle n ∷ erase_all its ns
erase_all _ _ = []

abbrev pub with_flag : CraftItem → ℕ → List CraftItem → List ℕ → Outcome
with_flag main flag items counts = record {
  item = record main { flag = flag };
  effects =
      erase_all items counts
      ++ item_message main.handle ∷ mix_result (main.handle ∷ []) ∷ db_update main.handle ∷ [];
  success = true;
}

-- `int32_t` to the bits of the flag.
abbrev word : ℤ → ℕ
word (pos n) = n % 2 ^ 32
word (negsuc n) = 2 ^ 32 - 1 - n % 2 ^ 32

-- `MixManager::MixItem` and `MixManager::RepairItem`, with a main item.
unfoldable pub mix_item : MixBase → CraftItem → List CraftItem → List ℕ → Outcome
mix_item mb main items counts = with_flag main (word (mb.value 2)) items counts

unfoldable pub repair_item : CraftItem → List CraftItem → List ℕ → Outcome
repair_item main items counts =
    if main.flag == item_flag_failed
    then with_flag main item_flag_normal items counts
    else record { item = main; effects = []; success = true }

-- `MixManager::EnhanceSkillCard`: the cards and the cube among the items.
abbrev group_skillcard : ℤ
group_skillcard = pos 10

abbrev group_skill_cube : ℤ
group_skill_cube = pos 23

pub record SkillCards : Type 0 where
  pub main : Option CraftItem
  pub sec : Option CraftItem
  pub cube : Option CraftItem

abbrev with_card : CraftItem → SkillCards → SkillCards
with_card it s = elim s.main [
  | none ↦ record s { main = some it }
  | some m ↦ record s { sec = some it }
]

unfoldable pub sort_cards : List CraftItem → SkillCards → SkillCards
sort_cards [] s = s
sort_cards (it ∷ its) s = sort_cards its (
    if eqb_ℤ it.group group_skillcard
    then with_card it s
    else (if eqb_ℤ it.group group_skill_cube then record s { cube = some it } else s))

abbrev refused_cards : Run (List Effect)
refused_cards = ended (refused ∷ [])

abbrev card_roll : CraftItem → CraftItem → CraftItem → ℕ → ℕ → List Effect
card_roll main sec cube urand chance =
    if ltb chance urand
    then erase cube.handle 1 ∷ erase main.handle 1 ∷ erase sec.handle 1 ∷ mix_result [] ∷ []
    else erase cube.handle 1
      ∷ erase sec.handle 1
      ∷ set_enhance main.handle (main.enhance +ℤ pos 1)
      ∷ item_message main.handle
      ∷ mix_result (sec.handle ∷ [])
      ∷ db_update main.handle
      ∷ []

abbrev is_pair : CraftItem → CraftItem → Bool
is_pair main sec = eqb_ℤ main.code sec.code && eqb_ℤ main.enhance sec.enhance

abbrev use_cube : EnhanceInfo → ℕ → CraftItem → CraftItem → Option CraftItem → Run (List Effect)
use_cube info urand main sec none = faulted
use_cube info urand main sec (some cube) = elim (percentage_at info.percentage main.enhance) [
  | none ↦ faulted
  | some chance ↦ ended (card_roll main sec cube urand chance)
]

-- The main card is there whenever the second is.
unfoldable pub enhance_cards :
    ℕ → EnhanceInfo → Option CraftItem → Option CraftItem → Option CraftItem → Run (List Effect)
enhance_cards urand info (some main) (some sec) cube =
    if is_pair main sec then use_cube info urand main sec cube else refused_cards
enhance_cards urand info _ _ cube = refused_cards

unfoldable pub enhance_skill_card :
    List EnhanceInfo → MixBase → List CraftItem → ℕ → Run (List Effect)
enhance_skill_card infos mb items urand =
    if not (length items == 3) then ended [] else elim (get_enhance_info (mb.value 0) infos) [
      | none ↦ refused_cards
      | some info ↦
          let s = sort_cards items (record { main = none; sec = none; cube = none }) in
          enhance_cards urand info s.main s.sec s.cube
    ]
