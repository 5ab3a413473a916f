-- ===== src/Crafting/Request.antt =====
-- Chihiro/src/Network/GameNetwork/WorldSession.cpp: onMixRequest, with check_mixable_item of Crafting/MixManager.cpp.
-- The memory pool and `IsMixable` are arguments. Every object that the pool finds
-- is an item, and none has the handle 0.
use rzemulator.Base.{
  ℕ, Bool, true, false, not, ◌&&◌, Option, none, some, List, [], ◌∷◌, length, ◌==◌, ltb,
  if◌then◌else◌, bit_and,
}
use rzemulator.Base.Int.{ℤ, pos, ltb_ℤ}
use rzemulator.Crafting.{
  CraftItem, MixBase, mix_enhance, mix_enhance_skill_card, mix_enhance_without_fail,
  mix_add_level_set_flag, mix_restore_enhance_set_flag, get_proper_mix_info,
}
use rzemulator.Crafting.Enhance.{
  EnhanceInfo, Effect, refused, kicked, Run, ended, faulted, endless, Outcome, enhance_item,
  enhance_skill_card, mix_item, repair_item,
}

-- `TS_CS_MIX`: a handle, and handles with counts of 16 bits.
pub record MixRequest : Type 0 where
  pub main_item : ℕ
  pub sub_items : List (ℕ × ℕ)

-- What the handler uses of the rest of the server.
pub record Workshop : Type 0 where
  pub mix_infos : List MixBase
  pub enhance_infos : List EnhanceInfo
  pub find_item : ℕ → Option CraftItem
  pub is_mixable : CraftItem → Bool
  pub irand : ℤ → ℤ → ℤ
  pub urand : ℕ

-- The effects of a request, and the main item afterwards.
pub record Reply : Type 0 where
  pub main : Option CraftItem
  pub effects : List Effect

module _ (shop : Workshop) where
  -- `MixManager::check_mixable_item`.
  abbrev may_mix : CraftItem → ℕ → Bool
  may_mix it count =
      not (ltb_ℤ it.count (pos count)) && (bit_and it.status_flag 4 == 0) && shop.is_mixable it

  unfoldable pub check_mixable_item : ℕ → ℕ → List Effect × Option CraftItem
  check_mixable_item handle count = elim (shop.find_item handle) [
    | none ↦ ([], none)
    | some it ↦ if may_mix it count then ([], some it) else (refused ∷ [], none)
  ]

  -- The loop over the other items: what it sends, or the items and counts.
  abbrev pub cons_item :
      CraftItem
      → ℕ
      → List Effect × Option (List CraftItem × List ℕ)
      → List Effect × Option (List CraftItem × List ℕ)
  cons_item it count (es, none) = (es, none)
  cons_item it count (es, some (its, cs)) = (es, some (it ∷ its, count ∷ cs))

  unfoldable pub find_items : List (ℕ × ℕ) → List Effect × Option (List CraftItem × List ℕ)
  find_items [] = ([], some ([], []))
  find_items ((handle, count) ∷ rest) =
      let (es, found) = check_mixable_item handle count in
      elim found [ none ↦ (es, none) | some it ↦ cons_item it count (find_items rest) ]

  abbrev outcome_of : Run Outcome → Run Reply
  outcome_of (ended o) = ended (record { main = some o.item; effects = o.effects })
  outcome_of faulted = faulted
  outcome_of endless = endless

  abbrev reply_of : Option CraftItem → Run (List Effect) → Run Reply
  reply_of main (ended es) = ended (record { main = main; effects = es })
  reply_of main faulted = faulted
  reply_of main endless = endless

  abbrev pub reply : Option CraftItem → List Effect → Run Reply
  reply main es = ended (record { main = main; effects = es })

  -- The recipe's operation on a main item.
  unfoldable pub run_mix : ℕ → MixBase → CraftItem → List CraftItem → List ℕ → Run Reply
  run_mix fuel mb main items counts = elim mb.type_ [
    | mix_enhance ↦
        outcome_of (enhance_item fuel shop.enhance_infos mb main items shop.irand shop.urand)
    | mix_enhance_without_fail ↦
        outcome_of (enhance_item fuel shop.enhance_infos mb main items shop.irand shop.urand)
    | mix_enhance_skill_card ↦
        reply_of (some main) (enhance_skill_card shop.enhance_infos mb items shop.urand)
    | mix_add_level_set_flag ↦ outcome_of (ended (mix_item mb main items counts))
    | mix_restore_enhance_set_flag ↦ outcome_of (ended (repair_item main items counts))
    | _ ↦ reply (some main) []
  ]

  -- Without a main item only EnhanceSkillCard does anything.
  unfoldable pub run_without_main : MixBase → List CraftItem → Run Reply
  run_without_main mb items = elim mb.type_ [
    | mix_enhance_skill_card ↦
        reply_of none (enhance_skill_card shop.enhance_infos mb items shop.urand)
    | _ ↦ reply none []
  ]

  unfoldable pub mix_found : ℕ → Option CraftItem → List CraftItem → List ℕ → Run Reply
  mix_found fuel main items counts = elim (get_proper_mix_info shop.mix_infos main items counts) [
    | none ↦ faulted
    | some (counts', none) ↦ reply main (refused ∷ [])
    | some (counts', some mb) ↦ elim main [
      | none ↦ run_without_main mb items
      | some it ↦ run_mix fuel mb it items counts'
    ]
  ]

  abbrev pub is_null : Option CraftItem → Bool
  is_null none = true
  is_null (some it) = false

  unfoldable pub mix_items : ℕ → Option CraftItem → List (ℕ × ℕ) → Run Reply
  mix_items fuel main sub_items =
      let (es, found) = find_items sub_items in
      elim found [ none ↦ reply main es | some (items, counts) ↦ mix_found fuel main items counts ]

  -- `WorldSession::onMixRequest`.
  unfoldable pub on_mix_request : ℕ → MixRequest → Run Reply
  on_mix_request fuel request =
      if ltb 9 (length request.sub_items)
      then reply none (kicked ∷ [])
      else (let (es, main) = check_mixable_item request.main_item 1 in
          if not (request.main_item == 0) && is_null main
          then reply main es
          else mix_items fuel main request.sub_items)
