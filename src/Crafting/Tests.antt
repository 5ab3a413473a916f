-- ===== src/Crafting/Tests.antt =====
-- A sword that is enhanced with a cube, and two items that a recipe asks for.
use rzemulator.Base.{
  ℕ, ◌≡◌, ◌==◌, if◌then◌else◌, refl, ap, none, some, Option, true, false, List, [], ◌∷◌, ◌++◌,
  arith, ◌⊎◌, inl,
}
use rzemulator.Base.Int.{pos, ◌+ℤ◌, ◌-ℤ◌, ◌≤ℤ◌}
use rzemulator.Crafting.{
  CraftItem, MaterialInfo, MixBase, MixType, mix_enhance, mix_enhance_without_fail,
  mix_add_level_set_flag, no_check, check_item_id, check_flag_off, slots_of, arrange,
  get_proper_mix_info, meets, check_material_info, find_slot, after_arrange, try_mix_info,
  post_arrange_checks, post_arrange_check_material_info,
}
use rzemulator.Crafting.Enhance.{
  EnhanceInfo, get_enhance_info, ended, faulted, endless, Outcome, enhance_item, enhance_with,
  cube_and_powder, item_enhance, roll, refusal, erase, item_message, mix_result, db_update,
  mix_item,
}
use rzemulator.Crafting.Request.{
  Workshop, MixRequest, check_mixable_item, find_items, on_mix_request,
}
use rzemulator.Crafting.Arrange.{all_own, chosen, passes, arrange_lem}
use rzemulator.Crafting.Single.{AllHave, one_each}
use rzemulator.Crafting.Takes.{takes_one_each}
use rzemulator.Crafting.Levels.{enhance_item_lem}
use rzemulator.Crafting.Failures.{fail_never_ends, protected_then_faults, below_zero}
use rzemulator.Crafting.Registry.{register_all, register_all_lem}

abbrev item_of : ℕ → ℕ → CraftItem
item_of h c = record {
  handle = h;
  item_type = 0;
  group = pos 1;
  item_class = pos 0;
  code = pos c;
  rank = pos 1;
  level = pos 1;
  flag = 0;
  enhance = pos 0;
  wear_type = pos 0;
  count = pos 20;
  status_flag = 0;
}

abbrev has_code : ℕ → MaterialInfo
has_code c = record {
  first = record { type_ = check_item_id; value = pos c };
  others = record { type_ = check_flag_off; value = pos 3 } ∷ [];
}

abbrev nothing_needed : MaterialInfo
nothing_needed = record { first = record { type_ = no_check; value = pos 0 }; others = [] }

abbrev two_codes : List MaterialInfo
two_codes =
    has_code 7
    ∷ has_code 8
    ∷ nothing_needed
    ∷ nothing_needed
    ∷ nothing_needed
    ∷ nothing_needed
    ∷ nothing_needed
    ∷ nothing_needed
    ∷ nothing_needed
    ∷ []

-- The items fit in this order, and not in the other.
arrange_lem_example :
    (arrange 2 (slots_of two_codes (item_of 1 7 ∷ item_of 2 8 ∷ []) (5 ∷ 6 ∷ []))).1
    ≡ some (chosen two_codes (item_of 1 7 ∷ item_of 2 8 ∷ []))
unfolding all_own passes meets
arrange_lem_example =
    arrange_lem two_codes (item_of 1 7 ∷ item_of 2 8 ∷ []) (5 ∷ 6 ∷ []) refl (omega arith)

swapped_run :
    (arrange 2 (slots_of two_codes (item_of 2 8 ∷ item_of 1 7 ∷ []) (5 ∷ 6 ∷ []))).1 ≡ none
unfolding arrange slots_of find_slot check_material_info meets
swapped_run = refl

abbrev flag_mix : MixBase
flag_mix = record {
  id = pos 1;
  type_ = mix_add_level_set_flag;
  value = λ i. pos 4;
  sub_material_cnt = 2;
  main_material = has_code 3;
  sub_material = two_codes;
}

abbrev found_item : ℕ → Option CraftItem
found_item h =
    if h == 1
    then some (item_of 1 7)
    else (if h == 2 then some (item_of 2 8) else (if h == 3 then some (item_of 3 3) else none))

abbrev shop : Workshop
shop = record {
  mix_infos = flag_mix ∷ [];
  enhance_infos = [];
  find_item = found_item;
  is_mixable = λ it. true;
  irand = λ a b. a;
  urand = 0;
}

abbrev asked : MixRequest
asked = record { main_item = 3; sub_items = (1, 5) ∷ (2, 6) ∷ [] }

takes_one_each_example :
    on_mix_request shop 0 asked
    ≡ ended (record {
      main =
          some (mix_item flag_mix (item_of 3 3) (item_of 1 7 ∷ item_of 2 8 ∷ []) (1 ∷ 1 ∷ [])).item;
      effects =
          one_each (item_of 1 7 ∷ item_of 2 8 ∷ [])
          ++ item_message 3 ∷ mix_result (3 ∷ []) ∷ db_update 3 ∷ [];
    })
unfolding check_mixable_item find_items get_proper_mix_info try_mix_info after_arrange
    post_arrange_checks post_arrange_check_material_info arrange slots_of find_slot
    check_material_info meets AllHave
takes_one_each_example =
    takes_one_each shop 0 asked (item_of 3 3) (item_of 1 7 ∷ item_of 2 8 ∷ []) (5 ∷ 6 ∷ [])
      (1 ∷ 1 ∷ []) flag_mix (omega arith) (omega arith, refl) refl refl refl refl

abbrev info : EnhanceInfo
info = record {
  sid = pos 9;
  fail_result = pos 0;
  max_enhance = pos 20;
  need_item_code = pos 5;
  percentage = 50000 ∷ 40000 ∷ [];
}

abbrev mix_of : MixType → MixBase
mix_of t = record {
  id = pos 2;
  type_ = t;
  value = λ i. if◌then◌else◌ (i == 0) (pos 9) (pos 2);
  sub_material_cnt = 1;
  main_material = has_code 3;
  sub_material = two_codes;
}

abbrev sword : CraftItem
sword = item_of 3 3

abbrev raised : Outcome
raised = record {
  item = record sword { enhance = pos 2 };
  effects = erase 4 1 ∷ item_message 3 ∷ mix_result (3 ∷ []) ∷ db_update 3 ∷ [];
  success = true;
}

enhance_item_lem_example : (pos 0 +ℤ pos 1 ≤ℤ pos 2) × (pos 2 ≤ℤ pos 20)
unfolding get_enhance_info enhance_item enhance_with cube_and_powder item_enhance roll ◌+ℤ◌
enhance_item_lem_example =
    enhance_item_lem 0 (info ∷ []) (mix_of mix_enhance) info sword (item_of 4 5 ∷ []) (λ a b. a) 100
      raised refl refl refl

fail_never_ends_example :
    enhance_item 1000 (info ∷ []) (mix_of mix_enhance) sword (item_of 4 5 ∷ []) (λ a b. a) 60000
    ≡ endless
unfolding get_enhance_info item_enhance ◌+ℤ◌
fail_never_ends_example =
    fail_never_ends 1000 (info ∷ []) (mix_of mix_enhance) info sword (item_of 4 5) [] (λ a b. a)
      60000 50000 refl refl refl (inl refl) refl refl (omega arith)

abbrev worn : CraftItem
worn = record sword { enhance = pos 0 -ℤ pos 1 }

abbrev lowered_sword : Outcome
lowered_sword = record {
  item = worn;
  effects = erase 4 1 ∷ erase 6 1 ∷ item_message 3 ∷ mix_result [] ∷ db_update 3 ∷ [];
  success = false;
}

abbrev cube_item : CraftItem
cube_item = record (item_of 4 5) { item_type = 4 }

protected_then_faults_example :
    (enhance_item 0 (info ∷ []) (mix_of mix_enhance) worn (item_of 4 5 ∷ []) (λ a b. a) 0
      ≡ refusal worn)
    ⊎ (enhance_item 0 (info ∷ []) (mix_of mix_enhance) worn (item_of 4 5 ∷ []) (λ a b. a) 0
        ≡ faulted)
unfolding get_enhance_info enhance_item enhance_with cube_and_powder item_enhance roll ◌+ℤ◌
protected_then_faults_example =
    protected_then_faults 0 (info ∷ []) (mix_of mix_enhance_without_fail) sword
      (item_of 6 6 ∷ cube_item ∷ []) (λ a b. a) 60000 lowered_sword refl refl refl refl
      (λ e. cc (below_zero (pos 0) refl, ap (λ i. i.enhance) e)) 0 (info ∷ []) (mix_of mix_enhance)
      (item_of 4 5 ∷ []) (λ a b. a) 0

register_all_run :
    get_enhance_info (pos 9) (register_all (info ∷ record info { max_enhance = pos 30 } ∷ []) [])
    ≡ some info
unfolding get_enhance_info
register_all_run = register_all_lem (pos 9) (info ∷ record info { max_enhance = pos 30 } ∷ []) []
