-- ===== src/Crafting/Takes.antt =====
-- Chihiro/src/Network/GameNetwork/WorldSession.cpp: what onMixRequest takes of the items of a request.
use rzemulator.Base.{
  ℕ, suc, ◌≤◌, ◌≡◌, refl, sym, ap, subst, ◌∙◌, false, Option, none, some, List, [], ◌∷◌, ◌++◌,
  length, arith, Option-cases, Bool-cases, inl, inr, ◌==◌, ltb,
}
use rzemulator.Crafting.{CraftItem, MixBase, mix_add_level_set_flag, get_proper_mix_info}
use rzemulator.Crafting.Enhance.{Effect, item_message, mix_result, db_update, ended, mix_item}
use rzemulator.Crafting.Request.{
  Workshop, MixRequest, find_items, check_mixable_item, on_mix_request, mix_items, mix_found,
  run_mix, cons_item,
}
use rzemulator.Crafting.Single.{AllHave, one_each, found_one_each}

AllHave-le : (n k : ℕ) (mbs : List MixBase) → n ≤ k → AllHave k mbs → AllHave n mbs
unfolding AllHave
AllHave-le n k [] h a = refl
AllHave-le n k (mb ∷ mbs) h (b, a) = (omega arith, AllHave-le n k mbs h a)

-- The items of a request have a count each.
abbrev Sized : ℕ → Option (List CraftItem × List ℕ) → Type 0
Sized n none = n ≡ n
Sized n (some (its, cs)) = (length its ≡ n) × (length cs ≡ n)

cons_item-Sized :
    (shop : Workshop) (it : CraftItem) (c n : ℕ)
    (r : List Effect × Option (List CraftItem × List ℕ))
    → Sized n r.1
    → Sized (suc n) (cons_item shop it c r).1
cons_item-Sized shop it c n (es, none) h = refl
cons_item-Sized shop it c n (es, some (its, cs)) (h, k) = (ap suc h, ap suc k)

cons_lem :
    (shop : Workshop) (handle count : ℕ) (it : CraftItem) (subs : List (ℕ × ℕ))
    → (check_mixable_item shop handle count).1 ≡ some it
    → find_items shop ((handle, count) ∷ subs) ≡ cons_item shop it count (find_items shop subs)
unfolding find_items
cons_lem shop handle count it subs found = rw (find_items, found) refl

find_items-Sized :
    (shop : Workshop) (subs : List (ℕ × ℕ)) → Sized (length subs) (find_items shop subs).1
unfolding find_items
find_items-Sized shop [] = (refl, refl)
find_items-Sized shop ((handle, count) ∷ subs) =
    elim (Option-cases (check_mixable_item shop handle count).1) [
      | inl missing ↦ rw (find_items, missing) refl
      | inr (it, found) ↦
          subst (λ r. Sized (suc (length subs)) r.1)
            (sym (cons_lem shop handle count it subs found))
            (cons_item-Sized shop it count (length subs) (find_items shop subs)
              (find_items-Sized shop subs))
    ]

few : (n : ℕ) → n ≤ 9 → ltb 9 n ≡ false
few n h = ground arith

main_passes :
    (shop : Workshop) (fuel : ℕ) (request : MixRequest) (main : CraftItem)
    → length request.sub_items ≤ 9
    → check_mixable_item shop request.main_item 1 ≡ ([], some main)
    → on_mix_request shop fuel request ≡ mix_items shop fuel (some main) request.sub_items
unfolding on_mix_request
main_passes shop fuel request main h m = elim (Bool-cases (request.main_item == 0)) [
  | inl e ↦ rw (on_mix_request, few (length request.sub_items) h, m, e) refl
  | inr e ↦ rw (on_mix_request, few (length request.sub_items) h, m, e) refl
]

subs_pass :
    (shop : Workshop) (fuel : ℕ) (main : CraftItem) (subs : List (ℕ × ℕ)) (its : List CraftItem)
    (cs cs' : List ℕ) (mb : MixBase)
    → find_items shop subs ≡ ([], some (its, cs))
    → get_proper_mix_info shop.mix_infos (some main) its cs ≡ some (cs', some mb)
    → mix_items shop fuel (some main) subs ≡ run_mix shop fuel mb main its cs'
unfolding mix_items mix_found
subs_pass shop fuel main subs its cs cs' mb s g = rw (mix_items, s, mix_found, g) refl

-- If a request of at most 9 other items passes the checks, the recipe that is found for it is of the type
-- MIX_ADD_LEVEL_SET_FLAG, and every recipe has 9 materials, then the handler takes one of each of the other items,
-- whatever counts the request and the recipe ask for, and then sends the main item, with its new flag.
pub takes_one_each :
    (shop : Workshop) (fuel : ℕ) (request : MixRequest) (main : CraftItem) (its : List CraftItem)
    (cs cs' : List ℕ) (mb : MixBase)
    → length request.sub_items ≤ 9
    → AllHave 9 shop.mix_infos
    → check_mixable_item shop request.main_item 1 ≡ ([], some main)
    → find_items shop request.sub_items ≡ ([], some (its, cs))
    → get_proper_mix_info shop.mix_infos (some main) its cs ≡ some (cs', some mb)
    → mb.type_ ≡ mix_add_level_set_flag
    → on_mix_request shop fuel request
      ≡ ended (record {
        main = some (mix_item mb main its cs').item;
        effects =
            one_each its
            ++ item_message main.handle
              ∷ mix_result (main.handle ∷ [])
              ∷ db_update main.handle
              ∷ [];
      })
unfolding run_mix mix_item
takes_one_each shop fuel request main its cs cs' mb h a m s g t =
    let (its_size, cs_size) =
      subst (Sized (length request.sub_items)) (ap (λ r. r.1) s)
        (find_items-Sized shop request.sub_items) in
    let one =
      found_one_each shop.mix_infos (some main) its cs cs' mb (omega arith)
        (AllHave-le (length its) 9 shop.mix_infos (omega arith) a) g in
    main_passes shop fuel request main h m
    ∙ subs_pass shop fuel main request.sub_items its cs cs' mb s g
    ∙ rw (run_mix, t, one) refl
