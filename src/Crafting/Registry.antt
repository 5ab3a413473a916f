-- ===== src/Crafting/Registry.antt =====
-- Chihiro/src/Crafting/MixManager.cpp: what is found after any registrations.
use rzemulator.Base.{
  ◌≡◌, refl, sym, ap, ◌∙◌, true, false, List, [], ◌∷◌, ◌++◌, arith, Bool-cases, inl, inr,
}
use rzemulator.Base.Int.{ℤ, eqb_ℤ}
use rzemulator.Crafting.Enhance.{EnhanceInfo, get_enhance_info, register_enhance_info, is_known}

-- `RegisterEnhanceInfo` for each row that is read, in order.
unfoldable pub register_all : List EnhanceInfo → List EnhanceInfo → List EnhanceInfo
register_all [] known = known
register_all (i ∷ is) known = register_all is (register_enhance_info i known)

different : (a b c : ℤ) → eqb_ℤ a b ≡ false → eqb_ℤ b c ≡ true → eqb_ℤ a c ≡ false
different a b c h k = ground arith

-- An entry with another number changes no search.
other_number :
    (sid : ℤ) (i : EnhanceInfo) (known is : List EnhanceInfo)
    → eqb_ℤ sid i.sid ≡ false
    → get_enhance_info sid (known ++ is) ≡ get_enhance_info sid (known ++ i ∷ is)
unfolding get_enhance_info
other_number sid i [] is e = simp e
other_number sid i (k ∷ known) is e = elim (Bool-cases (eqb_ℤ sid k.sid)) [
  | inl found ↦ simp found
  | inr past ↦ simp (past, other_number sid i known is e)
]

-- What stands behind an entry with the same number is never found.
hidden :
    (sid : ℤ) (i : EnhanceInfo) (known is : List EnhanceInfo)
    → is_known i.sid known ≡ true
    → get_enhance_info sid (known ++ is) ≡ get_enhance_info sid (known ++ i ∷ is)
unfolding get_enhance_info
hidden sid i [] is e = cc
hidden sid i (k ∷ known) is e = elim (Bool-cases (eqb_ℤ sid k.sid)) [
  | inl found ↦ simp found
  | inr past ↦ elim (Bool-cases (eqb_ℤ k.sid i.sid)) [
    | inl same ↦ simp (past, other_number sid i known is (different sid k.sid i.sid past same))
    | inr other ↦ simp (past, hidden sid i known is (grind (arith, e, other)))
  ]
]

append_assoc :
    (xs : List EnhanceInfo) (i : EnhanceInfo) (ys : List EnhanceInfo)
    → (xs ++ i ∷ []) ++ ys ≡ xs ++ i ∷ ys
append_assoc [] i ys = refl
append_assoc (x ∷ xs) i ys = ap (λ zs. x ∷ zs) (append_assoc xs i ys)

append_nil : (xs : List EnhanceInfo) → xs ++ [] ≡ xs
append_nil [] = refl
append_nil (x ∷ xs) = ap (λ zs. x ∷ zs) (append_nil xs)

register-get :
    (sid : ℤ) (i : EnhanceInfo) (known is : List EnhanceInfo)
    → get_enhance_info sid (register_enhance_info i known ++ is)
      ≡ get_enhance_info sid (known ++ i ∷ is)
unfolding register_enhance_info
register-get sid i known is = elim (Bool-cases (is_known i.sid known)) [
  | inl old ↦ rw old (hidden sid i known is old)
  | inr new ↦ rw new (ap (get_enhance_info sid) (append_assoc known i is))
]

-- getenhanceInfo finds the first of the registered rows that has the number, as if all had been kept,
-- behind what was known before.
pub register_all_lem :
    (sid : ℤ) (is known : List EnhanceInfo)
    → get_enhance_info sid (register_all is known) ≡ get_enhance_info sid (known ++ is)
unfolding register_all
register_all_lem sid [] known = ap (get_enhance_info sid) (sym (append_nil known))
register_all_lem sid (i ∷ is) known =
    register_all_lem sid is (register_enhance_info i known) ∙ register-get sid i known is
