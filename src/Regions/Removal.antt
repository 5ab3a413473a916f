-- ===== src/Regions/Removal.antt =====
-- `RemoveObject` of Chihiro/src/Map/Region.cpp, where the last object of the list moves into the gap.
use rzemulator.Base.{
  ℕ, ◌+◌, ◌-◌, ◌<◌, ◌≡◌, ◌≢◌, inl, inr, refl, sym, ap, ap₂, ◌∙◌, Bool, true, false, not, ◌&&◌, none,
  some, List, length, get_elem?, ◌==◌, ltb, if◌then◌else◌, arith, Bool-cases, Option-cases,
}
use rzemulator.Base.Vectors.{
  last?, drop_last, get_elem?-lt, last?-get_elem?, get_elem?-moved, last?-ne-none,
}
use rzemulator.Base.Int.{ℤ, pos, negsuc}
use rzemulator.Regions.{
  ObjType, World, at_subscript, set_subscript, is_region, take_out, remove_object,
}
use rzemulator.Regions.Members.{
  same_type, same_type-eq, same_type_refl, members, members_after, IsPlaced, Keeps,
}

at_subscript-pos :
    (xs : List ℕ) (z : ℤ) (q : ℕ)
    → at_subscript xs z ≡ some q
    → (i : ℕ) × (z ≡ pos i) × (get_elem? xs i ≡ some q)
unfolding at_subscript
at_subscript-pos xs (pos i) q e = (i, refl, e)
at_subscript-pos xs (negsuc i) q e = cc

module _ (w : World) (placed : IsPlaced w) (r p i b : ℕ) (here : (w.object p).region ≡ some r)
    (index : (w.object p).region_index ≡ pos i)
    (at : get_elem? (members w r (w.object p).obj_type) i ≡ some p)
    (last : last? (members w r (w.object p).obj_type) ≡ some b) where
  abbrev type_of : ObjType
  type_of = (w.object p).obj_type

  abbrev old : List ℕ
  old = members w r type_of

  below : r < w.next_region
  below = (placed.member r p here).1

  in_list : i < length old
  in_list = get_elem?-lt old i p at

  at_end : get_elem? old (length old - 1) ≡ some b
  at_end = last?-get_elem? old b last

  abbrev moves : Bool
  moves = not ((w.object b).handle == (w.object p).handle)

  moves_lem : moves ≡ not (b == p)
  moves_lem =
      let l = placed.listed r b (length old - 1) type_of below at_end in
      ground (arith, placed.handles b p r r l.0 here)

  abbrev after : List ℕ
  after = drop_last (if moves then set_subscript old (w.object p).region_index b else old)

  get_elem?-after :
      (j : ℕ)
      → get_elem? after j ≡ (
          if ltb (j + 1) (length old)
          then (if not (b == p) && (i == j) then some b else get_elem? old j)
          else none)
  unfolding set_subscript
  get_elem?-after j = rw (moves_lem, index) (get_elem?-moved old (not (b == p)) i b j in_list)

  abbrev left : World
  left = take_out w r p b

  left_object :
      (q : ℕ)
      → left.object q ≡ (
          if p == q
          then (record (w.object q) { region_index = negsuc 0; region = none; in_world = false })
          else if b == q
          then (record (w.object q) { region_index = pos i })
          else w.object q)
  unfolding take_out
  left_object q = ground (arith, moves_lem, index)

  left_members :
      (s : ℕ) (u : ObjType)
      → members left s u ≡ (if r == s && same_type type_of u then after else members w s u)
  unfolding take_out
  left_members s u = members_after w r s type_of u after

  -- An object of another list is none of this one.
  elsewhere :
      (s q v : ℕ) (u : ObjType)
      → (r == s && same_type type_of u) ≡ false
      → (w.object q).region ≡ some s
      → (w.object q).obj_type ≡ u
      → (w.object v).region ≡ some r
      → (w.object v).obj_type ≡ type_of
      → q ≢ v
  elsewhere s q v u other e f g h same =
      let own = same_type_refl type_of in
      let t : u ≡ type_of = sym f ∙ ap (λ n. (w.object n).obj_type) same ∙ h in
      let hit : same_type type_of u ≡ true = rw t own in
      let rs : some r ≡ some s = sym g ∙ ap (λ n. (w.object n).region) (sym same) ∙ e in
      ground (arith, other, hit, rs)

  left_listed :
      (s q j : ℕ) (u : ObjType)
      → s < w.next_region
      → get_elem? (members left s u) j ≡ some q
      → ((left.object q).region ≡ some s)
        × ((left.object q).region_index ≡ pos j)
        × ((left.object q).obj_type ≡ u)
  left_listed s q j u lt e =
      let e' = ap (λ us. get_elem? us j) (sym (left_members s u)) ∙ e in
      let end = placed.listed r b (length old - 1) type_of below at_end in
      elim (Bool-cases (r == s && same_type type_of u)) [
        | inl same ↦
            let t = same_type-eq type_of u (ground (arith, same)) in
            ground (
              arith,
              e',
              left_object q,
              get_elem?-after j,
              placed.listed r q j type_of below,
              end,
              t,
            )
        | inr other ↦
            let before = placed.listed s q j u lt (ground (arith, e', other)) in
            ground (
              arith,
              before,
              left_object q,
              elsewhere s q p u other before.0 before.2 here refl,
              elsewhere s q b u other before.0 before.2 end.0 end.2,
            )
      ]

  not_last : (k v : ℕ) → get_elem? old k ≡ some v → b ≢ v → k + 1 < length old
  not_last k v e ne = ground (arith, get_elem?-lt old k v e, at_end)

  -- Where an object that stays is after the move.
  at_new_index :
      (q j : ℕ)
      → p ≢ q
      → (w.object q).region_index ≡ pos j
      → get_elem? old j ≡ some q
      → at_subscript after (left.object q).region_index ≡ some q
  unfolding at_subscript
  at_new_index q j ne z found = elim (Bool-cases (b == q)) [
    | inl bq ↦
        let moved : (left.object q).region_index ≡ pos i = ground (arith, left_object q, ne, bq) in
        let far : b ≢ p = ground (arith, bq) in
        rw moved (ground (arith, get_elem?-after i, not_last i p at far, bq, far))
    | inr stays ↦
        let kept : (left.object q).region_index ≡ pos j =
          ground (arith, left_object q, ne, stays, z) in
        let apart : i ≢ j = λ same. ground (arith, at, found, same, ne) in
        rw kept (ground (arith, get_elem?-after j, not_last j q found, stays, apart, found))
  ]

  left_member :
      (s q : ℕ)
      → (left.object q).region ≡ some s
      → (at_subscript (members left s (left.object q).obj_type) (left.object q).region_index
          ≡ some q)
        × (s < w.next_region)
  left_member s q e =
      let ne : p ≢ q = λ same. ground (arith, e, left_object q, same) in
      let before : (w.object q).region ≡ some s = ground (arith, e, left_object q, ne) in
      let (was, lt) = placed.member s q before in
      let u = (w.object q).obj_type in
      let (j, z, found) = at_subscript-pos (members w s u) (w.object q).region_index q was in
      let kept : (left.object q).obj_type ≡ u = ground (arith, left_object q) in
      let end = placed.listed r b (length old - 1) type_of below at_end in
      rw (kept, left_members s u)
        (elim (Bool-cases (r == s && same_type type_of u)) [
          | inl same ↦
              let t = same_type-eq type_of u (ground (arith, same)) in
              let rs : r ≡ s = ground (arith, same) in
              let found' : get_elem? old j ≡ some q =
                ap₂ (λ n v. get_elem? (members w n v) j) rs t ∙ found in
              rw same (at_new_index q j ne z found', lt)
          | inr other ↦
              let nb = elsewhere s q b u other before refl end.0 end.2 in
              let index' : (left.object q).region_index ≡ (w.object q).region_index =
                ground (arith, left_object q, ne, nb) in
              rw other (ap (at_subscript (members w s u)) index' ∙ was, lt)
        ])

  left-IsPlaced : IsPlaced left
  unfolding take_out
  left-IsPlaced = record {
    listed = λ s q j u lt e. left_listed s q j u lt e;
    member = λ s q e. left_member s q e;
    handles =
        λ u v s s' e f h. ground (arith, left_object u, left_object v, placed.handles u v s s');
  }

  left-Keeps : Keeps p w left
  unfolding take_out
  left-Keeps = record {
    container = refl;
    next_region = refl;
    others = λ q ne. ground (arith, left_object q);
    same = λ q. ground (arith, left_object q);
  }

-- Taking out an object that has the region stops at no assertion, and leaves the other objects where they are.
pub remove_object-IsPlaced :
    (w : World) (r p : ℕ)
    → IsPlaced w
    → (w.object p).region ≡ some r
    → (w' : World) × (remove_object w r p ≡ some w')
      × IsPlaced w'
      × Keeps p w w'
      × ((w'.object p).region ≡ none)
      × ((w'.object p).in_world ≡ false)
unfolding remove_object is_region
remove_object-IsPlaced w r p placed here =
    let t = (w.object p).obj_type in
    let list = members w r t in
    let (was, below) = placed.member r p here in
    let (i, index, at) = at_subscript-pos list (w.object p).region_index p was in
    elim (Option-cases (last? list)) [
      | inl empty ↦ absurd (last?-ne-none list i p at empty)
      | inr (b, last) ↦
          let gone = left_object w placed r p i b here index at last p in
          (
            take_out w r p b,
            rw (last, was) (ground (arith, here)),
            left-IsPlaced w placed r p i b here index at last,
            left-Keeps w placed r p i b here index at last,
            ground (arith, gone),
            ground (arith, gone),
          )
    ]
