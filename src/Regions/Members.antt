-- ===== src/Regions/Members.antt =====
-- The lists of the regions and what the objects know of their places in them (Chihiro/src/Map/Region.cpp).
use rzemulator.Base.{
  ℕ, ◌-◌, ◌<◌, ◌≡◌, ◌≢◌, inl, inr, refl, sym, ap, ap₂, ◌∙◌, subst, Bool, true, false, ◌&&◌, none,
  some, List, [], ◌∷◌, ◌++◌, length, get_elem?, ◌==◌, if◌then◌else◌, arith, Bool-cases,
  length-append,
}
use rzemulator.Base.Vectors.{get_elem?-lt, get_elem?-snoc}
use rzemulator.Base.Int.{ℤ, pos, negsuc}
use rzemulator.Regions.{
  ObjType, obj_static, obj_movable, obj_client, Region, World, updated, list_of, with_list, is_null,
  add_object, at_subscript,
}

abbrev pub same_type : ObjType → ObjType → Bool
same_type obj_static obj_static = true
same_type obj_movable obj_movable = true
same_type obj_client obj_client = true
same_type obj_static obj_movable = false
same_type obj_static obj_client = false
same_type obj_movable obj_static = false
same_type obj_movable obj_client = false
same_type obj_client obj_static = false
same_type obj_client obj_movable = false

pub same_type-eq : (t u : ObjType) → same_type t u ≡ true → t ≡ u
same_type-eq obj_static obj_static e = refl
same_type-eq obj_movable obj_movable e = refl
same_type-eq obj_client obj_client e = refl
same_type-eq obj_static obj_movable e = cc
same_type-eq obj_static obj_client e = cc
same_type-eq obj_movable obj_static e = cc
same_type-eq obj_movable obj_client e = cc
same_type-eq obj_client obj_static e = cc
same_type-eq obj_client obj_movable e = cc

pub same_type_refl : (t : ObjType) → same_type t t ≡ true
same_type_refl obj_static = refl
same_type_refl obj_movable = refl
same_type_refl obj_client = refl

list_of-with_list :
    (x : Region) (t u : ObjType) (l : List ℕ)
    → list_of (with_list x t l) u ≡ (if same_type t u then l else list_of x u)
list_of-with_list x obj_static obj_static l = refl
list_of-with_list x obj_static obj_movable l = refl
list_of-with_list x obj_static obj_client l = refl
list_of-with_list x obj_movable obj_static l = refl
list_of-with_list x obj_movable obj_movable l = refl
list_of-with_list x obj_movable obj_client l = refl
list_of-with_list x obj_client obj_static l = refl
list_of-with_list x obj_client obj_movable l = refl
list_of-with_list x obj_client obj_client l = refl

-- The objects of type `t` in the region `r`.
abbrev pub members : World → ℕ → ObjType → List ℕ
members w r t = list_of (w.region r) t

pub members_after :
    (w : World) (r s : ℕ) (t u : ObjType) (l : List ℕ)
    → list_of (updated w.region r (with_list (w.region r) t l) s) u
      ≡ (if r == s && same_type t u then l else members w s u)
members_after w r s t u l = elim (Bool-cases (r == s)) [
  | inl e ↦
      let same : r ≡ s = ground (arith, e) in
      subst
        (λ n.
          list_of (updated w.region r (with_list (w.region r) t l) n) u
          ≡ (if r == n && same_type t u then l else members w n u))
        same
        (let own : (r == r) ≡ true = ground arith in rw own (list_of-with_list (w.region r) t u l))
  | inr ne ↦ rw ne refl
]

-- An entry of a region's list is an object that has the region, the index and the type; an object that has a region is
-- there in the list, and no two such objects have the same handle.
pub record IsPlaced (w : World) : Type 0 where
  pub listed :
      (r p i : ℕ) (t : ObjType)
      → r < w.next_region
      → get_elem? (members w r t) i ≡ some p
      → ((w.object p).region ≡ some r)
        × ((w.object p).region_index ≡ pos i)
        × ((w.object p).obj_type ≡ t)
  pub member :
      (r p : ℕ)
      → (w.object p).region ≡ some r
      → (at_subscript (members w r (w.object p).obj_type) (w.object p).region_index ≡ some p)
        × (r < w.next_region)
  pub handles :
      (p q r s : ℕ)
      → (w.object p).region ≡ some r
      → (w.object q).region ≡ some s
      → (w.object p).handle ≡ (w.object q).handle
      → p ≡ q

-- What an operation on the object `p` leaves alone.
pub record Keeps (p : ℕ) (w w' : World) : Type 0 where
  pub container : w'.container ≡ w.container
  pub next_region : w'.next_region ≡ w.next_region
  pub others : (q : ℕ) → q ≢ p → (w'.object q).region ≡ (w.object q).region
  pub same :
      (q : ℕ)
      → ((w'.object q).handle ≡ (w.object q).handle)
        × ((w'.object q).obj_type ≡ (w.object q).obj_type)
        × ((w'.object q).rx ≡ (w.object q).rx)
        × ((w'.object q).ry ≡ (w.object q).ry)
        × ((w'.object q).layer ≡ (w.object q).layer)

-- No object that has a region has this one's handle.
abbrev pub IsNew : World → ℕ → Type 0
IsNew w p = (q s : ℕ) → (w.object q).region ≡ some s → (w.object q).handle ≢ (w.object p).handle

at_subscript-snoc :
    (xs : List ℕ) (z : ℤ) (p q : ℕ)
    → at_subscript xs z ≡ some q
    → at_subscript (xs ++ p ∷ []) z ≡ some q
unfolding at_subscript
at_subscript-snoc xs (pos i) p q e = ground (arith, get_elem?-snoc xs p i, get_elem?-lt xs i q e)
at_subscript-snoc xs (negsuc i) p q e = cc

-- The world after an object has been put at the end of a region's list.
abbrev added : World → ℕ → ℕ → World
added w r p =
    let obj = w.object p in
    let l = members w r obj.obj_type ++ p ∷ [] in
    record w {
      region = updated w.region r (with_list (w.region r) obj.obj_type l);
      object =
          updated w.object p
            (record obj { in_world = true; region = some r; region_index = pos (length l - 1) });
    }

module _ (w : World) (placed : IsPlaced w) (r p : ℕ) (below : r < w.next_region)
    (out : (w.object p).region ≡ none) where
  abbrev type_of : ObjType
  type_of = (w.object p).obj_type

  abbrev old : List ℕ
  old = members w r type_of

  added_listed :
      (s q i : ℕ) (u : ObjType)
      → s < w.next_region
      → get_elem? (members (added w r p) s u) i ≡ some q
      → (((added w r p).object q).region ≡ some s)
        × (((added w r p).object q).region_index ≡ pos i)
        × (((added w r p).object q).obj_type ≡ u)
  added_listed s q i u lt e =
      let size = length-append old (p ∷ []) in
      let e' =
        ap (λ us. get_elem? us i) (sym (members_after w r s type_of u (old ++ p ∷ []))) ∙ e in
      elim (Bool-cases (r == s && same_type type_of u)) [
        | inl here ↦
            let same = same_type-eq type_of u (ground (arith, here)) in
            ground (arith, e', get_elem?-snoc old p i, placed.listed r q i type_of, same)
        | inr there ↦ ground (arith, e', placed.listed s q i u)
      ]

  added_member :
      (s q : ℕ)
      → ((added w r p).object q).region ≡ some s
      → (at_subscript
            (members (added w r p) s ((added w r p).object q).obj_type)
            ((added w r p).object q).region_index
          ≡ some q)
        × (s < w.next_region)
  unfolding at_subscript
  added_member s q e = elim (Bool-cases (p == q)) [
    | inl same ↦
        let size = length-append old (p ∷ []) in
        let own = same_type_refl type_of in
        let found = get_elem?-snoc old p (length old) in
        ground (arith, e, members_after w r s type_of type_of (old ++ p ∷ []), own, found)
    | inr other ↦
        let u = (w.object q).obj_type in
        let i = (w.object q).region_index in
        let before : (w.object q).region ≡ some s = ground (arith, e, other) in
        let (at, lt) = placed.member s q before in
        rw (other, members_after w r s type_of u (old ++ p ∷ []))
          (elim (Bool-cases (r == s && same_type type_of u)) [
            | inl here ↦
                let same = same_type-eq type_of u (ground (arith, here)) in
                let rs : r ≡ s = ground (arith, here) in
                let was : at_subscript old i ≡ some q =
                  ap₂ (λ n v. at_subscript (members w n v) i) rs same ∙ at in
                rw here (at_subscript-snoc old i p q was, lt)
            | inr there ↦ rw there (at, lt)
          ])
  ]

  -- Adding an object that has no region, under a handle of its own.
  pub add_object-IsPlaced :
      IsNew w p
      → (w' : World) × (add_object w r p ≡ some w')
        × IsPlaced w'
        × Keeps p w w'
        × ((w'.object p).region ≡ some r)
        × ((w'.object p).in_world ≡ true)
  unfolding add_object is_null
  add_object-IsPlaced new = (
    added w r p,
    rw out,
    record {
      listed = λ s q i u lt e. added_listed s q i u lt e;
      member = λ s q e. added_member s q e;
      handles = λ a b s s' e f h. ground (arith, placed.handles a b s s', new a s, new b s');
    },
    record {
      container = refl;
      next_region = refl;
      others = λ q ne. ground arith;
      same = λ q. ground arith;
    },
    ground arith,
    ground arith,
  )
