-- ===== src/Regions/Crossing.antt =====
-- onMoveObject of Chihiro/src/World/World.cpp, which moves an object from the region of its old place to that of the new.
use rzemulator.Base.{
  ◌>>=◌, ℕ, ◌<◌, ◌≡◌, ◌≢◌, inl, inr, refl, sym, ap, ◌∙◌, subst, true, false, ◌&&◌, none, some, ◌==◌,
  arith, Bool-cases,
}
use rzemulator.Regions.{RegionContainer, World, leave_place, enter_place, on_move_object}
use rzemulator.Regions.Cells.{region_at, OnMap, get_region_off}
use rzemulator.Regions.Members.{IsNew}
use rzemulator.Regions.Kept.{IsKept, LiesAt, IsSound}
use rzemulator.Regions.Moves.{
  Moved, leave_place_lem, enter_place_lem, with_position, position_same, eq_or_ne,
  with_position-IsKept, Moved-IsSound,
}

Moved-Moved : {w w1 w2 : World} (p : ℕ) → Moved p w w1 → Moved p w1 w2 → Moved p w w2
Moved-Moved p m n = record {
  kept = n.kept;
  others = λ q ne. n.others q ne ∙ m.others q ne;
  same = λ q.
      let s = m.same q in
      let t = n.same q in (t.0 ∙ s.0, t.1 ∙ s.1, t.2 ∙ s.2, t.3 ∙ s.3, t.4 ∙ s.4);
  lies = λ q x y ne l. n.lies q x y ne (m.lies q x y ne l);
  widths = (n.widths.0 ∙ m.widths.0, n.widths.1 ∙ m.widths.1);
}

-- After an object has been taken out, no other one has its handle.
gone-IsNew :
    (w w' : World) (p r : ℕ)
    → IsKept w
    → (w.object p).region ≡ some r
    → Moved p w w'
    → (w'.object p).region ≡ none
    → IsNew w' p
gone-IsNew w w' p r k has m out q s e h = elim (eq_or_ne q p) [
  | inl same ↦ cc
  | inr ne ↦
      ne (
        k.placed.handles q p s r (sym (m.others q ne) ∙ e) has
          (sym (m.same q).0 ∙ h ∙ (m.same p).0))
]

crossed_lem :
    (w : World) (p r prx pry : ℕ)
    → IsKept w
    → (w.object p).region ≡ some r
    → LiesAt w p prx pry
    → OnMap w.container (w.object p).rx (w.object p).ry
    → (w' : World) × (r' : ℕ) × ((leave_place w p prx pry >>= λ w1. enter_place w1 p) ≡ some w')
      × Moved p w w'
      × ((w'.object p).region ≡ some r')
      × LiesAt w' p (w'.object p).rx (w'.object p).ry
crossed_lem w p r prx pry k has lies on =
    let (w2, gone, m, out, world) = leave_place_lem w p r prx pry k has lies in
    let f = m.same p in
    let widths = m.widths in
    let (w3, w', r', found, done, n, has', lies') =
      enter_place_lem w2 p m.kept out (gone-IsNew w w2 p r k has m out)
        (omega arith, omega arith) in
    let entered : enter_place w2 p ≡ some w' = unfold enter_place in rw (found, done) in
    (w', r', rw gone entered, Moved-Moved p m n, has', lies')

both_eq : (a b c d : ℕ) → (a == b && c == d) ≡ true → (a ≡ b) × (c ≡ d)
both_eq a b c d h = ground arith

not_both :
    (a b c d : ℕ) {m n : ℕ} → (a < m) × (c < n) → ¬ ((b < m) × (d < n)) → (a == b && c == d) ≡ false
not_both a b c d on off = elim (Bool-cases (a == b && c == d)) [
  | inl e ↦ let (f, g) = both_eq a b c d e in absurd (off (omega arith, omega arith))
  | inr e ↦ e
]

moved_place :
    (c : RegionContainer) (a b a' b' l l' r : ℕ)
    → a ≡ a'
    → b ≡ b'
    → l ≡ l'
    → region_at c a b l ≡ some r
    → region_at c a' b' l' ≡ some r
moved_place c a b a' b' l l' r e f g at =
    ap (λ n. region_at c n b' l') (sym e)
    ∙ ap (λ n. region_at c a n l') (sym f)
    ∙ ap (λ n. region_at c a b n) (sym g)
    ∙ at

module _ (w : World) (p x y : ℕ) (s : IsSound w) where
  abbrev shifted : World
  shifted = with_position w p x y

  others_lie : (q : ℕ) → q ≢ p → LiesAt shifted q (shifted.object q).rx (shifted.object q).ry
  others_lie q ne = let same : shifted.object q ≡ w.object q = ground arith in rw same (s.located q)

  old_place : LiesAt shifted p (w.object p).rx (w.object p).ry
  old_place q e =
      let fields = position_same w p x y p in rw fields.3 (s.located p q (sym fields.0 ∙ e))

  shifted-IsSound : (w.object p).rx ≡ x → (w.object p).ry ≡ y → IsSound shifted
  shifted-IsSound e f = record {
    kept = with_position-IsKept w p x y s.kept;
    located = λ q. elim (eq_or_ne q p) [
      | inl same ↦
          subst (λ n. LiesAt shifted n (shifted.object n).rx (shifted.object n).ry) (sym same)
            (own_place e f)
      | inr ne ↦ others_lie q ne
    ];
  }
    where
      own_place :
          (w.object p).rx ≡ x
          → (w.object p).ry ≡ y
          → LiesAt shifted p (shifted.object p).rx (shifted.object p).ry
      own_place e f =
          let own : ((shifted.object p).rx ≡ x) × ((shifted.object p).ry ≡ y) = ground arith in
          subst (λ n. LiesAt shifted p n (shifted.object p).ry) (e ∙ sym own.0)
            (subst (λ n. LiesAt shifted p (w.object p).rx n) (f ∙ sym own.1) old_place)

-- An object that has a region and has come to other coordinates on the map has the region of its new place after
-- onMoveObject, each other object keeps its own, and the world is sound again; no assertion fails.
pub on_move_object_lem :
    (w : World) (p r x y : ℕ)
    → IsSound w
    → (w.object p).region ≡ some r
    → OnMap w.container x y
    → (w' : World) × (r' : ℕ) × (on_move_object
          (with_position w p x y)
          p
          (w.object p).rx
          (w.object p).ry
        ≡ some w')
      × IsSound w'
      × ((w'.object p).region ≡ some r')
      × (region_at w'.container x y (w.object p).layer ≡ some r')
      × ((q : ℕ) → q ≢ p → (w'.object q).region ≡ (w.object q).region)
unfolding on_move_object
on_move_object_lem w p r x y s has on =
    let w0 = with_position w p x y in
    let fields = position_same w p x y p in
    let has0 : (w0.object p).region ≡ some r = fields.0 ∙ has in
    let own : ((w0.object p).rx ≡ x) × ((w0.object p).ry ≡ y) = ground arith in
    let (w', r', run, m, has', lies) =
      crossed_lem w0 p r (w.object p).rx (w.object p).ry (with_position-IsKept w p x y s.kept) has0
        (old_place w p x y s) (rw (own.0, own.1) on) in
    elim (Bool-cases ((w.object p).rx == x && (w.object p).ry == y)) [
      | inl still ↦
          let (e, f) = both_eq (w.object p).rx x (w.object p).ry y still in
          let sound = shifted-IsSound w p x y s e f in
          (
            w0,
            r,
            rw (own.0, own.1, still) refl,
            sound,
            has0,
            moved_place w.container (w0.object p).rx (w0.object p).ry x y (w0.object p).layer
                (w.object p).layer r own.0 own.1 fields.3 (sound.located p r has0).1,
            λ q ne. (position_same w p x y q).0,
          )
      | inr goes ↦
          let f = m.same p in
          (
            w',
            r',
            rw (own.0, own.1, goes) run,
            Moved-IsSound w0 w' p m (λ q ne. others_lie w p x y s q ne) lies,
            has',
            moved_place w'.container (w'.object p).rx (w'.object p).ry x y (w'.object p).layer
                (w.object p).layer r' (f.2 ∙ own.0) (f.3 ∙ own.1) (f.4 ∙ fields.3) (lies r' has').1,
            λ q ne. m.others q ne ∙ (position_same w p x y q).0,
          )
    ]

-- An object that has a region and has come to coordinates outside the map: onMoveObject calls AddObject through a null
-- pointer.
pub on_move_object_off :
    (w : World) (p r x y : ℕ)
    → IsSound w
    → (w.object p).region ≡ some r
    → ¬ OnMap w.container x y
    → on_move_object (with_position w p x y) p (w.object p).rx (w.object p).ry ≡ none
unfolding on_move_object enter_place
on_move_object_off w p r x y s has off =
    let w0 = with_position w p x y in
    let fields = position_same w p x y p in
    let own : ((w0.object p).rx ≡ x) × ((w0.object p).ry ≡ y) = ground arith in
    let (w2, gone, m, out, world) =
      leave_place_lem w0 p r (w.object p).rx (w.object p).ry (with_position-IsKept w p x y s.kept)
        (fields.0 ∙ has) (old_place w p x y s) in
    let f = m.same p in
    let widths = m.widths in
    let far : ¬ OnMap w2.container (w2.object p).rx (w2.object p).ry = λ on. off (omega arith) in
    let goes : ((w.object p).rx == x && (w.object p).ry == y) ≡ false =
      not_both (w.object p).rx x (w.object p).ry y (s.located p r has).0 off in
    let none_there = get_region_off w2 (w2.object p).rx (w2.object p).ry (w2.object p).layer far in
    rw (own.0, own.1, goes, gone, none_there) refl
