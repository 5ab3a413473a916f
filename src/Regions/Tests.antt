-- ===== src/Regions/Tests.antt =====
-- Two objects on a map of 200 by 200 regions.
use rzemulator.Base.{ℕ, ◌≡◌, ◌≢◌, refl, none, some, Option, false, [], not, ◌&&◌, arith}
use rzemulator.Base.Int.{negsuc}
use rzemulator.Regions.{
  init_region, obj_client, WorldObject, Region, World, add_object_to_world,
  remove_object_from_world, on_move_object,
}
use rzemulator.Regions.Cells.{region_at}
use rzemulator.Regions.Kept.{IsSound}
use rzemulator.Regions.Moves.{with_position, remove_object_from_world_lem}
use rzemulator.Regions.Crossing.{on_move_object_lem, on_move_object_off}
use rzemulator.Regions.Sight.{do_each_visible_region, do_each_visible_region2, do_each_new_region}
use rzemulator.Regions.Visible.{Visits, is_shown, is_near, visible_lem, new_lem, low_columns_unseen}
use rzemulator.Regions.History.{start, here, next, enters, start-IsSound, Reached-IsSound}

-- The object `p` has the handle `p` and stands at (5, 7).
abbrev standing : ℕ → WorldObject
standing p = record {
  handle = p;
  obj_type = obj_client;
  region = none;
  region_index = negsuc 0;
  in_world = false;
  rx = 5;
  ry = 7;
  layer = 0;
}

abbrev blank : ℕ → Region
blank r = record {
  x = 0;
  y = 0;
  layer = 0;
  static_objects = [];
  movable_objects = [];
  client_objects = [];
}

abbrev empty_map : World
empty_map = start 200 200 standing blank

empty_map-IsSound : IsSound empty_map
empty_map-IsSound = start-IsSound 200 200 standing blank (omega arith) (λ p. refl)

abbrev world_of : Option World → World
world_of none = empty_map
world_of (some w) = w

one_object : World
unfolding add_object_to_world
one_object = world_of (add_object_to_world empty_map 3)

one_entered : add_object_to_world empty_map 3 ≡ some one_object
unfolding one_object add_object_to_world init_region
one_entered = refl

Reached-IsSound_example : IsSound one_object
unfolding init_region
Reached-IsSound_example =
    Reached-IsSound 200 200 standing blank one_object (omega arith) (λ p. refl)
      (next here (enters 3 refl (λ q s e h. cc) (omega arith, omega arith) one_entered))

has_region : (one_object.object 3).region ≡ some 0
unfolding one_object add_object_to_world init_region
has_region = refl

widths : (one_object.container.region_width ≡ 200) × (one_object.container.region_height ≡ 200)
unfolding one_object add_object_to_world init_region
widths = (refl, refl)

on_move_object_lem_example :
    (w' : World) × (r' : ℕ) × (on_move_object
        (with_position one_object 3 150 9)
        3
        (one_object.object 3).rx
        (one_object.object 3).ry
      ≡ some w')
    × IsSound w'
    × ((w'.object 3).region ≡ some r')
    × (region_at w'.container 150 9 (one_object.object 3).layer ≡ some r')
    × ((q : ℕ) → q ≢ 3 → (w'.object q).region ≡ (one_object.object q).region)
on_move_object_lem_example =
    on_move_object_lem one_object 3 0 150 9 Reached-IsSound_example has_region
      (let w = widths in (omega arith, omega arith))

remove_object_from_world_lem_example :
    (w' : World) × (remove_object_from_world one_object 3 ≡ some w')
    × IsSound w'
    × ((w'.object 3).region ≡ none)
    × ((q : ℕ) → q ≢ 3 → (w'.object q).region ≡ (one_object.object q).region)
remove_object_from_world_lem_example =
    remove_object_from_world_lem one_object 3 0 Reached-IsSound_example has_region

on_move_object_off_example :
    on_move_object
      (with_position one_object 3 200 9)
      3
      (one_object.object 3).rx
      (one_object.object 3).ry
    ≡ none
on_move_object_off_example =
    on_move_object_off one_object 3 0 200 9 Reached-IsSound_example has_region
      (let w = widths in λ on. omega arith)

visible_lem_example :
    Visits one_object 0
      (is_shown one_object.container 4 196)
      (do_each_visible_region one_object 4 196 0)
visible_lem_example =
    let w = widths in
    visible_lem one_object 4 196 0 Reached-IsSound_example.kept.sized (omega arith, omega arith)
      (omega arith) (omega arith)

new_lem_example :
    Visits one_object 0
      (λ x y. is_shown one_object.container 5 7 x y && not (is_near 4 7 x y))
      (do_each_new_region one_object 5 7 4 7 0)
new_lem_example =
    let w = widths in
    new_lem one_object 5 7 0 Reached-IsSound_example.kept.sized (omega arith, omega arith)
      (omega arith) (omega arith) 4 7 (omega arith, omega arith)

low_columns_unseen_example : do_each_visible_region2 one_object 1 7 2 8 0 ≡ some ([], one_object)
low_columns_unseen_example =
    let w = widths in
    low_columns_unseen one_object 1 7 2 8 0 (omega arith) (omega arith) (omega arith) (omega arith)
