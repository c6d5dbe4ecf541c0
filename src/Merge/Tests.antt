-- ===== src/Merge/Tests.antt =====
-- A patch of a small template, and the merge's theorems there.
use cloud_native_emulator.Prelude.{◌≡◌, refl, String, true, false, some, List, text_dec, ite}
use cloud_native_emulator.Prelude.Int.{ℤ, pos}
use cloud_native_emulator.Json.{Json, Fields, no_fields, field, object, integer, text}
use cloud_native_emulator.Merge.{get, set, deep_merge}
use cloud_native_emulator.Merge.Dots.{
  split_dots, place, expand_dot_keys, expand_fields, without, patched,
}
use cloud_native_emulator.Merge.Expanded.{IsDotFree, expand_dot_keys-eq}
use cloud_native_emulator.Merge.Lookup.{overlay}
use cloud_native_emulator.Merge.Patched.{get-patched}
use cloud_native_emulator.Merge.Paths.{at, touches, is_leaf, IsJson, IsObject, deep_merge-at}

abbrev number : ℤ → Json ℤ
number n = integer n

abbrev axis : Json ℤ → Json ℤ → Json ℤ
axis a b = object (field "a" a (field "b" b no_fields))

abbrev of_middle : Json ℤ → Json ℤ → Fields ℤ
of_middle a b = field "name" (text "shop") (
    field "roles" (object (field "middle" (object (field "net" (axis a b) no_fields)) no_fields))
      no_fields)

abbrev dotted : Fields ℤ
dotted = field "name" (text "other") (field "roles.middle.net.a" (number (pos 3)) no_fields)

abbrev nested : Fields ℤ
nested =
    field "roles"
      (object (
        field "middle"
          (object (field "net" (object (field "a" (number (pos 3)) no_fields)) no_fields))
          no_fields))
      no_fields

program : Unit {0}
unfolding get set deep_merge split_dots place expand_dot_keys without patched text_dec IsJson
    IsDotFree
program = tt

-- The name of the patch is passed over, and net.b stays.
patched-dotted :
    patched "shop" (of_middle (number (pos 1)) (number (pos 2))) dotted
    ≡ of_middle (number (pos 3)) (number (pos 2))
unfolding program
patched-dotted = refl

get-patched_example :
    get "roles" (patched "shop" (of_middle (number (pos 1)) (number (pos 2))) dotted)
    ≡ ite (text_dec "name" "roles") (some (text "shop")) (
        overlay
          (get "roles" (of_middle (number (pos 1)) (number (pos 2))))
          (get "roles" (expand_fields no_fields dotted)))
get-patched_example =
    get-patched "shop" "roles" (of_middle (number (pos 1)) (number (pos 2))) dotted

nested-IsObject : IsObject nested
unfolding program
nested-IsObject = (refl, (refl, (refl, (refl, tt, tt), tt), tt), tt)

deep_merge-at_example :
    ((path : List String)
      → touches path (some (object nested)) ≡ false
      → at path (some (object (deep_merge (of_middle (number (pos 1)) (number (pos 2))) nested)))
        ≡ at path (some (object (of_middle (number (pos 1)) (number (pos 2))))))
    × ((path : List String) (leaf : Json ℤ)
        → is_leaf leaf ≡ true
        → at path (some (object nested)) ≡ some leaf
        → at path (some (object (deep_merge (of_middle (number (pos 1)) (number (pos 2))) nested)))
          ≡ some leaf)
deep_merge-at_example =
    deep_merge-at (of_middle (number (pos 1)) (number (pos 2))) nested nested-IsObject

nested-IsDotFree : IsDotFree (object nested)
unfolding program
nested-IsDotFree = (refl, (refl, (refl, (refl, tt, tt), tt), tt), tt)

nested-IsJson : IsJson (object nested)
unfolding program
nested-IsJson = nested-IsObject

expand_dot_keys-eq_example : expand_dot_keys (object nested) ≡ object nested
expand_dot_keys-eq_example = expand_dot_keys-eq (object nested) nested-IsJson nested-IsDotFree
