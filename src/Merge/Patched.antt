-- ===== src/Merge/Patched.antt =====
-- The template that `patch_template` goes on with, key by key.
use mathlib.Core.Logic.{if_neg, if_pos}
use cloud_native_emulator.Prelude.{
  ◌≡◌, refl, sym, ap, ◌∙◌, String, none, some, List, [], ◌∷◌, arith, text_dec, ite,
}
use cloud_native_emulator.Json
use cloud_native_emulator.Json.{Json, Fields, no_fields, field}
use cloud_native_emulator.Merge.{get, set, deep_merge, merge_value}
use cloud_native_emulator.Merge.Dots.{
  inner, place, split_dots, expand_dot_keys, expand_fields, without, patched,
}
use cloud_native_emulator.Merge.Lookup.{get-set, HasKeysOnce, overlay, get-deep_merge}

set-HasKeysOnce :
    {F : Type 0} (k : String) (v : Json F) (d : Fields F) → HasKeysOnce d → HasKeysOnce (set k v d)
unfolding get set
set-HasKeysOnce k v Json.no_fields once = (refl, tt)
set-HasKeysOnce k v (Json.field j w rest) (new, once) = elim (text_dec j k) [
  | yes same ↦ rw (if_pos _ same) (new, once)
  | no other ↦ rw (if_neg _ other) (
    ground (arith, get-set k j v rest, text_dec k j, new, λ (e : k ≡ j). other (sym e)),
    set-HasKeysOnce k v rest once,
  )
]

place-HasKeysOnce :
    {F : Type 0} (parts : List String) (v : Json F) (d : Fields F)
    → HasKeysOnce d
    → HasKeysOnce (place parts v d)
unfolding place
place-HasKeysOnce [] v d once = once
place-HasKeysOnce (leaf ∷ []) v d once = set-HasKeysOnce leaf (merge_value (get leaf d) v) d once
place-HasKeysOnce (part ∷ p ∷ ps) v d once =
    set-HasKeysOnce part (Json.object (place (p ∷ ps) v (inner (get part d)))) d once

expand_fields-HasKeysOnce :
    {F : Type 0} (result d : Fields F) → HasKeysOnce result → HasKeysOnce (expand_fields result d)
unfolding expand_dot_keys
expand_fields-HasKeysOnce result Json.no_fields once = once
expand_fields-HasKeysOnce result (Json.field k v rest) once =
    expand_fields-HasKeysOnce (place (split_dots k) (expand_dot_keys v) result) rest
      (place-HasKeysOnce (split_dots k) (expand_dot_keys v) result once)

get-without :
    {F : Type 0} (name k : String) (d : Fields F)
    → get k (without name d) ≡ ite (text_dec k name) none (get k d)
unfolding get without
get-without name k Json.no_fields = ground (arith, text_dec k name)
get-without name k (Json.field j v rest) =
    ground (arith, get-without name k rest, text_dec j name, text_dec k name, text_dec j k)

without-HasKeysOnce :
    {F : Type 0} (name : String) (d : Fields F) → HasKeysOnce d → HasKeysOnce (without name d)
unfolding without
without-HasKeysOnce name Json.no_fields once = tt
without-HasKeysOnce name (Json.field j v rest) (new, once) = elim (text_dec j name) [
  | yes same ↦ rw (if_pos _ same) (without-HasKeysOnce name rest once)
  | no other ↦ rw (if_neg _ other) (
    ground (arith, get-without name j rest, text_dec j name, new),
    without-HasKeysOnce name rest once,
  )
]

-- Whatever the patch, the result has the name of the existing template, and under any other key
-- the existing value with the expanded patch's merged over it.
pub get-patched :
    {F : Type 0} (name k : String) (existing patch : Fields F)
    → get k (patched name existing patch)
      ≡ ite
          (text_dec "name" k)
          (some (Json.text name))
          (overlay (get k existing) (get k (expand_fields no_fields patch)))
unfolding patched
get-patched name k existing patch =
    let expanded = expand_fields no_fields patch in
    let rest = without "name" expanded in
    let once = without-HasKeysOnce "name" expanded (expand_fields-HasKeysOnce no_fields patch tt) in
    let merged = deep_merge existing rest in
    let found = get-set "name" k (Json.text name) merged in
    elim (text_dec "name" k) [
      | yes same ↦
          rw (if_pos _ same)
            (found ∙ if_pos (text_dec "name" k) same (some (Json.text name)) (get k merged))
      | no other ↦
          let kept : get k rest ≡ get k expanded =
            get-without "name" k expanded
            ∙ if_neg (text_dec k "name") (λ e. other (sym e)) none (get k expanded) in
          rw (if_neg _ other) (
            found
            ∙ if_neg (text_dec "name" k) other (some (Json.text name)) (get k merged)
            ∙ get-deep_merge k existing rest once
            ∙ ap (overlay (get k existing)) kept)
    ]
