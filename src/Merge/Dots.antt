-- ===== src/Merge/Dots.antt =====
-- `_expand_dot_keys`: a dotted key of a patch stands for a path of keys. And what `patch_template`
-- makes of a template and a patch before it validates the result.
use Prim.Native.Char.{Char, code}
use cloud_native_emulator.Prelude.{
  String, Option, some, List, [], ◌∷◌, text_dec, ite, ◌==◌, if◌then◌else◌,
}
use cloud_native_emulator.Json
use cloud_native_emulator.Json.{Json, Fields, no_fields, field}
use cloud_native_emulator.Merge.{get, set, deep_merge, merge_value}

-- A character put before the first part.
abbrev pub before_first : Char → List String → List String
before_first c [] = String.◌∷◌ c "" ∷ []
before_first c (p ∷ ps) = String.◌∷◌ c p ∷ ps

-- key.split(".")
unfoldable pub split_dots : String → List String
split_dots String.[] = "" ∷ []
split_dots (String.◌∷◌ c s) =
    let rest = split_dots s in if code c == b'.' then "" ∷ rest else before_first c rest

-- The dict under a part, or a new one.
abbrev pub inner : {F : Type 0} → Option (Json F) → Fields F
inner (some (Json.object d)) = d
inner j = no_fields

-- The walk of the cursor along the parts, and what it leaves at the last one. (A split text has
-- at least one part.)
unfoldable pub place : {F : Type 0} → List String → Json F → Fields F → Fields F
unfolding get set deep_merge
place [] v cursor = cursor
place (leaf ∷ []) v cursor = set leaf (merge_value (get leaf cursor) v) cursor
place (part ∷ p ∷ ps) v cursor =
    set part (Json.object (place (p ∷ ps) v (inner (get part cursor)))) cursor

-- `_expand_dot_keys`, and its loop over the keys of an object.
unfoldable mutual
  unfolding split_dots place

  pub expand_dot_keys : {F : Type 0} → Json F → Json F
  expand_dot_keys (Json.object d) = Json.object (expand_fields no_fields d)
  expand_dot_keys j = j

  pub expand_fields : {F : Type 0} → Fields F → Fields F → Fields F
  expand_fields result Json.no_fields = result
  expand_fields result (Json.field k v rest) =
      expand_fields (place (split_dots k) (expand_dot_keys v) result) rest

-- {k: v for k, v in expanded.items() if k != name}
unfoldable pub without : {F : Type 0} → String → Fields F → Fields F
without name Json.no_fields = no_fields
without name (Json.field k v rest) =
    ite (text_dec k name) (without name rest) (field k v (without name rest))

-- The template that `patch_template` validates and materialises.
unfoldable pub patched : {F : Type 0} → String → Fields F → Fields F → Fields F
unfolding expand_dot_keys without set deep_merge
patched name existing patch =
    set "name" (Json.text name)
      (deep_merge existing (without "name" (expand_fields no_fields patch)))
