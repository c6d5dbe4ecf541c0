-- ===== src/Merge/Lookup.antt =====
-- What the merged object holds under a key.
use cloud_native_emulator.Prelude.{
  ◌≡◌, refl, ap, ◌∙◌, String, Option, none, some, arith, text_dec, ite, subst,
}
use mathlib.Core.Logic.{if_pos, if_neg}
use cloud_native_emulator.Json
use cloud_native_emulator.Json.{Json, Fields}
use cloud_native_emulator.Merge.{get, set, deep_merge, merge_value}

-- Objects, at every depth, have each key once.
abbrev pub HasKeysOnce : {F : Type 0} → Fields F → Type 0
HasKeysOnce Json.no_fields = Unit
HasKeysOnce (Json.field k v rest) = (get k rest ≡ none) × HasKeysOnce rest

pub get-set :
    {F : Type 0} (k j : String) (v : Json F) (d : Fields F)
    → get j (set k v d) ≡ ite (text_dec k j) (some v) (get j d)
unfolding get set
get-set k j v Json.no_fields = refl
get-set k j v (Json.field i w rest) = ground (arith, get-set k j v rest, text_dec i j, text_dec i k)

-- The patch's entry over the base's.
abbrev pub overlay : {F : Type 0} → Option (Json F) → Option (Json F) → Option (Json F)
overlay old none = old
overlay old (some v) = some (merge_value old v)

-- Under every key the result holds the base's value if the patch has no such key, and otherwise
-- the merge of what the two hold.
pub get-deep_merge :
    {F : Type 0} (k : String) (base patch : Fields F)
    → HasKeysOnce patch
    → get k (deep_merge base patch) ≡ overlay (get k base) (get k patch)
unfolding deep_merge get
get-deep_merge k base Json.no_fields once = refl
get-deep_merge k base (Json.field j v rest) (new, once) =
    let next = set j (merge_value (get j base) v) base in
    let step = get-deep_merge k next rest once in
    let found = get-set j k (merge_value (get j base) v) base in
    elim (text_dec j k) [
      | yes same ↦
          let gone : get k rest ≡ none = subst (λ s. get s rest ≡ none) same new in
          let at : get k next ≡ some (merge_value (get j base) v) =
            found ∙ if_pos (text_dec j k) same _ (get k base) in
          let mid : overlay (get k next) (get k rest) ≡ some (merge_value (get j base) v) =
            rw gone at in
          rw (if_pos _ same) (step ∙ mid ∙ ap (λ s. some (merge_value (get s base) v)) same)
      | no other ↦ rw (if_neg _ other) (
          step
          ∙ ap (λ o. overlay o (get k rest))
              (found ∙ if_neg (text_dec j k) other (some (merge_value (get j base) v)) _))
    ]
