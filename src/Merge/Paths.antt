-- ===== src/Merge/Paths.antt =====
-- What a merge leaves and what it sets, at every depth.
use cloud_native_emulator.Prelude.{
  ◌≡◌, refl, ap, ◌∙◌, String, Bool, true, false, Option, none, some, List, [], ◌∷◌, arith, text_dec,
  subst,
}
use mathlib.Core.Option.{some-injective}
use cloud_native_emulator.Json
use cloud_native_emulator.Json.{Json, Fields}
use cloud_native_emulator.Merge.{get, deep_merge, merge_value}
use cloud_native_emulator.Merge.Lookup.{overlay, get-deep_merge, HasKeysOnce}

-- The value at a path of keys.
abbrev pub at : {F : Type 0} → List String → Option (Json F) → Option (Json F)
at [] j = j
at (k ∷ ks) (some (Json.object d)) = at ks (get k d)
at (k ∷ ks) j = none

-- A patch says something at the path or at one of its beginnings.
abbrev pub touches : {F : Type 0} → List String → Option (Json F) → Bool
touches path none = false
touches [] (some j) = true
touches (k ∷ ks) (some (Json.object d)) = touches ks (get k d)
touches (k ∷ ks) (some j) = true

-- Objects, at every depth, have each key once.
unfoldable mutual
  pub IsJson : {F : Type 0} → Json F → Type 0
  IsJson (Json.object d) = IsObject d
  IsJson j = Unit

  pub IsObject : {F : Type 0} → Fields F → Type 0
  IsObject Json.no_fields = Unit
  IsObject (Json.field k v rest) = (get k rest ≡ none) × IsJson v × IsObject rest

IsObject-HasKeysOnce : {F : Type 0} (d : Fields F) → IsObject d → HasKeysOnce d
unfolding IsJson
IsObject-HasKeysOnce Json.no_fields h = tt
IsObject-HasKeysOnce (Json.field k v rest) (new, json, once) = (new, IsObject-HasKeysOnce rest once)

get-IsJson :
    {F : Type 0} (k : String) (d : Fields F) (v : Json F) → IsObject d → get k d ≡ some v → IsJson v
unfolding IsJson get
get-IsJson k Json.no_fields v h found = cc
get-IsJson k (Json.field j w rest) v (new, json, once) found = elim (text_dec j k) [
  | yes same ↦ let e : w ≡ v = ground (arith, found, same) in subst IsJson e json
  | no other ↦ get-IsJson k rest v once (ground (arith, found, other))
]

at-none : {F : Type 0} (path : List String) → at {F = F} path none ≡ none
at-none [] = refl
at-none (k ∷ ks) = refl

-- A patch that says nothing at a path has no value there.
untouched-at :
    {F : Type 0} (path : List String) (j : Option (Json F))
    → touches path j ≡ false
    → at path j ≡ none
untouched-at path none h = at-none path
untouched-at [] (some j) h = cc
untouched-at (k ∷ ks) (some (Json.object d)) h = untouched-at ks (get k d) h
untouched-at (k ∷ ks) (some j) h = cc

at-overlay_kept :
    {F : Type 0} (path : List String) (old new : Option (Json F))
    → ((v : Json F) → new ≡ some v → IsJson v)
    → touches path new ≡ false
    → at path (overlay old new) ≡ at path old
unfolding IsJson deep_merge
at-overlay_kept path old none json h = refl
at-overlay_kept [] old (some v) json h = cc
at-overlay_kept (k ∷ ks) (some (Json.object b)) (some (Json.object p)) json h =
    ap (at ks) (get-deep_merge k b p (IsObject-HasKeysOnce p (json (Json.object p) refl)))
    ∙ at-overlay_kept ks (get k b) (get k p)
        (λ v found. get-IsJson k p v (json (Json.object p) refl) found) h
at-overlay_kept (k ∷ ks) none (some (Json.object p)) json h = untouched-at ks (get k p) h
at-overlay_kept (k ∷ ks) (some b) (some (Json.object p)) json h = untouched-at ks (get k p) h
at-overlay_kept (k ∷ ks) old (some v) json h = cc

-- Not an object.
abbrev pub is_leaf : {F : Type 0} → Json F → Bool
is_leaf (Json.object d) = false
is_leaf j = true

pub merge_value_leaf :
    {F : Type 0} (old : Option (Json F)) (v : Json F) → is_leaf v ≡ true → merge_value old v ≡ v
unfolding deep_merge
merge_value_leaf none v h = refl
merge_value_leaf (some (Json.object b)) (Json.object p) h = cc
merge_value_leaf (some (Json.object b)) v h = refl
merge_value_leaf (some j) v h = refl

at-overlay_set :
    {F : Type 0} (path : List String) (old new : Option (Json F)) (leaf : Json F)
    → ((v : Json F) → new ≡ some v → IsJson v)
    → is_leaf leaf ≡ true
    → at path new ≡ some leaf
    → at path (overlay old new) ≡ some leaf
unfolding IsJson deep_merge
at-overlay_set path old none leaf json is found = absurd (cc (at-none path, found))
at-overlay_set [] old (some v) leaf json is found =
    let e : v ≡ leaf = some-injective v leaf found in
    ap some (merge_value_leaf old v (rw e is)) ∙ found
at-overlay_set (k ∷ ks) (some (Json.object b)) (some (Json.object p)) leaf json is found =
    ap (at ks) (get-deep_merge k b p (IsObject-HasKeysOnce p (json (Json.object p) refl)))
    ∙ at-overlay_set ks (get k b) (get k p) leaf
        (λ v at_k. get-IsJson k p v (json (Json.object p) refl) at_k) is found
at-overlay_set (k ∷ ks) none (some (Json.object p)) leaf json is found = found
at-overlay_set (k ∷ ks) (some b) (some (Json.object p)) leaf json is found = found
at-overlay_set (k ∷ ks) old (some v) leaf json is found = cc

-- A merge leaves the value at every path of which the patch says nothing, and sets the value at
-- every path where the patch holds something that is not an object.
pub deep_merge-at :
    {F : Type 0} (base patch : Fields F)
    → IsObject patch
    → ((path : List String)
        → touches path (some (Json.object patch)) ≡ false
        → at path (some (Json.object (deep_merge base patch))) ≡ at path (some (Json.object base)))
      × ((path : List String) (leaf : Json F)
          → is_leaf leaf ≡ true
          → at path (some (Json.object patch)) ≡ some leaf
          → at path (some (Json.object (deep_merge base patch))) ≡ some leaf)
unfolding IsJson deep_merge
deep_merge-at base patch once =
    let json : (v : Json _) → some (Json.object patch) ≡ some v → IsJson v =
      λ v same. subst IsJson (some-injective (Json.object patch) v same) once in
    (
      λ path h. at-overlay_kept path (some (Json.object base)) (some (Json.object patch)) json h,
      λ path leaf is found.
          at-overlay_set path (some (Json.object base)) (some (Json.object patch)) leaf json is
            found,
    )
