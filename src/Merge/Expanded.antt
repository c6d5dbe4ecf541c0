-- ===== src/Merge/Expanded.antt =====
-- What `_expand_dot_keys` means: a dotted key reaches the place that its parts name, and a patch
-- without dots is left as it is.
use Prim.Native.Char.{code}
use cloud_native_emulator.Prelude.{
  ◌≡◌, ◌≢◌, refl, sym, ap, ◌∙◌, String, Bool, true, false, none, some, List, [], ◌∷◌, arith,
  text_dec, ◌==◌, if◌then◌else◌, Bool-cases, inl, inr,
}
use mathlib.Core.Logic.{if_neg}
use cloud_native_emulator.Json
use cloud_native_emulator.Json.{Json, Fields, no_fields, field}
use cloud_native_emulator.Merge.{get, set, deep_merge, merge_value}
use cloud_native_emulator.Merge.Dots.{inner, place, split_dots, expand_dot_keys, expand_fields}
use cloud_native_emulator.Merge.Lookup.{get-set}
use cloud_native_emulator.Merge.Paths.{at, is_leaf, IsJson, IsObject, merge_value_leaf}

get-set_same : {F : Type 0} (k : String) (v : Json F) (d : Fields F) → get k (set k v d) ≡ some v
get-set_same k v d = ground (arith, get-set k k v d, text_dec k k)

-- After the walk the last part's place, reached along all the parts, holds the value.
place-at :
    {F : Type 0} (part : String) (parts : List String) (v : Json F) (cursor : Fields F)
    → is_leaf v ≡ true
    → at (part ∷ parts) (some (Json.object (place (part ∷ parts) v cursor))) ≡ some v
unfolding place deep_merge
place-at part [] v cursor leaf =
    get-set_same part (merge_value (get part cursor) v) cursor
    ∙ ap some (merge_value_leaf (get part cursor) v leaf)
place-at part (p ∷ ps) v cursor leaf =
    ap (at (p ∷ ps))
      (get-set_same part (Json.object (place (p ∷ ps) v (inner (get part cursor)))) cursor)
    ∙ place-at p ps v (inner (get part cursor)) leaf

split_dots_some :
    (key : String) → (part : String) × (parts : List String) × (split_dots key ≡ part ∷ parts)
unfolding split_dots
split_dots_some String.[] = ("", [], refl)
split_dots_some (String.◌∷◌ c s) = elim (Bool-cases (code c == b'.')) [
  | inl dot ↦ ("", split_dots s, rw dot refl)
  | inr other ↦
      let (part, parts, same) = split_dots_some s in
      (String.◌∷◌ c part, parts, rw (other, same) refl)
]

expand_leaf : {F : Type 0} (v : Json F) → is_leaf v ≡ true → expand_dot_keys v ≡ v
unfolding expand_dot_keys
expand_leaf (Json.object d) h = cc
expand_leaf v h = refl

-- A patch with one key, dotted or not, and a value that is not an object expands to an object
-- that holds the value at the path of the key's parts.
pub expand_dot_keys-at :
    {F : Type 0} (key : String) (v : Json F)
    → is_leaf v ≡ true
    → at (split_dots key) (some (expand_dot_keys (Json.object (field key v no_fields)))) ≡ some v
unfolding expand_dot_keys
expand_dot_keys-at key v leaf =
    let (part, parts, same) = split_dots_some key in
    rw (same, expand_leaf v leaf) (place-at part parts v no_fields leaf)

-- A key without a dot is its own only part.
abbrev has_dot : String → Bool
has_dot String.[] = false
has_dot (String.◌∷◌ c s) = if code c == b'.' then true else has_dot s

split_dots_whole : (key : String) → has_dot key ≡ false → split_dots key ≡ key ∷ []
unfolding split_dots
split_dots_whole String.[] h = refl
split_dots_whole (String.◌∷◌ c s) h = ground (arith, h, split_dots_whole s)

-- No key, at any depth, has a dot.
unfoldable mutual
  pub IsDotFree : {F : Type 0} → Json F → Type 0
  IsDotFree (Json.object d) = IsDotFreeObject d
  IsDotFree j = Unit

  pub IsDotFreeObject : {F : Type 0} → Fields F → Type 0
  IsDotFreeObject Json.no_fields = Unit
  IsDotFreeObject (Json.field k v rest) = (has_dot k ≡ false) × IsDotFree v × IsDotFreeObject rest

-- One object's fields after another's.
abbrev onto : {F : Type 0} → Fields F → Fields F → Fields F
onto Json.no_fields d = d
onto (Json.field k v rest) d = field k v (onto rest d)

onto_assoc : {F : Type 0} (a b c : Fields F) → onto (onto a b) c ≡ onto a (onto b c)
onto_assoc Json.no_fields b c = refl
onto_assoc (Json.field k v rest) b c = ap (field k v) (onto_assoc rest b c)

set_new :
    {F : Type 0} (k : String) (v : Json F) (d : Fields F)
    → get k d ≡ none
    → set k v d ≡ onto d (field k v no_fields)
unfolding get set
set_new k v Json.no_fields new = refl
set_new k v (Json.field j w rest) new = elim (text_dec j k) [
  | yes same ↦ absurd (ground (arith, new, same))
  | no other ↦
      let later : get k rest ≡ none = ground (arith, new, other) in
      rw (if_neg _ other) (ap (field j w) (set_new k v rest later))
]

get-onto :
    {F : Type 0} (j k : String) (v : Json F) (d : Fields F)
    → get j d ≡ none
    → k ≢ j
    → get j (onto d (field k v no_fields)) ≡ none
unfolding get
get-onto j k v Json.no_fields new differ = ground (arith, text_dec k j, differ)
get-onto j k v (Json.field i w rest) new differ =
    ground (arith, new, text_dec i j, get-onto j k v rest, differ)

-- No key of the second object is in the first.
abbrev IsFresh : {F : Type 0} → Fields F → Fields F → Type 0
IsFresh result Json.no_fields = Unit
IsFresh result (Json.field k v rest) = (get k result ≡ none) × IsFresh result rest

onto-IsFresh :
    {F : Type 0} (k : String) (v : Json F) (result d : Fields F)
    → get k d ≡ none
    → IsFresh result d
    → IsFresh (onto result (field k v no_fields)) d
unfolding get
onto-IsFresh k v result Json.no_fields out fresh = tt
onto-IsFresh k v result (Json.field j w rest) out (new, fresh) = elim (text_dec j k) [
  | yes same ↦ absurd (ground (arith, out, same))
  | no other ↦ (
    get-onto j k v result new (λ e. other (sym e)),
    onto-IsFresh k v result rest (ground (arith, out, other)) fresh,
  )
]

onto-no_fields : {F : Type 0} (d : Fields F) → d ≡ onto d no_fields
onto-no_fields Json.no_fields = refl
onto-no_fields (Json.field k v rest) = ap (field k v) (onto-no_fields rest)

IsFresh-no_fields : {F : Type 0} (d : Fields F) → IsFresh no_fields d
unfolding get
IsFresh-no_fields Json.no_fields = tt
IsFresh-no_fields (Json.field k v rest) = (refl, IsFresh-no_fields rest)

place_new :
    {F : Type 0} (k : String) (v : Json F) (result : Fields F)
    → get k result ≡ none
    → place (k ∷ []) v result ≡ onto result (field k v no_fields)
unfolding place deep_merge
place_new k v result new = rw new (set_new k v result new)

mutual
  unfolding expand_dot_keys IsDotFree IsJson

  expand_json_same : {F : Type 0} (j : Json F) → IsJson j → IsDotFree j → expand_dot_keys j ≡ j
  expand_json_same (Json.object d) once plain =
      ap Json.object (expand_fields_same no_fields d once plain (IsFresh-no_fields d))
  expand_json_same j once plain = refl

  expand_fields_same :
      {F : Type 0} (result d : Fields F)
      → IsObject d
      → IsDotFreeObject d
      → IsFresh result d
      → expand_fields result d ≡ onto result d
  expand_fields_same result Json.no_fields once plain fresh = onto-no_fields result
  expand_fields_same result (Json.field k v rest) (out, json, once) (plain, plain_v, plain_rest)
        (new, fresh) =
      let added : place (split_dots k) (expand_dot_keys v) result
          ≡ onto result (field k v no_fields) =
        rw (split_dots_whole k plain, expand_json_same v json plain_v) (place_new k v result new) in
      ap (λ r. expand_fields r rest) added
      ∙ expand_fields_same (onto result (field k v no_fields)) rest once plain_rest
          (onto-IsFresh k v result rest out fresh)
      ∙ onto_assoc result (field k v no_fields) rest

-- A patch in which no key has a dot, and no object a key twice, at any depth, expands to itself.
pub expand_dot_keys-eq : {F : Type 0} (j : Json F) → IsJson j → IsDotFree j → expand_dot_keys j ≡ j
expand_dot_keys-eq j once plain = expand_json_same j once plain
