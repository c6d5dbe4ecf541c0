-- ===== src/Merge.antt =====
-- controller/materialiser.py, how a patch is laid over a template: `_deep_merge`.
pub mod Lookup
pub mod Paths
pub mod Dots
pub mod Expanded
pub mod Patched
mod Tests
use cloud_native_emulator.Prelude.{String, Option, none, some, List, [], ◌∷◌, text_dec, ite}
use cloud_native_emulator.Json
use cloud_native_emulator.Json.{Json, Fields, no_fields, field}

module _ {F : Type 0} where
  -- d.get(k)
  unfoldable pub get : String → Fields F → Option (Json F)
  get k Json.no_fields = none
  get k (Json.field j v rest) = ite (text_dec j k) (some v) (get k rest)

  -- d[k] = v
  unfoldable pub set : String → Json F → Fields F → Fields F
  set k v Json.no_fields = field k v no_fields
  set k v (Json.field j w rest) = ite (text_dec j k) (field j v rest) (field j w (set k v rest))

-- `_deep_merge`: the loop over the patch, and what one of its entries becomes, given what the
-- result holds under its key.
unfoldable mutual
  unfolding get set

  pub deep_merge : {F : Type 0} → Fields F → Fields F → Fields F
  deep_merge base Json.no_fields = base
  deep_merge base (Json.field k v rest) = deep_merge (set k (merge_value (get k base) v) base) rest

  pub merge_value : {F : Type 0} → Option (Json F) → Json F → Json F
  merge_value (some (Json.object old)) (Json.object new) = Json.object (deep_merge old new)
  merge_value old new = new
