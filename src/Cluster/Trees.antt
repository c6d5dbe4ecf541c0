-- ===== src/Cluster/Trees.antt =====
-- Updates in place of a parsed document, such as doc.setdefault("metadata", {})["name"] = v, as
-- functions from its fields to its fields.
use cloud_native_emulator.Prelude.{String, Option, none, some, List, [], ◌∷◌}
use cloud_native_emulator.Prelude.Result.{Result, ok, err, key_error, type_error, ◌>>=◌}
use cloud_native_emulator.Json
use cloud_native_emulator.Json.{Json, Fields, object, text, field, no_fields}
use cloud_native_emulator.Merge.{get, set}

module _ {F : Type 0} where
  abbrev pub fields_of : Json F → Result (Fields F)
  fields_of (Json.object d) = ok d
  fields_of j = err type_error

  -- d.setdefault(k, {})
  abbrev pub or_empty : Option (Json F) → Result (Fields F)
  or_empty none = ok no_fields
  or_empty (some j) = fields_of j

  -- f(d.setdefault(k, {}))
  unfoldable pub in_default : String → (Fields F → Result (Fields F)) → Fields F → Result (Fields F)
  unfolding get set
  in_default k f d = do sub ← or_empty (get k d); sub' ← f sub; ok (set k (object sub') d)

  abbrev pub or_missing : String → Option (Json F) → Result (Fields F)
  or_missing k none = err (key_error k)
  or_missing k (some j) = fields_of j

  -- f(d[k1][k2]…)
  unfoldable pub in_present :
      List String → (Fields F → Result (Fields F)) → Fields F → Result (Fields F)
  unfolding get set
  in_present [] f d = f d
  in_present (k ∷ ks) f d = do
    sub ← or_missing k (get k d)
    sub' ← in_present ks f sub
    ok (set k (object sub') d)

  -- d[k] = v
  abbrev pub assign : String → Json F → Fields F → Result (Fields F)
  assign k v d = ok (set k v d)

  -- d.update(e)
  unfoldable pub update_with : Fields F → Fields F → Fields F
  unfolding set
  update_with d Json.no_fields = d
  update_with d (Json.field k v rest) = update_with (set k v d) rest
