-- ===== src/Cluster/Roles.antt =====
-- What a role's objects hold: `_render_role`, and the config.json of `_role_config`. `load_all` is
-- yaml.safe_load_all.
use cloud_native_emulator.Prelude.{
  ℕ, zero, suc, ◌+◌, ◌-◌, ◌/◌, ◌%◌, String, Bool, true, false, Option, none, some, List, [], ◌∷◌,
  ◌++◌, if◌then◌else◌, ◌==◌, ltb, null, codes, length, text_dec, ite,
}
use cloud_native_emulator.Prelude.Dict.{Dict}
use cloud_native_emulator.Prelude.Float.{Float}
use cloud_native_emulator.Prelude.Int.{pos}
use cloud_native_emulator.Prelude.Result.{Result, ok, err, type_error, ◌>>=◌}
use cloud_native_emulator.Json.{
  Json, Items, Fields, text, integer, real, object, array, no_items, item, no_fields, field,
}
use cloud_native_emulator.Merge.{get}
use cloud_native_emulator.Validation.{truthy}
use cloud_native_emulator.Cluster.{item_at}
use cloud_native_emulator.Cluster.Trees.{in_default, in_present, assign}

-- s.startswith(old)
unfoldable pub starts_with : List ℕ → List ℕ → Bool
starts_with s [] = true
starts_with [] (c ∷ old) = false
starts_with (a ∷ s) (c ∷ old) = if a == c then starts_with s old else false

-- s.replace(old, new), for an old that is not empty: `skip` characters belong to a match.
unfoldable pub replace_from : ℕ → List ℕ → List ℕ → List ℕ → List ℕ
unfolding starts_with
replace_from skip old new [] = []
replace_from (suc skip) old new (c ∷ s) = replace_from skip old new s
replace_from zero old new (c ∷ s) =
    let found = replace_from (length old - 1) old new s in
    let other = replace_from 0 old new s in
    if starts_with (c ∷ s) old then new ++ found else c ∷ other

abbrev pub replace : String → List ℕ → List ℕ → List ℕ
replace old new s = replace_from 0 (codes old) new s

-- str(n); the fuel is more than the digits.
unfoldable pub digits_of : ℕ → ℕ → List ℕ → List ℕ
digits_of zero n out = out
digits_of (suc fuel) n out =
    let rest = digits_of fuel (n / 10) ((b'0' + n % 10) ∷ out) in
    if ltb n 10 then (b'0' + n) ∷ out else rest

abbrev pub decimal : ℕ → List ℕ
decimal n = digits_of (suc n) n []

module _ {F : Type 0} where
  -- `if value: pod_spec.setdefault("nodeSelector", {})[key] = value`
  unfoldable pub select_node : String → Option String → Fields F → Result (Fields F)
  unfolding in_default
  select_node key none spec = ok spec
  select_node key (some value) spec =
      ite (text_dec value "") (ok spec) (in_default "nodeSelector" (assign key (text value)) spec)

  abbrev pub is_kind : String → Option (Json F) → Bool
  is_kind k (some (Json.text s)) = ite (text_dec s k) true false
  is_kind k j = false

  -- The body of the loop over the documents.
  unfoldable pub place_doc : Option String → Option String → Json F → Result (Json F)
  unfolding in_present select_node get
  place_doc tier selected (Json.object d) =
      if is_kind "Deployment" (get "kind" d)
      then (in_present ("spec" ∷ "template" ∷ "spec" ∷ [])
            (λ spec. select_node "tier" tier spec >>= select_node "kubernetes.io/hostname" selected)
            d
          >>= λ d'. ok (object d'))
      else ok (object d)
  place_doc tier selected j = err type_error

  unfoldable pub place_docs : Option String → Option String → List (Json F) → Result (List (Json F))
  unfolding place_doc
  place_docs tier selected [] = ok []
  place_docs tier selected (j ∷ js) = do
    d ← place_doc tier selected j
    ds ← place_docs tier selected js
    ok (d ∷ ds)

-- What is known of a role's peers: their addresses, the server count (none where it is None or
-- 0), the offset of each pod, and the role behind each address.
pub record PeerConfig : Type 0 where
  pub ips : List String
  pub servers : ℕ
  pub offsets : Dict ℕ
  pub names : Dict String

abbrev pub no_peers : ℕ → PeerConfig
no_peers n = record { ips = []; servers = n; offsets = []; names = [] }

module _ (fl : Float) where
  open fl use {F}

  -- `if doc`
  unfoldable pub not_empty : List (Json F) → List (Json F)
  not_empty [] = []
  not_empty (j ∷ js) = if truthy fl j then j ∷ not_empty js else not_empty js

  -- `_render_role`
  unfoldable pub render_role :
      (List ℕ → Result (List (Json F)))
      → (blueprint : List ℕ) (template role : String) (count : ℕ) (image : String) → Option String
      → Option String
      → Result (List (Json F))
  unfolding replace_from digits_of codes not_empty place_docs
  render_role load_all blueprint template role count image tier selected =
      load_all (
        replace "__IMAGE__" (codes image) (
          replace "__COUNT__" (decimal count)
            (replace "__ROLE__" (codes role) (replace "__TEMPLATE__" (codes template) blueprint))))
      >>= λ docs. place_docs tier selected (not_empty docs)

  abbrev pub texts : List String → Items F
  texts [] = no_items
  texts (s ∷ ss) = item (text s) (texts ss)

  abbrev pub text_entries : Dict String → Fields F
  text_entries [] = no_fields
  text_entries ((k, s) ∷ d) = field k (text s) (text_entries d)

  abbrev pub number_entries : Dict ℕ → Fields F
  number_entries [] = no_fields
  number_entries ((k, n) ∷ d) = field k (integer (pos n)) (number_entries d)

  abbrev pub with_servers : ℕ → Fields F → Fields F
  with_servers zero rest = rest
  with_servers (suc n) rest = field "server_count" (integer (pos (suc n))) rest

  abbrev pub optional_fields : PeerConfig → Fields F
  optional_fields p =
      let names : Fields F =
        if null p.names
        then no_fields
        else field "peer_names" (object (text_entries p.names)) no_fields in
      let offsets : Fields F =
        if null p.offsets
        then names
        else field "port_offset_by_pod" (object (number_entries p.offsets)) names in
      with_servers p.servers offsets

  -- `_role_config`, of the role's object. Where it is called, 0 servers, no offset and no name are
  -- handed over as None.
  unfoldable pub role_config : Json F → PeerConfig → F → Result (Fields F)
  unfolding item_at
  role_config role p x = do
    cpu ← item_at "cpu" role
    ram ← item_at "ram" role
    net ← item_at "net" role
    ok (
        field "x" (real x) (
          field "cpu" cpu (
            field "ram" ram
              (field "net" net (field "peers" (array (texts p.ips)) (optional_fields p))))))
