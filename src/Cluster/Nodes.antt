-- ===== src/Cluster/Nodes.antt =====
-- controller/netem.py, `_nodes_by_tier`, over the API server: the read of the nodes, and what it
-- makes of the answer. Labels, names and addresses are texts.
use cloud_native_emulator.Prelude.{
  String, Option, none, some, List, [], ◌∷◌, ◌==◌, if◌then◌else◌, text_dec, ite,
}
use cloud_native_emulator.Prelude.Dict.{Dict}
use cloud_native_emulator.Prelude.Result
use cloud_native_emulator.Prelude.Result.{Result, ok, err, type_error}
use cloud_native_emulator.Json.{Json}
use cloud_native_emulator.Merge.{get}
use cloud_native_emulator.Shaping.{add_member}
use cloud_native_emulator.Cluster.{
  node, all_of, get_at, Server, Calls, ◌>>=◌, lift, send, branch, item_at, as_text,
}
use cloud_native_emulator.Cluster.Answers.{items_of, array_of, get_in, metadata_text, object_name}
use cloud_native_emulator.Cluster.Roles.{is_kind}

-- {tier: [(node, address)]}
abbrev pub Tiers : Type 0
Tiers = Dict (List (String × String))

module _ {F : Type 0} where
  -- The address of the first entry whose type is InternalIP.
  unfoldable pub ip_in : List (Json F) → Result (Option String)
  unfolding item_at get
  ip_in [] = ok none
  ip_in (Json.object d ∷ js) =
      if is_kind "InternalIP" (get "type" d)
      then (Result.◌>>=◌ (Result.◌>>=◌ (item_at "address" (Json.object d)) as_text)
          (λ a. ok (some a)))
      else ip_in js
  ip_in (j ∷ js) = err type_error

  -- n.get("status", {}).get("addresses", [])
  abbrev pub addresses_in : Json F → Result (List (Json F))
  addresses_in (Json.object d) = array_of (get "addresses" d)
  addresses_in j = err type_error

  -- The node with its tier and its address, which is read for a node with a tier only.
  abbrev pub with_address : Tiers → String → Json F → Option String → Result Tiers
  with_address out tier j none = ok out
  with_address out tier j (some ip) =
      ite (text_dec ip "") (ok out)
        (Result.◌>>=◌ (object_name j) (λ name. ok (add_member tier (name, ip) out)))

  abbrev pub with_tier : Tiers → Json F → Option String → Result Tiers
  with_tier out j none = ok out
  with_tier out j (some tier) = ite (text_dec tier "") (ok out) (
      Result.◌>>=◌ (get_in "status" j) (λ status.
        Result.◌>>=◌ (addresses_in status)
          (λ addresses. Result.◌>>=◌ (ip_in addresses) (with_address out tier j))))

  -- The loop over the nodes that are listed.
  unfoldable pub tiers_of : Tiers → List (Json F) → Result Tiers
  unfolding metadata_text get_in get ip_in add_member
  tiers_of out [] = ok out
  tiers_of out (j ∷ js) =
      Result.◌>>=◌ (metadata_text "labels" "tier" j)
        (λ tier. Result.◌>>=◌ (with_tier out j tier) (λ next. tiers_of next js))

  -- `_nodes_by_tier`: no node where the request fails
  unfoldable pub list_nodes : Server F → Calls F Tiers
  unfolding items_of tiers_of
  list_nodes server = do
    answer ← send server (get_at (all_of node))
    branch (answer.status == 200)
        (do
          listed ← lift (items_of answer.body)
          tiers ← lift (tiers_of [] listed)
          lift (ok tiers))
        (lift (ok []))
