-- ===== src/Cluster/Teardown.antt =====
-- `teardown`, with that of controller/netem.py.
use mathlib.Core.List.{reverse}
use cloud_native_emulator.Prelude.{
  ℕ, ◌+◌, String, Bool, false, ◌||◌, Option, none, some, List, if◌then◌else◌, ◌==◌, codes,
}
use cloud_native_emulator.Prelude.Float.{Float}
use cloud_native_emulator.Prelude.Result
use cloud_native_emulator.Prelude.Result.{Result, ok, err, type_error}
use cloud_native_emulator.Json.{Json}
use cloud_native_emulator.Merge.{get}
use cloud_native_emulator.Shaping.{clear_script}
use cloud_native_emulator.Cluster.{
  Kind, deployment, config_map, service, labelled, delete_at, run_on, Server, Calls, ◌>>=◌, lift,
  done, send, for_each, branch,
}
use cloud_native_emulator.Cluster.Answers.{to_list, count_of, rescue, delete_managed}
use cloud_native_emulator.Cluster.Roles.{starts_with}
use cloud_native_emulator.Cluster.Materialise.{Setting}
use cloud_native_emulator.Cluster.Nodes.{list_nodes}

-- s.endswith("List")
unfoldable pub ends_in_list : String → Bool
unfolding starts_with codes
ends_in_list s = starts_with (reverse (codes s)) (reverse (codes "List"))

module _ {F : Type 0} where
  -- obj.get("kind", "").endswith("List")
  abbrev pub is_list : Option (Json F) → Result Bool
  is_list none = ok false
  is_list (some (Json.text s)) = ok (ends_in_list s)
  is_list (some j) = err type_error

  -- len(obj.get("items", []))
  abbrev pub item_count : Option (Json F) → Result ℕ
  item_count none = ok 0
  item_count (some (Json.array xs)) = ok (count_of (to_list xs))
  item_count (some j) = err type_error

  -- What the body of an answer to a DELETE counts as.
  unfoldable pub count_in : Option (Json F) → Result ℕ
  unfolding get ends_in_list
  count_in none = ok 1
  count_in (some (Json.object d)) =
      Result.◌>>=◌ (is_list (get "kind" d)) (λ l. if l then item_count (get "items" d) else ok 1)
  count_in (some j) = err type_error

  -- The body of the loop over the kinds, with the count.
  unfoldable pub delete_kind : Server F → String → ℕ → Kind → Calls F ℕ
  unfolding count_in
  delete_kind server name deleted kind = do
    answer ← send server (delete_at (labelled kind (some name)))
    branch (answer.status == 200 || answer.status == 202)
        (lift (count_in answer.body) >>= λ n. lift (ok (deleted + n))) (lift (ok deleted))

module _ (fl : Float) (on : Setting fl) where
  open fl use {F}

  abbrev pub clear_member : String × String → Calls F (Unit {0})
  clear_member (name, ip) = send on.server (run_on name (clear_script ip)) >>= λ answer. done

  abbrev pub clear_tier : String × List (String × String) → Calls F (Unit {0})
  clear_tier (tier, members) = for_each clear_member members

  -- `teardown` of netem.py
  unfoldable pub clear_links : Calls F (Unit {0})
  unfolding for_each list_nodes
  clear_links = rescue tt (list_nodes on.server >>= for_each clear_tier)

  -- `teardown`
  unfoldable pub teardown : String → Calls F ℕ
  unfolding clear_links delete_managed delete_kind
  teardown name = do
    cleared ← clear_links
    removed ← delete_managed on.server
    one ← delete_kind on.server name removed deployment
    two ← delete_kind on.server name one service
    delete_kind on.server name two config_map
