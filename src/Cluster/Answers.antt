-- ===== src/Cluster/Answers.antt =====
-- What the program reads from the answers of the API, and `delete_managed` of
-- controller/linkspec.py. Labels, annotations and names are texts.
use cloud_native_emulator.Prelude.{
  ℕ, suc, String, Bool, true, false, Option, none, some, List, [], ◌∷◌, if◌then◌else◌, ◌==◌,
  text_dec, ite,
}
use cloud_native_emulator.Prelude.Result
use cloud_native_emulator.Prelude.Result.{Result, ok, err, value_error, type_error, not_json}
use cloud_native_emulator.Json
use cloud_native_emulator.Json.{Json, Items, object, no_fields}
use cloud_native_emulator.Merge.{get}
use cloud_native_emulator.Cluster.{
  network_chaos, all_of, named, get_at, delete_at, History, Server, Calls, ◌>>=◌, ◌>>◌, lift, done,
  send, for_each, item_at, as_text, branch,
}

abbrev pub is_text : String → Option String → Bool
is_text s none = false
is_text s (some t) = ite (text_dec t s) true false

module _ {F : Type 0} where
  abbrev pub text_in : Option (Json F) → Option String
  text_in (some (Json.text s)) = some s
  text_in j = none

  abbrev pub role_text : String → Json F → Option String
  role_text k (Json.object d) = text_in (get k d)
  role_text k j = none

  -- json.loads(body).get("items", [])
  abbrev pub to_list : Items F → List (Json F)
  to_list Json.no_items = []
  to_list (Json.item j js) = j ∷ to_list js

  abbrev pub array_of : Option (Json F) → Result (List (Json F))
  array_of none = ok []
  array_of (some (Json.array xs)) = ok (to_list xs)
  array_of (some j) = err type_error

  unfoldable pub items_of : Option (Json F) → Result (List (Json F))
  unfolding get
  items_of none = err (value_error not_json)
  items_of (some (Json.object d)) = array_of (get "items" d)
  items_of (some j) = err type_error

  -- j.get(k, {}), and j.get(k) or {}
  abbrev pub or_object : Option (Json F) → Json F
  or_object none = object no_fields
  or_object (some j) = j

  unfoldable pub get_in : String → Json F → Result (Json F)
  unfolding get
  get_in k (Json.object d) = ok (or_object (get k d))
  get_in k j = err type_error

  abbrev pub null_as_empty : Json F → Json F
  null_as_empty Json.null = object no_fields
  null_as_empty j = j

  -- A text under a key of an object, such as a label.
  abbrev pub text_under : String → Json F → Result (Option String)
  text_under k (Json.object d) = ok (text_in (get k d))
  text_under k j = err type_error

  -- item.get("metadata", {}).get(kind) or {}, as a dict of texts, at a key
  unfoldable pub metadata_text : String → String → Json F → Result (Option String)
  unfolding get_in get
  metadata_text group k item =
      Result.◌>>=◌ (get_in "metadata" item)
        (λ meta. Result.◌>>=◌ (get_in group meta) (λ labels. text_under k (null_as_empty labels)))

  -- `_managed_items`, of the items that are listed
  unfoldable pub managed_items : List (Json F) → Result (List (Json F))
  unfolding metadata_text
  managed_items [] = ok []
  managed_items (j ∷ js) =
      Result.◌>>=◌ (metadata_text "labels" "app.kubernetes.io/managed-by" j) (λ label.
        Result.◌>>=◌ (managed_items js)
          (λ rest. ok (if is_text "emulator-controller" label then j ∷ rest else rest)))

  abbrev pub object_name : Json F → Result String
  object_name j = Result.◌>>=◌ (Result.◌>>=◌ (item_at "metadata" j) (item_at "name")) as_text

  abbrev pub delete_chaos : Server F → Json F → Calls F (Unit {0})
  delete_chaos server j = lift (object_name j) >>= λ name.
      send server (delete_at (named network_chaos name)) >>= λ answer. done

  -- except Exception
  abbrev pub rescue_with : {V : Type 0} → V → Result V × History F → Result V × History F
  rescue_with v (ok w, h) = (ok w, h)
  rescue_with v (err why, h) = (ok v, h)

  unfoldable pub rescue : {V : Type 0} → V → Calls F V → Calls F V
  rescue v m h = rescue_with v (m h)

  abbrev pub count_of : List (Json F) → ℕ
  count_of [] = 0
  count_of (j ∷ js) = suc (count_of js)

  -- `delete_managed`: none where the list cannot be read
  unfoldable pub delete_managed : Server F → Calls F ℕ
  unfolding items_of managed_items for_each item_at
  delete_managed server = rescue 0 (do
    answer ← send server (get_at (all_of network_chaos))
    branch (answer.status == 200)
        (do
          listed ← lift (items_of answer.body)
          mine ← lift (managed_items listed)
          for_each (delete_chaos server) mine
          lift (ok (count_of mine)))
        (lift (ok 0)))
