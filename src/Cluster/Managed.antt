-- ===== src/Cluster/Managed.antt =====
-- What the program reads back from the cluster: `list_managed`, `get_managed`,
-- `get_topology_doc` and `patch_template`. The peers that
-- `get_managed` adds to its answer are those of `compute_peers`.
use cloud_native_emulator.Prelude.{
  String, Bool, true, false, Option, none, some, List, [], ◌∷◌, if◌then◌else◌, ◌==◌, null, text_dec,
  ite,
}
use cloud_native_emulator.Prelude.Dict.{Dict, insert}
use cloud_native_emulator.Prelude.Float.{Float}
use cloud_native_emulator.Prelude.Int.{ℤ, pos}
use cloud_native_emulator.Prelude.Result
use cloud_native_emulator.Prelude.Result.{Result, ok, err, type_error}
use cloud_native_emulator.Prelude.Sets
use cloud_native_emulator.Prelude.Sets.{contains}
use cloud_native_emulator.Prelude.Sort.{sort}
use cloud_native_emulator.Json.{Json, Fields, object, no_fields}
use cloud_native_emulator.Merge.{get}
use cloud_native_emulator.Merge.Dots.{patched}
use cloud_native_emulator.Validation.{truthy}
use cloud_native_emulator.Cluster.{
  deployment, config_map, labelled, get_at, Response, Server, Calls, ◌>>=◌, lift, send, branch,
}
use cloud_native_emulator.Cluster.Answers.{items_of, get_in, metadata_text, object_name}
use cloud_native_emulator.Cluster.Materialise.{
  Setting, template_annotation, source_annotation, materialise,
}

abbrev pub topology_annotation : String
topology_annotation = "emulator.local/topology"

-- x or y, of texts that may be absent
abbrev pub or_else : Option String → Option String → Option String
or_else none other = other
or_else (some s) other = ite (text_dec s "") other (some s)

abbrev pub is_given : Option String → Bool
is_given none = false
is_given (some s) = ite (text_dec s "") false true

-- What `get_managed` returns.
pub record Info (F : Type 0) : Type 0 where
  pub source : Option String
  pub template : Option (Json F)
  pub replicas : Dict ℤ
  pub config_maps : List String

module _ {F : Type 0} where
  -- The loop of `list_managed`.
  unfoldable pub template_names : List String → List (Json F) → Result (List String)
  unfolding metadata_text Sets.add
  template_names names [] = ok names
  template_names names (j ∷ js) =
      Result.◌>>=◌ (metadata_text "labels" "template" j)
        (λ label. template_names (elim label [ none ↦ names | some n ↦ Sets.add names n ]) js)

  -- `list_managed`
  unfoldable pub list_managed : Server F → Calls F (List String)
  unfolding items_of template_names sort
  list_managed server = do
    answer ← send server (get_at (labelled config_map none))
    branch (answer.status == 200)
        (do
          items ← lift (items_of answer.body)
          names ← lift (template_names [] items)
          lift (ok (sort names)))
        (lift (ok []))

  -- The loop of `get_managed` over the ConfigMaps: the template's text and the source.
  unfoldable pub annotations_of :
      Option String → Option String → List (Json F) → Result (Option String × Option String)
  unfolding metadata_text
  annotations_of template source [] = ok (template, source)
  annotations_of template source (j ∷ js) =
      Result.◌>>=◌ (metadata_text "annotations" template_annotation j) (λ t.
        Result.◌>>=◌ (metadata_text "annotations" source_annotation j) (λ s.
          let rest = annotations_of (or_else template t) (or_else source s) js in
          if is_given (or_else template t)
          then (if is_given (or_else source s)
              then ok (or_else template t, or_else source s)
              else rest)
          else rest))

  -- int(dep.get("spec", {}).get("replicas", 0))
  abbrev pub replica_number : Option (Json F) → Result ℤ
  replica_number none = ok (pos 0)
  replica_number (some (Json.integer n)) = ok n
  replica_number (some j) = err type_error

  abbrev pub replicas_in : Json F → Result ℤ
  replicas_in (Json.object d) = replica_number (get "replicas" d)
  replicas_in j = err type_error

  -- The loop of `get_managed` over the Deployments.
  unfoldable pub replicas_of : Dict ℤ → List (Json F) → Result (Dict ℤ)
  unfolding metadata_text get_in get insert
  replicas_of out [] = ok out
  replicas_of out (j ∷ js) = Result.◌>>=◌ (metadata_text "labels" "role" j) (λ role.
      if is_given role
      then (Result.◌>>=◌ (Result.◌>>=◌ (get_in "spec" j) replicas_in)
          (λ n. replicas_of (elim role [ none ↦ out | some r ↦ insert r n out ]) js))
      else replicas_of out js)

  unfoldable pub names_of : List (Json F) → Result (List String)
  names_of [] = ok []
  names_of (j ∷ js) =
      Result.◌>>=◌ (object_name j) (λ n. Result.◌>>=◌ (names_of js) (λ ns. ok (n ∷ ns)))

  abbrev pub parsed : (String → Option (Json F)) → Option String → Option (Json F)
  parsed loads none = none
  parsed loads (some s) = ite (text_dec s "") none (loads s)

  abbrev pub read_replicas : Response F → Result (Dict ℤ)
  unfolding items_of replicas_of
  read_replicas answer =
      if answer.status == 200 then Result.◌>>=◌ (items_of answer.body) (replicas_of []) else ok []

  -- The second half of `get_managed`, from the ConfigMaps on.
  unfoldable pub describe :
      Server F → (String → Option (Json F)) → String → List (Json F) → Calls F (Info F)
  unfolding annotations_of replicas_of names_of items_of sort
  describe server loads name items = do
    found ← lift (annotations_of none none items)
    answer ← send server (get_at (labelled deployment (some name)))
    replicas ← lift (read_replicas answer)
    names ← lift (names_of items)
    lift (
        ok (record {
          source = found.1;
          template = parsed loads found.0;
          replicas = replicas;
          config_maps = sort names;
        }))

  -- `get_managed`
  unfoldable pub get_managed :
      Server F → (String → Option (Json F)) → String → Calls F (Option (Info F))
  unfolding describe items_of
  get_managed server loads name = do
    answer ← send server (get_at (labelled config_map (some name)))
    branch (answer.status == 200)
        (do
          items ← lift (items_of answer.body)
          branch (null items) (lift (ok none))
              (describe server loads name items >>= λ info. lift (ok (some info))))
        (lift (ok none))

  -- The loop of `get_topology_doc`.
  unfoldable pub topology_text : List (Json F) → Result (Option String)
  unfolding metadata_text
  topology_text [] = ok none
  topology_text (j ∷ js) =
      Result.◌>>=◌ (metadata_text "annotations" topology_annotation j)
        (λ t. if is_given t then ok t else topology_text js)

  -- `get_topology_doc`
  unfoldable pub get_topology_doc :
      Server F → (String → Option (Json F)) → String → Calls F (Option (Json F))
  unfolding items_of topology_text
  get_topology_doc server loads name = do
    answer ← send server (get_at (labelled config_map (some name)))
    branch (answer.status == 200)
        (do
          items ← lift (items_of answer.body)
          found ← lift (topology_text items)
          lift (ok (parsed loads found)))
        (lift (ok none))

module _ (fl : Float) (on : Setting fl) where
  open fl use {F}

  abbrev pub http_source : String
  http_source = "http"

  abbrev pub or_http : Option String → String
  or_http none = http_source
  or_http (some s) = ite (text_dec s "") http_source s

  -- `patch_template`, once the stored template is known.
  unfoldable pub patch_stored :
      String → Fields F → Option String → Json F → Calls F (Option (Json F))
  unfolding patched materialise
  patch_stored name patch source (Json.object existing) =
      materialise fl on (object (patched name existing patch)) (or_http source) no_fields >>= λ u.
      lift (ok (some (object (patched name existing patch))))
  patch_stored name patch source j = lift (err type_error)

  unfoldable pub patch_found :
      String → Fields F → Option String → Option (Json F) → Calls F (Option (Json F))
  unfolding patch_stored
  patch_found name patch source none = lift (ok none)
  patch_found name patch source (some existing) = patch_stored name patch source existing

  abbrev pub has_template : Option (Info F) → Option (Json F)
  has_template none = none
  has_template (some i) = elim i.template [
    | none ↦ none
    | some j ↦ if truthy fl j then some j else none
  ]

  abbrev pub source_in : Option (Info F) → Option String
  source_in none = none
  source_in (some i) = i.source

  -- `patch_template`. (materialise validates the merged template first, as patch_template does.)
  unfoldable pub patch_template : String → Fields F → Calls F (Option (Json F))
  unfolding get_managed patch_found
  patch_template name patch = do
    info ← get_managed on.server on.loads name
    patch_found name patch (source_in info) (has_template info)
