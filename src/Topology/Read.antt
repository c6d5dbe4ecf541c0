-- ===== src/Topology/Read.antt =====
-- controller/materialiser.py, `validate_topology`: the parts of a document, and the bodies of the
-- loops over its sites and links.
use cloud_native_emulator.Prelude.{String, Option, none, some, List, [], ◌∷◌, if◌then◌else◌, ℕ}
use cloud_native_emulator.Prelude.Int.{pos}
use cloud_native_emulator.Prelude.Result.{
  Result, ok, err, Error, value_error, type_error, ◌>>=◌, site_not_an_object, no_site_id,
  no_tier_id, link_end, replicas_not_positive,
}
use cloud_native_emulator.Prelude.Sets.{contains}
use cloud_native_emulator.Json
use cloud_native_emulator.Json.{Json, Items, Fields, integer, no_fields, no_items}
use cloud_native_emulator.Links.{is_empty}
use cloud_native_emulator.Merge.{get}
use cloud_native_emulator.Template.{Axis}
use cloud_native_emulator.Validation.{positive_int}

pub record Site (F : Type 0) : Type 0 where
  pub site_id : String
  pub tier_id : String
  pub tier_name : Option (Json F)

-- A link between two sites; `one_way` is the latency in milliseconds.
pub record Link (F : Type 0) : Type 0 where
  pub source : String
  pub target : String
  pub one_way : Json F
  pub bandwidth : Option (Json F)

-- An element of k8s_app_description; `tier` is the tier id of its node_selector.
pub record Description (F : Type 0) : Type 0 where
  pub deployment_id : String
  pub deployment_name : String
  pub tier : Option String
  pub replicas : ℕ
  pub node : Option (Json F)
  pub namespace : Option (Json F)

-- The load of an app: its three functions of x.
pub record Load (F : Type 0) : Type 0 where
  pub cpu : Axis F
  pub ram : Axis F
  pub net : Axis F

pub record AppEntry (F : Type 0) : Type 0 where
  pub app_id : Option String
  pub deployment_ref : Option String
  pub load : Option (Load F)

pub record AppEdge : Type 0 where
  pub source : String
  pub target : String

pub record Places (F : Type 0) : Type 0 where
  pub sites : List (Site F)
  pub links : List (Link F)
  pub deployments : List (Description F)

pub record Traffic (F : Type 0) : Type 0 where
  pub apps : List (AppEntry F)
  pub edges : List AppEdge

-- A document that has been checked; `body` has its fields.
pub record Topology (F : Type 0) : Type 0 where
  pub body : Fields F
  pub sites : List (Site F)
  pub links : List (Link F)
  pub deployments : List (Description F)
  pub apps : List (AppEntry F)
  pub edges : List AppEdge

module _ {F : Type 0} where
  -- A loop over a list, with what its body makes of each element.
  unfoldable pub read_all : {V : Type 0} → (Json F → Result V) → Items F → Result (List V)
  read_all read Json.no_items = ok []
  read_all read (Json.item j js) = do v ← read j; vs ← read_all read js; ok (v ∷ vs)

  -- A text that is not empty.
  abbrev pub some_text : Error → Option (Json F) → Result String
  some_text why (some (Json.text s)) = if is_empty s then err why else ok s
  some_text why j = err why

  -- An array that is not empty.
  abbrev pub some_items : Error → Option (Json F) → Result (Items F)
  some_items why (some (Json.array (Json.item j js))) = ok (Json.item j js)
  some_items why j = err why

  -- A text of a set; a list and an object cannot be hashed.
  abbrev pub member : List String → Error → Json F → Result String
  member known why (Json.text s) = if contains known s then ok s else err why
  member known why (Json.array xs) = err type_error
  member known why (Json.object d) = err type_error
  member known why j = err why

  abbrev pub optional_member : List String → Error → Option (Json F) → Result (Option String)
  optional_member known why none = ok none
  optional_member known why (some Json.null) = ok none
  optional_member known why (some j) = member known why j >>= λ s. ok (some s)

  abbrev pub given : Json F → Option (Json F) → Json F
  given default none = default
  given default (some j) = j

  unfoldable pub read_site : Json F → Result (Site F)
  unfolding get
  read_site (Json.object d) = do
    site ← some_text (value_error no_site_id) (get "site_id" d)
    tier ← some_text (value_error (no_tier_id site)) (get "tier_id" d)
    ok (record { site_id = site; tier_id = tier; tier_name = get "tier_name" d })
  read_site j = err (value_error site_not_an_object)

  -- The ends of a link, with what `translate_topology` reads of it.
  unfoldable pub read_link : List String → Json F → Result (Link F)
  unfolding get
  read_link sites (Json.object d) = do
    source ←
        member sites (value_error (link_end "source_site_id"))
          (given Json.null (get "source_site_id" d))
    target ←
        member sites (value_error (link_end "target_site_id"))
          (given Json.null (get "target_site_id" d))
    ok (record {
      source = source;
      target = target;
      one_way = given (given (integer (pos 0)) (get "rtt_ms" d)) (get "one_way_ms" d);
      bandwidth = get "bandwidth_mbps" d;
    })
  read_link sites j = err type_error

  abbrev pub replicas_given : String → Option (Json F) → Result ℕ
  replicas_given id none = ok 1
  replicas_given id (some j) = elim (positive_int (some j)) [
    | none ↦ err (value_error (replicas_not_positive id))
    | some n ↦ ok n
  ]

  abbrev pub text_or_absent : Option (Json F) → Result (Option String)
  text_or_absent none = ok none
  text_or_absent (some Json.null) = ok none
  text_or_absent (some (Json.text s)) = ok (some s)
  text_or_absent (some j) = err type_error
