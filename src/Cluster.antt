-- ===== src/Cluster.antt =====
-- controller/materialiser.py and controller/linkspec.py, what they do to the cluster: the calls of
-- controller/k8s.py as requests, with the program's own use of them. The API server is not
-- modelled: it may answer anything, and its answer may depend on all requests before.
pub mod Sending
pub mod Returning
pub mod Trees
pub mod Answers
pub mod Roles
pub mod Nodes
pub mod Materialise
pub mod Managed
pub mod Teardown
pub mod SystemX
pub mod Reading
pub mod Phases
pub mod Stepped
pub mod Removed
pub mod Refused
pub mod Posted
mod Tests
use cloud_native_emulator.Prelude.{
  ℕ, String, Bool, true, false, not, ◌&&◌, ◌||◌, Option, none, some, List, [], ◌∷◌, if◌then◌else◌,
  ltb, leb, ◌==◌, text_dec, ite,
}
use cloud_native_emulator.Prelude.Result
use cloud_native_emulator.Prelude.Result.{
  Result, Error, ok, err, value_error, type_error, key_error, runtime_error, unsupported_kind,
}
use cloud_native_emulator.Json
use cloud_native_emulator.Json.{Json, Fields, object, null, field, no_fields}
use cloud_native_emulator.Merge.{get}
use cloud_native_emulator.Shaping.{Command}

pub data Kind : Type 0 where
  deployment config_map service network_chaos node endpoints : Kind

-- A path of the API by its parts: all objects of a kind, one by its name, those with the
-- program's label (and, where a name is given, with that template's label), or those with a label
-- of some value.
pub data Address : Type 0 where
  all_of : Kind → Address
  named : Kind → String → Address
  labelled : Kind → Option String → Address
  selected : Kind → (label value : String) → Address

-- A call of k8s.get, k8s.post, k8s.patch or k8s.delete, or a script that is run on a node.
pub data Request (F : Type 0) : Type 0 where
  get_at delete_at : Address → Request F
  post_at patch_at : Address → Json F → Request F
  run_on : String → List Command → Request F

-- A status, and the body as json.loads gives it: `none` where it raises.
pub record Response (F : Type 0) : Type 0 where
  pub status : ℕ
  pub body : Option (Json F)

-- `_kind_path`, without its path: the kinds that it knows, by their names.
unfoldable pub kind_of : String → Result Kind
unfolding text_dec
kind_of k = ite (text_dec k "Deployment") (ok deployment) (
    ite (text_dec k "ConfigMap") (ok config_map)
      (ite (text_dec k "Service") (ok service) (err (value_error (unsupported_kind k)))))

-- 200 <= status < 300
abbrev pub is_success : ℕ → Bool
is_success n = leb 200 n && ltb n 300

-- The requests made so far, the last one first.
abbrev pub History : Type 0 → Type 0
History F = List (Request F)

abbrev pub Server : Type 0 → Type 0
Server F = History F → Request F → Response F

-- A computation that makes requests and returns or raises.
abbrev pub Calls : Type 0 → Type 0 → Type 0
Calls F V = History F → Result V × History F

abbrev pub then_call :
    {F V W : Type 0} → (V → Calls F W) → Result V × History F → Result W × History F
then_call f (ok v, h) = f v h
then_call f (err why, h) = (err why, h)

infixl 5 ◌>>=◌ ◌>>◌
unfoldable pub ◌>>=◌ : {F V W : Type 0} → Calls F V → (V → Calls F W) → Calls F W
◌>>=◌ m f h = then_call f (m h)

unfoldable pub ◌>>◌ : {F W : Type 0} → Calls F (Unit {0}) → Calls F W → Calls F W
◌>>◌ m n h = then_call (λ u. n) (m h)

unfoldable pub lift : {F V : Type 0} → Result V → Calls F V
lift r h = (r, h)

unfoldable pub done : {F : Type 0} → Calls F (Unit {0})
done h = (ok tt, h)

unfoldable pub send : {F : Type 0} → Server F → Request F → Calls F (Response F)
send server r h = (ok (server h r), r ∷ h)

-- A test between two computations.
unfoldable pub branch : {F V : Type 0} → Bool → Calls F V → Calls F V → Calls F V
branch true m n = m
branch false m n = n

module _ {F : Type 0} where
  -- `for v in vs`
  unfoldable pub for_each : {V : Type 0} → (V → Calls F (Unit {0})) → List V → Calls F (Unit {0})
  for_each f [] = done
  for_each f (v ∷ vs) = f v >> for_each f vs

  -- j[k]
  abbrev pub present : String → Option (Json F) → Result (Json F)
  present k none = err (key_error k)
  present k (some j) = ok j

  unfoldable pub item_at : String → Json F → Result (Json F)
  unfolding get
  item_at k (Json.object d) = present k (get k d)
  item_at k j = err type_error

  -- A name that the code puts into a path.
  abbrev pub as_text : Json F → Result String
  as_text (Json.text s) = ok s
  as_text j = err type_error

  -- resource["kind"] and resource["metadata"]["name"]: texts in every document.
  abbrev pub kind_in : Json F → Result String
  kind_in resource = Result.◌>>=◌ (item_at "kind" resource) as_text

  abbrev pub name_in : Json F → Result String
  name_in resource =
      Result.◌>>=◌ (Result.◌>>=◌ (item_at "metadata" resource) (item_at "name")) as_text

  -- The patch of `_apply`.
  unfoldable pub patch_existing : Server F → Kind → String → Json F → Calls F (Unit {0})
  patch_existing server kind name resource = do
    answer ← send server (patch_at (named kind name) resource)
    lift (if is_success answer.status then ok tt else err runtime_error)

  -- What `_apply` makes of the answer to its POST.
  unfoldable pub after_post : Server F → Kind → String → Json F → Response F → Calls F (Unit {0})
  unfolding patch_existing
  after_post server kind name resource answer =
      branch (answer.status == 200 || answer.status == 201) done (
        branch (answer.status == 409) (patch_existing server kind name resource)
          (lift (err runtime_error)))

  -- `_apply`
  unfoldable pub apply : Server F → Json F → Calls F (Unit {0})
  unfolding kind_of item_at after_post
  apply server resource = do
    kind_name ← lift (kind_in resource)
    name ← lift (name_in resource)
    kind ← lift (kind_of kind_name)
    answer ← send server (post_at (all_of kind) resource)
    after_post server kind name resource answer

  abbrev pub one : String → Json F → Json F
  one k v = object (field k v no_fields)

  -- `_unpin_node`: what the answer is makes no difference.
  unfoldable pub unpin_node : Server F → String → Calls F (Unit {0})
  unpin_node server name =
      send server (
        patch_at (named deployment name) (
          one "spec"
            (one "template" (one "spec" (one "nodeSelector" (one "kubernetes.io/hostname" null))))))
      >>= λ answer. done
