-- ===== src/App.antt =====
-- controller/app.py, the handlers of /template: which template is materialised and whether a
-- scenario runs. The write lock makes the requests one sequence. What the calls of the
-- materialiser do to the cluster is part of each request. The start of the runner, which comes
-- just after the lock is released, is taken as the end of its request.
pub mod Single
mod Tests
use cloud_native_emulator.Prelude.{
  String, Bool, true, false, not, ◌&&◌, Option, none, some, List, [], ◌∷◌, foldl, if◌then◌else◌,
  ite, text_dec,
}
use cloud_native_emulator.Prelude.Sets

-- The templates with a ConfigMap in the cluster, which are those that list_managed gives when the
-- API answers it, and the template whose scenario the runner moves.
pub record Server : Type 0 where
  pub managed : List String
  pub running : Option String

pub data Response : Type 0 where
  done bad_request not_found conflict failed : Response

-- list_managed: nothing where its request fails. (The body of an answer is taken to be JSON.)
abbrev pub managed_names : Bool → Server → List String
managed_names is_listed s = if is_listed then s.managed else []

-- `_single_template_name`: the name, or the response of the exception
pub data TheName : Type 0 where
  the_name : String → TheName
  raises : Response → TheName

unfoldable pub single_template_name : List String → TheName
single_template_name [] = raises not_found
single_template_name (n ∷ []) = the_name n
single_template_name (n ∷ m ∷ rest) = raises conflict

-- `existing and existing != [name]`
unfoldable pub is_conflict : List String → String → Bool
is_conflict [] name = false
is_conflict (n ∷ []) name = ite (text_dec n name) false true
is_conflict (n ∷ m ∷ rest) name = true

-- A POST: the template's name, whether the document passes validation, and whether it is a
-- topology with phases. In the cluster: whether the API answers list_managed, whether
-- materialising raises, and whether it has by then made a ConfigMap with the template's label.
pub record Create : Type 0 where
  pub name : String
  pub is_valid : Bool
  pub has_phases : Bool
  pub is_listed : Bool
  pub raises_error : Bool
  pub has_label : Bool

-- `create_template`, of either schema. (The role schema has no phases.)
unfoldable pub create_template : Create → Server → Server × Response
unfolding is_conflict Sets.add
create_template c s =
    let managed =
      if c.raises_error && not c.has_label then s.managed else Sets.add s.managed c.name in
    if not c.is_valid
    then (s, bad_request)
    else (if is_conflict (managed_names c.is_listed s) c.name
        then (s, conflict)
        else (if c.raises_error
            then (record { managed = managed; running = s.running }, failed)
            else (
              record {
                managed = managed;
                running = if c.has_phases then some c.name else s.running;
              },
              done,
            )))

-- `patch_template`: the objects of the one template are written again under its name.
unfoldable pub patch_template : Bool → Response → Server → Server × Response
unfolding single_template_name
patch_template is_listed outcome s = elim (single_template_name (managed_names is_listed s)) [
  | raises r ↦ (s, r)
  | the_name n ↦ (s, outcome)
]

abbrev pub without_name : String → List String → List String
without_name name [] = []
without_name name (n ∷ ns) = ite (text_dec n name) (without_name name ns) (n ∷ without_name name ns)

-- `delete_template`: the runner stops first. `is_gone` says whether the teardown removed every
-- labelled ConfigMap.
unfoldable pub delete_template : Bool → Bool → Server → Server × Response
unfolding single_template_name
delete_template is_listed is_gone s = elim (single_template_name (managed_names is_listed s)) [
  | raises r ↦ (s, r)
  | the_name n ↦ (
    record { managed = if is_gone then without_name n s.managed else s.managed; running = none },
    done,
  )
]

pub data Request : Type 0 where
  post : Create → Request
  patch : (is_listed : Bool) → Response → Request
  delete : (is_listed is_gone : Bool) → Request

unfoldable pub handle : Server → Request → Server
unfolding create_template patch_template delete_template
handle s (post c) = (create_template c s).0
handle s (patch is_listed outcome) = (patch_template is_listed outcome s).0
handle s (delete is_listed is_gone) = (delete_template is_listed is_gone s).0
