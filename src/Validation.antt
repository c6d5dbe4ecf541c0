-- ===== src/Validation.antt =====
-- controller/materialiser.py, `validate_template` on a JSON document, and the role graph that
-- `_compute_resolved_x` reads from it. A conversion by float() is made before the graph is
-- resolved; the program makes it when a role's turn comes, so that where a cycle and a value that
-- is no number both stand in a document the exception may be the other one.
pub mod Parts
pub mod Accepted
mod Tests
use cloud_native_emulator.Prelude.{
  ℕ, String, Bool, true, false, not, ◌&&◌, ◌||◌, Option, none, some, List, [], ◌∷◌, if◌then◌else◌,
  leb, ◌==◌, all, any, codes, ite, text_dec,
}
use cloud_native_emulator.Prelude.Dict.{Dict, keys}
use cloud_native_emulator.Prelude.Float.{Float}
use cloud_native_emulator.Prelude.Int.{ℤ, pos, negsuc}
use cloud_native_emulator.Prelude.Result.{
  overflow_error, Result, ok, err, value_error, type_error, ◌>>=◌, ◌>>◌, guard,
  template_not_an_object, no_template_name, template_name_letters, no_roles, role_not_an_object,
  count_not_positive, tier_not_a_name, node_not_a_name, no_coefficients, unknown_from, unknown_to,
  not_a_float,
}
use cloud_native_emulator.Prelude.Sets.{contains}
use cloud_native_emulator.Json
use cloud_native_emulator.Json.{Json, Items, Fields, entries, null, no_items, no_fields}
use cloud_native_emulator.Links.{is_empty, validate_latency}
use cloud_native_emulator.Merge.{get}
use cloud_native_emulator.Propagation.{compute_resolved_x}
use cloud_native_emulator.Template.{Axis, Role, Edge, InputX, number, per_source, Template}

-- c.islower() or c.isdigit() or c == "-". `wide` says which characters beyond ASCII are lower
-- case or digits.
abbrev pub is_name_letter : (ℕ → Bool) → ℕ → Bool
is_name_letter wide c =
    (leb b'a' c && leb c b'z') || (leb b'0' c && leb c b'9') || (c == b'-') || (leb 128 c && wide c)

abbrev pub has_coefficients : {F : Type 0} → Fields F → Bool
has_coefficients d = elim (get "a" d) [
  | none ↦ false
  | some _ ↦ elim (get "b" d) [ none ↦ false | some _ ↦ true ]
]

abbrev pub known : Option String → Result String → Result String
known none missing = missing
known (some s) missing = ok s

abbrev pub count_found : String → Option ℕ → Result ℕ
count_found r none = err (value_error (count_not_positive r))
count_found r (some n) = ok n

module _ {F : Type 0} where
  -- isinstance(v, int) and v >= 1, with the number: a boolean is an int
  abbrev pub positive_int : Option (Json F) → Option ℕ
  positive_int (some (Json.integer (pos n))) = if leb 1 n then some n else none
  positive_int (some (Json.boolean true)) = some 1
  positive_int j = none

  abbrev pub check_axis : String → String → Option (Json F) → Result (Unit {0})
  check_axis r ax (some (Json.object sub)) =
      guard (has_coefficients sub) (value_error (no_coefficients r ax))
  check_axis r ax j = err (value_error (no_coefficients r ax))

  abbrev pub check_tier : String → Option (Json F) → Result (Unit {0})
  check_tier r none = ok tt
  check_tier r (some Json.null) = ok tt
  check_tier r (some (Json.text s)) = guard (not (is_empty s)) (value_error (tier_not_a_name r))
  check_tier r j = err (value_error (tier_not_a_name r))

  abbrev pub check_node : String → Option (Json F) → Result (Unit {0})
  check_node r none = ok tt
  check_node r (some Json.null) = ok tt
  check_node r (some (Json.text s)) = ok tt
  check_node r j = err (value_error (node_not_a_name r))

  abbrev pub check_fields : String → Fields F → Result (Unit {0})
  check_fields r d = do
    check_axis r "cpu" (get "cpu" d)
    check_axis r "ram" (get "ram" d)
    check_axis r "net" (get "net" d)
    check_tier r (get "tier" d)
    check_node r (get "node" d)

  -- The body of the loop over the roles, with the role's count.
  unfoldable pub check_role : String → Json F → Result ℕ
  unfolding get
  check_role r (Json.object d) = do
    n ← count_found r (positive_int (get "count" d))
    check_fields r d
    ok n
  check_role r j = err (value_error (role_not_an_object r))

  unfoldable pub check_roles : Dict (Json F) → Result (Dict ℕ)
  unfolding check_role
  check_roles [] = ok []
  check_roles ((r, j) ∷ rest) = do
    n ← check_role r j
    counts ← check_roles rest
    ok ((r, n) ∷ counts)

  -- edge.get(end) in roles; a list and an object cannot be hashed
  abbrev pub endpoint : List String → Option (Json F) → Result (Option String)
  endpoint roles (some (Json.text s)) = ok (if contains roles s then some s else none)
  endpoint roles (some (Json.array xs)) = err type_error
  endpoint roles (some (Json.object d)) = err type_error
  endpoint roles j = ok none

  -- The body of the loop over the edges, with the edge.
  unfoldable pub check_edge : List String → Json F → Result Edge
  unfolding get
  check_edge roles (Json.object d) = do
    from ← endpoint roles (get "from" d)
    src ← known from (err (value_error unknown_from))
    to ← endpoint roles (get "to" d)
    dst ← known to (err (value_error unknown_to))
    ok (record { src = src; dst = dst })
  check_edge roles j = err type_error

  unfoldable pub check_edges : List String → Items F → Result (List Edge)
  unfolding check_edge
  check_edges roles Json.no_items = ok []
  check_edges roles (Json.item j rest) = do
    e ← check_edge roles j
    es ← check_edges roles rest
    ok (e ∷ es)

-- What the checks of shape find: the name, the document, its roles with their counts, its edges.
pub record Checked (F : Type 0) : Type 0 where
  pub name : String
  pub body : Fields F
  pub roles : Fields F
  pub counts : Dict ℕ
  pub edges : List Edge

abbrev pub no_entries : {F : Type 0} → Fields F → Bool
no_entries Json.no_fields = true
no_entries (Json.field k v rest) = false

abbrev pub has_no_items : {F : Type 0} → Items F → Bool
has_no_items Json.no_items = true
has_no_items (Json.item v rest) = false

module _ (fl : Float) where
  open fl use {F, of_int, int_fits, equal, parse}

  -- bool(v)
  abbrev pub truthy : Json F → Bool
  truthy Json.null = false
  truthy (Json.boolean b) = b
  truthy (Json.integer (pos n)) = not (n == 0)
  truthy (Json.integer (negsuc n)) = true
  truthy (Json.real v) = not (equal v (of_int (pos 0)))
  truthy (Json.text s) = not (is_empty s)
  truthy (Json.array xs) = not (has_no_items xs)
  truthy (Json.object d) = not (no_entries d)

  -- float(v)
  unfoldable pub float_of : Json F → Result F
  float_of (Json.integer n) = if int_fits n then ok (of_int n) else err overflow_error
  float_of (Json.real v) = ok v
  float_of (Json.boolean b) = ok (of_int (pos (if b then 1 else 0)))
  float_of (Json.text s) = elim (parse (codes s)) [
    | none ↦ err (value_error not_a_float)
    | some v ↦ ok v
  ]
  float_of j = err type_error

  -- float(v or 0)
  unfoldable pub float_or_zero : Option (Json F) → Result F
  unfolding float_of
  float_or_zero none = ok (of_int (pos 0))
  float_or_zero (some j) = if truthy j then float_of j else ok (of_int (pos 0))

  -- template.get("edges", []) or []
  abbrev pub array_items : Json F → Result (Items F)
  array_items (Json.array xs) = ok xs
  array_items j = err type_error

  abbrev pub edge_items : Option (Json F) → Result (Items F)
  edge_items none = ok no_items
  edge_items (some j) = if truthy j then array_items j else ok no_items

  abbrev pub name_of : (ℕ → Bool) → Option (Json F) → Result String
  name_of wide (some (Json.text s)) = do
    guard (not (is_empty s)) (value_error no_template_name)
    guard (all (is_name_letter wide) (codes s)) (value_error template_name_letters)
    ok s
  name_of wide j = err (value_error no_template_name)

  abbrev pub roles_of : Option (Json F) → Result (Fields F)
  roles_of (some (Json.object roles)) =
      guard (not (no_entries roles)) (value_error no_roles) >> ok roles
  roles_of j = err (value_error no_roles)

  -- The checks of `validate_template` before those of the latency and of the graph.
  unfoldable pub check_shape : (ℕ → Bool) → Json F → Result (Checked F)
  unfolding get check_roles check_edges codes
  check_shape wide (Json.object d) = do
    name ← name_of wide (get "name" d)
    roles ← roles_of (get "roles" d)
    counts ← check_roles (entries roles)
    items ← edge_items (get "edges" d)
    edges ← check_edges (keys (entries roles)) items
    ok (record { name = name; body = d; roles = roles; counts = counts; edges = edges })
  check_shape wide j = err (value_error template_not_an_object)

  -- A source role: no edge but its own leads to it.
  abbrev pub is_source : List Edge → String → Bool
  is_source edges r =
      not (any (λ e. ite (text_dec e.dst r) (ite (text_dec e.src r) false true) false) edges)

  -- The roles that the function of `_source_x_fn` is asked for.
  abbrev pub wanted : Checked F → String → Bool
  wanted c r = contains (keys (entries c.roles)) r && is_source c.edges r

  -- The entries of an x map that `_source_x_fn` is asked for.
  unfoldable pub read_sources : (String → Bool) → Dict (Json F) → Result (Dict F)
  unfolding float_or_zero
  read_sources wanted [] = ok []
  read_sources wanted ((r, j) ∷ rest) =
      if wanted r
      then (float_or_zero (some j) >>= λ v. read_sources wanted rest >>= λ vs. ok ((r, v) ∷ vs))
      else read_sources wanted rest

  unfoldable pub read_x : (String → Bool) → Option (Json F) → Result (InputX F)
  unfolding read_sources float_or_zero
  read_x wanted (some (Json.object x)) =
      read_sources wanted (entries x) >>= λ sources. ok (per_source sources)
  read_x wanted x = float_or_zero x >>= λ v. ok (number v)

  abbrev pub given_float : Option (Json F) → Result F
  given_float none = err type_error
  given_float (some j) = float_of j

  abbrev pub read_axis : Option (Json F) → Result (Axis F)
  read_axis (some (Json.object sub)) = do
    a ← given_float (get "a" sub)
    b ← given_float (get "b" sub)
    ok (record { a = a; b = b })
  read_axis j = err type_error

  abbrev pub zero_axis : Axis F
  zero_axis = record { a = of_int (pos 0); b = of_int (pos 0) }

  -- What the graph has of a role: its count and its net axis. (`_compute_resolved_x` reads no
  -- other field, and none of the others is a number of the graph.)
  unfoldable pub read_role : ℕ → Json F → Result (Role F)
  unfolding get float_of
  read_role n (Json.object d) = do
    net ← read_axis (get "net" d)
    ok (record { count = n; cpu = zero_axis; ram = zero_axis; net = net; tier = none; node = none })
  read_role n j = err type_error

  unfoldable pub read_roles : Dict ℕ → Dict (Json F) → Result (Dict (Role F))
  unfolding read_role
  read_roles ((s, n) ∷ counts) ((r, j) ∷ rest) = do
    role ← read_role n j
    roles ← read_roles counts rest
    ok ((r, role) ∷ roles)
  read_roles counts rest = ok []

  -- The role graph of a document that has passed the checks of shape.
  unfoldable pub read_graph : Checked F → Result (Template F)
  unfolding read_x read_roles get
  read_graph c = do
    x ← read_x (wanted c) (get "x" c.body)
    roles ← read_roles c.counts (entries c.roles)
    ok (record { name = c.name; x = x; roles = roles; edges = c.edges })

  abbrev pub or_null : Option (Json F) → Json F
  or_null none = null
  or_null (some j) = j

  -- `validate_template`; `order` is the order in which Python iterates a set.
  unfoldable pub validate_template :
      (ℕ → Bool) → (List String → List String) → Json F → Result (Unit {0})
  unfolding check_shape read_graph get
  validate_template wide order j = do
    c ← check_shape wide j
    pairs ← validate_latency fl (or_null (get "latency" c.body))
    t ← read_graph c
    resolved ← compute_resolved_x fl order t
    ok tt
