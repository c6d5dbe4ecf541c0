-- ===== src/Peers/Services.antt =====
-- `compute_peers` and `_compute_fanin`: what the edges of a template say of each role, before any
-- pod is known. A role's Service is named after the template and the role.
use Prim.Native.String.{len, slice}
use text.Mathlib.TextPositions.{len-append, slice-append_right}
use cloud_native_emulator.Prelude.{
  ℕ, ◌+◌, ◌≡◌, refl, ◌∙◌, ap, sym, String, ◌<>◌, Bool, true, false, ◌||◌, none, some, List, [], ◌∷◌,
  arith, if◌then◌else◌, text_dec, ite, All,
}
use cloud_native_emulator.Prelude.Dict.{Dict, keys, lookup, update}
use cloud_native_emulator.Prelude.Result.{Result, ok, err, key_error, ◌>>=◌, ◌>>◌, guard}
use cloud_native_emulator.Prelude.Sets
use cloud_native_emulator.Prelude.Sets.{contains, IsNodup}
use cloud_native_emulator.Template.{Role, Edge, Template, IsWellFormed}

-- prefix = f"wt-{name}-"
unfoldable pub prefix : String → String
prefix name = "wt-" <> (name <> "-")

-- f"wt-{name}-{role}"
unfoldable pub service : String → String → String
unfolding prefix
service name role = prefix name <> role

-- svc[len(prefix):]
unfoldable pub role_of : String → String → String
unfolding prefix
role_of name svc = slice svc (len (prefix name)) (len svc)

-- The Service's name gives the role back.
pub role_of-service : (name role : String) → role_of name (service name role) ≡ role
unfolding role_of service
role_of-service name role =
    ap (slice (prefix name <> role) (len (prefix name))) (len-append (prefix name) role)
    ∙ slice-append_right (prefix name) role

pub service_injective : (name r s : String) → service name r ≡ service name s → r ≡ s
service_injective name r s h = cc (role_of-service name r, role_of-service name s)

-- The body of the loop of `compute_peers`. (The test on self-edges only logs.)
unfoldable pub add_peer :
    String → List String → (String → List String) → Edge → Result (String → List String)
unfolding service
add_peer name roles peers e = do
  guard (contains roles e.src) (key_error e.src)
  ok (update peers e.src (Sets.add (peers e.src) (service name e.dst)))

unfoldable pub add_peers :
    String → List String → (String → List String) → List Edge → Result (String → List String)
unfolding add_peer
add_peers name roles peers [] = ok peers
add_peers name roles peers (e ∷ es) =
    add_peer name roles peers e >>= λ next. add_peers name roles next es

module _ {F : Type 0} where
  -- `compute_peers`: the services that each role sends to. Every role starts with none.
  unfoldable pub compute_peers : Template F → Result (String → List String)
  unfolding add_peers
  compute_peers t = add_peers t.name (keys t.roles) (λ _. []) t.edges

  unfoldable pub add_fanin : Dict (Role F) → (String → ℕ) → Edge → Result (String → ℕ)
  add_fanin roles fanin e = do
    guard (contains (keys roles) e.dst) (key_error e.dst)
    elim (lookup e.src roles) [
      | none ↦ err (key_error e.src)
      | some role ↦ ok (update fanin e.dst (fanin e.dst + role.count))
    ]

  unfoldable pub add_fanins : Dict (Role F) → (String → ℕ) → List Edge → Result (String → ℕ)
  unfolding add_fanin
  add_fanins roles fanin [] = ok fanin
  add_fanins roles fanin (e ∷ es) = add_fanin roles fanin e >>= λ next. add_fanins roles next es

  -- `_compute_fanin`
  unfoldable pub compute_fanin : Template F → Result (String → ℕ)
  unfolding add_fanins
  compute_fanin t = add_fanins t.roles (λ _. 0) t.edges

-- Some edge runs from `r` to `d`, `d` itself included.
unfoldable pub has_edge : List Edge → String → String → Bool
has_edge [] r d = false
has_edge (e ∷ es) r d =
    if ite (text_dec e.src r) (ite (text_dec e.dst d) true false) false
    then true
    else has_edge es r d

module _ (name : String) (roles : List String) where
  -- Every peer is the Service of a role.
  abbrev pub AreServices : (String → List String) → Type 0
  AreServices peers =
      (r svc : String)
      → contains (peers r) svc ≡ true
      → (d : String) × (svc ≡ service name d) × (contains roles d ≡ true)

  add_peers-AreServices :
      (es : List Edge) (peers : String → List String) {peers' : String → List String}
      → All (λ e. (contains roles e.src ≡ true) × (contains roles e.dst ≡ true)) es
      → add_peers name roles peers es ≡ ok peers'
      → AreServices peers
      → AreServices peers'
  unfolding add_peers
  add_peers-AreServices [] peers {peers'} h ran shape =
      let same : peers ≡ peers' = cc in rw (← same) shape
  add_peers-AreServices (e ∷ es) peers h ran shape =
      add_peers-AreServices es (update peers e.src (Sets.add (peers e.src) (service name e.dst)))
        h.1 (rw h.0.0 at ran)
        λ r svc m. elim (text_dec (service name e.dst) svc) [
          | yes new ↦ (e.dst, sym new, h.0.1)
          | no other ↦ shape r svc (
              ground (
                arith,
                text_dec e.src r,
                Sets.contains-add (peers e.src) (service name e.dst) svc,
                Sets.contains_one (service name e.dst) svc,
              ))
        ]

  -- The services of `peers`, and no service twice.
  add_peers_result :
      (es : List Edge) (peers : String → List String)
      → All (λ e. (contains roles e.src ≡ true) × (contains roles e.dst ≡ true)) es
      → ((r : String) → IsNodup (peers r))
      → (peers' : String → List String) × (add_peers name roles peers es ≡ ok peers')
        × ((r : String) → IsNodup (peers' r))
        × ((r d : String)
            → contains (peers' r) (service name d)
              ≡ (contains (peers r) (service name d) || has_edge es r d))
  unfolding add_peers has_edge
  add_peers_result [] peers h d = (peers, refl, d, λ r d. ground arith)
  add_peers_result (e ∷ es) peers h d =
      let next = update peers e.src (Sets.add (peers e.src) (service name e.dst)) in
      let (peers', ran, once, holds) = add_peers_result es next h.1 (λ r. ground (
        arith,
        d r,
        text_dec e.src r,
        Sets.add-IsNodup (peers e.src) (service name e.dst) (d e.src),
      )) in
      (
        peers',
        rw h.0.0 ran,
        once,
        λ r c. ground (
          arith,
          holds r c,
          text_dec e.src r,
          text_dec e.dst c,
          text_dec (service name e.dst) (service name c),
          service_injective name e.dst c,
          Sets.contains-add (peers e.src) (service name e.dst) (service name c),
          Sets.contains_one (service name e.dst) (service name c),
        ),
      )

-- On a well-formed template `compute_peers` raises nothing, lists the Service of role `d` among
-- the peers of role `r` exactly when some edge runs from `r` to `d`, lists no Service twice, and lists nothing but
-- Services of roles.
pub compute_peers-edges :
    {F : Type 0} (t : Template F)
    → IsWellFormed t
    → (peers : String → List String) × (compute_peers t ≡ ok peers)
      × ((r : String) → IsNodup (peers r))
      × ((r d : String) → contains (peers r) (service t.name d) ≡ has_edge t.edges r d)
      × AreServices t.name (keys t.roles) peers
unfolding compute_peers contains
compute_peers-edges t wf =
    let (peers, ran, once, holds) =
      add_peers_result t.name (keys t.roles) t.edges (λ _. []) wf.joined (λ r. tt) in
    (
      peers,
      ran,
      once,
      λ r d. ground (arith, holds r d),
      add_peers-AreServices t.name (keys t.roles) t.edges (λ _. []) wf.joined ran (λ r svc m. cc),
    )
