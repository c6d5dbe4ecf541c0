-- ===== src/Propagation/Adjacent.antt =====
-- What the dicts `upstreams` and `downstreams` of `_compute_resolved_x` hold after the loop over
-- the edges.
use cloud_native_emulator.Prelude.{
  ◌≡◌, refl, ◌⊎◌, inl, inr, String, Bool, true, false, ◌||◌, List, [], ◌∷◌, ite, text_dec, arith,
  if◌then◌else◌, Bool-cases, All, not, length, ◌==◌,
}
use cloud_native_emulator.Prelude.Dict.{update}
use cloud_native_emulator.Prelude.Result.{ok, >>=-eq-ok}
use cloud_native_emulator.Prelude.Sets
use cloud_native_emulator.Prelude.Sets.{contains, IsNodup}
use cloud_native_emulator.Template.{Edge}
use cloud_native_emulator.Propagation.{Adjacency, no_edges, add_edge, adjacency}

-- The edge runs from role `u` to another role `a`.
abbrev pub joins : Edge → String → String → Bool
joins e u a =
    ite (text_dec e.src u) (ite (text_dec e.dst a) (ite (text_dec u a) false true) false) false

-- Some edge runs from role `u` to another role `a`.
unfoldable pub feeds : List Edge → String → String → Bool
feeds [] u a = false
feeds (e ∷ es) u a = if joins e u a then true else feeds es u a

pub record IsAdjacency (roles : List String) (adj : Adjacency) : Type 0 where
  pub dual : (u a : String) → contains (adj.down u) a ≡ contains (adj.up a) u
  pub up_distinct : (a : String) → IsNodup (adj.up a)
  pub down_distinct : (u : String) → IsNodup (adj.down u)
  pub closed :
      (u a : String)
      → contains (adj.up a) u ≡ true
      → (contains roles a ≡ true) × (contains roles u ≡ true)

abbrev joined : Adjacency → Edge → Adjacency
joined adj e = record {
  up = update adj.up e.dst (Sets.add (adj.up e.dst) e.src);
  down = update adj.down e.src (Sets.add (adj.down e.src) e.dst);
}

module _ (roles : List String) (adj : Adjacency) (e : Edge) where
  add_edge-ok :
      {adj' : Adjacency}
      → add_edge roles adj e ≡ ok adj'
      → (e.src ≡ e.dst) × (adj' ≡ adj)
        ⊎ (¬ (e.src ≡ e.dst))
          × (contains roles e.dst ≡ true)
          × (contains roles e.src ≡ true)
          × (adj' ≡ joined adj e)
  unfolding add_edge contains
  add_edge-ok h = ground (arith, text_dec e.src e.dst)

  joined-up :
      ¬ (e.src ≡ e.dst)
      → (u a : String) → contains ((joined adj e).up a) u ≡ (contains (adj.up a) u || joins e u a)
  joined-up n u a =
      ground
        (arith, Sets.contains-add (adj.up e.dst) e.src u, Sets.contains_one e.src u, text_dec u a)

  joined-down :
      ¬ (e.src ≡ e.dst)
      → (u a : String)
      → contains ((joined adj e).down u) a ≡ (contains (adj.down u) a || joins e u a)
  joined-down n u a =
      ground
        (arith, Sets.contains-add (adj.down e.src) e.dst a, Sets.contains_one e.dst a, text_dec u a)

  joined-IsAdjacency :
      ¬ (e.src ≡ e.dst)
      → contains roles e.dst ≡ true
      → contains roles e.src ≡ true
      → IsAdjacency roles adj
      → IsAdjacency roles (joined adj e)
  joined-IsAdjacency n dst src ad = record {
    dual = λ u a. ground (arith, joined-up n u a, joined-down n u a, ad.dual u a);
    up_distinct = λ a.
        ground
          (arith, Sets.add-IsNodup (adj.up e.dst) e.src (ad.up_distinct e.dst), ad.up_distinct a);
    down_distinct = λ u. ground (
      arith,
      Sets.add-IsNodup (adj.down e.src) e.dst (ad.down_distinct e.src),
      ad.down_distinct u,
    );
    closed = λ u a m. ground (arith, joined-up n u a, ad.closed u a);
  }

  add_edge-IsAdjacency :
      {adj' : Adjacency}
      → add_edge roles adj e ≡ ok adj'
      → IsAdjacency roles adj
      → IsAdjacency roles adj'
        × ((u a : String) → contains (adj'.up a) u ≡ (contains (adj.up a) u || joins e u a))
  add_edge-IsAdjacency h ad = elim (add_edge-ok h) [
    | inl (self, same) ↦ rw same (ad, λ u a. ground (arith, text_dec u a))
    | inr (n, dst, src, new) ↦ rw new (joined-IsAdjacency n dst src ad, joined-up n)
  ]

adjacency_from :
    (roles : List String) (es : List Edge) (adj : Adjacency) {adj' : Adjacency}
    → adjacency roles es adj ≡ ok adj'
    → IsAdjacency roles adj
    → IsAdjacency roles adj'
      × ((u a : String) → contains (adj'.up a) u ≡ (contains (adj.up a) u || feeds es u a))
unfolding adjacency feeds
adjacency_from roles [] adj {adj'} h ad =
    let same : adj ≡ adj' = cc in rw (← same) (ad, λ u a. ground arith)
adjacency_from roles (e ∷ es) adj h ad =
    let (mid, added, rest) = >>=-eq-ok (add_edge roles adj e) (adjacency roles es) h in
    let (ad', up') = add_edge-IsAdjacency roles adj e added ad in
    let (ad'', up'') = adjacency_from roles es mid rest ad' in
    (ad'', λ u a. ground (arith, up' u a, up'' u a))

no_edges-IsAdjacency : (roles : List String) → IsAdjacency roles no_edges
unfolding contains
no_edges-IsAdjacency roles = record {
  dual = λ u a. refl;
  up_distinct = λ a. tt;
  down_distinct = λ u. tt;
  closed = λ u a m. cc;
}

module _ (roles : List String) (es : List Edge) where
  -- The sets hold just the pairs of different roles that an edge joins.
  pub adjacency-feeds :
      {adj : Adjacency}
      → adjacency roles es no_edges ≡ ok adj
      → IsAdjacency roles adj × ((u a : String) → contains (adj.up a) u ≡ feeds es u a)
  unfolding contains
  adjacency-feeds h =
      let (ad, up) = adjacency_from roles es no_edges h (no_edges-IsAdjacency roles) in
      (ad, λ u a. ground (arith, up u a))

add_edge_total :
    (roles : List String) (adj : Adjacency) (e : Edge)
    → (contains roles e.src ≡ true) × (contains roles e.dst ≡ true)
    → (adj' : Adjacency) × (add_edge roles adj e ≡ ok adj')
unfolding add_edge
add_edge_total roles adj e (src, dst) = elim (Bool-cases (contains (e.src ∷ []) e.dst)) [
  | inl self ↦ (adj, rw self)
  | inr other ↦ (joined adj e, rw (other, dst, src))
]

-- On a template whose edges join roles, the loop raises nothing.
pub adjacency_total :
    (roles : List String) (es : List Edge) (adj : Adjacency)
    → All (λ e. (contains roles e.src ≡ true) × (contains roles e.dst ≡ true)) es
    → (adj' : Adjacency) × (adjacency roles es adj ≡ ok adj')
unfolding adjacency
adjacency_total roles [] adj h = (adj, refl)
adjacency_total roles (e ∷ es) adj h =
    let (mid, added) = add_edge_total roles adj e h.0 in rw added (adjacency_total roles es mid h.1)

-- Some edge runs to role `a` from another role.
unfoldable pub is_fed : List Edge → String → Bool
is_fed [] a = false
is_fed (e ∷ es) a =
    if ite (text_dec e.dst a) (ite (text_dec e.src a) false true) false then true else is_fed es a

pub is_fed_of_feeds : (es : List Edge) (u a : String) → feeds es u a ≡ true → is_fed es a ≡ true
unfolding feeds is_fed
is_fed_of_feeds [] u a h = cc
is_fed_of_feeds (e ∷ es) u a h =
    ground (arith, is_fed_of_feeds es u a, text_dec e.src a, text_dec u a)

feeds_of_is_fed :
    (es : List Edge) (a : String) → is_fed es a ≡ true → (u : String) × (feeds es u a ≡ true)
unfolding feeds is_fed
feeds_of_is_fed [] a h = ("", cc)
feeds_of_is_fed (e ∷ es) a h = elim (Bool-cases (joins e e.src a)) [
  | inl now ↦ (e.src, rw now)
  | inr later ↦
      let (u, m) = feeds_of_is_fed es a (ground (arith, text_dec e.src e.src)) in (u, ground arith)
]

-- `remaining[r] == 0` at the start just where no other role sends to `r`.
pub null_up :
    (es : List Edge) (up : List String) (a : String)
    → ((u : String) → contains up u ≡ feeds es u a)
    → (length up == 0) ≡ not (is_fed es a)
unfolding contains
null_up es [] a h = elim (Bool-cases (is_fed es a)) [
  | inl fed ↦ let (u, m) = feeds_of_is_fed es a fed in absurd (ground (arith, h u))
  | inr free ↦ rw free
]
null_up es (u ∷ us) a h = ground (arith, h u, is_fed_of_feeds es u a, text_dec u u)
