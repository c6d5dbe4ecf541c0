-- ===== src/Propagation.antt =====
-- controller/materialiser.py, `_source_x_fn` and `_compute_resolved_x`: the signal x travels from
-- the source roles down the role graph, by Kahn's algorithm.
pub mod Adjacent
pub mod Counting
pub mod Release
pub mod Solution
pub mod Invariant
pub mod Step
pub mod Loop
pub mod Rank
pub mod Ending
pub mod Correct
mod Tests
use cloud_native_emulator.Prelude.{
  ℕ, zero, suc, ◌-◌, String, Bool, true, none, some, List, [], ◌∷◌, ◌++◌, foldl, length, select,
  ◌==◌, not, if◌then◌else◌,
}
use cloud_native_emulator.Prelude.Dict.{Dict, keys, lookup, update}
use cloud_native_emulator.Prelude.Float.{Float}
use cloud_native_emulator.Prelude.Int.{pos}
use cloud_native_emulator.Prelude.Result.{
  Result, ok, err, value_error, key_error, diverged, cycle, overflow_error, ◌>>=◌, ◌>>◌, guard,
}
use cloud_native_emulator.Prelude.Sets
use cloud_native_emulator.Prelude.Sets.{contains}
use cloud_native_emulator.Prelude.Sort.{sort}
use cloud_native_emulator.Template.{Role, Edge, InputX, number, per_source, Template}

-- The dicts `upstreams` and `downstreams`. Every role has an entry, empty at first.
pub record Adjacency : Type 0 where
  pub up : String → List String
  pub down : String → List String

abbrev pub no_edges : Adjacency
no_edges = record { up = λ _. []; down = λ _. [] }

-- The body of the loop over the edges. A self-edge is skipped; an endpoint that is no role is a
-- missing key.
unfoldable pub add_edge : List String → Adjacency → Edge → Result Adjacency
add_edge roles adj e = if contains (e.src ∷ []) e.dst then ok adj else (do
  guard (contains roles e.dst) (key_error e.dst)
  guard (contains roles e.src) (key_error e.src)
  ok (record {
    up = update adj.up e.dst (Sets.add (adj.up e.dst) e.src);
    down = update adj.down e.src (Sets.add (adj.down e.src) e.dst);
  }))

unfoldable pub adjacency : List String → List Edge → Adjacency → Result Adjacency
adjacency roles [] adj = ok adj
adjacency roles (e ∷ es) adj = add_edge roles adj e >>= adjacency roles es

module _ (fl : Float) where
  open fl use {F, of_int, int_fits, add, mul, less, equal}

  abbrev pub float_zero : F
  float_zero = of_int (pos 0)

  -- max(0.0, v)
  unfoldable pub at_least_zero : F → F
  at_least_zero v = if less float_zero v then v else float_zero

  -- `v or 0`
  abbrev or_zero : F → F
  or_zero v = if equal v float_zero then float_zero else v

  -- `_source_x_fn`
  unfoldable pub source_x : InputX F → String → F
  source_x (number v) r = or_zero v
  source_x (per_source m) r = elim (lookup r m) [ none ↦ float_zero | some v ↦ or_zero v ]

  -- role_total_egress, of a role whose x is known
  unfoldable pub role_egress : Role F → F → F
  role_egress role x =
      mul (of_int (pos role.count)) (at_least_zero (add (mul role.net.a x) role.net.b))

  -- `roles[r]`: every queued role is a key of the template's roles.
  unfoldable pub egress : Dict (Role F) → String → F → F
  egress roles r x = elim (lookup r roles) [ none ↦ float_zero | some role ↦ role_egress role x ]

  -- Whether int(role["count"]) can be multiplied by a float.
  unfoldable pub count_fits : Dict (Role F) → String → Bool
  count_fits roles r = elim (lookup r roles) [ none ↦ true | some role ↦ int_fits (pos role.count) ]

  -- The locals of the loop. `queue` is `done` (before `head`) and `todo`, and each role stands
  -- beside its entry of `resolved`: the code appends to the one where it writes the other.
  pub record Kahn : Type 0 where
    pub done : Dict F
    pub todo : Dict F
    pub accum : String → F
    pub remaining : String → ℕ

  -- One pass of the inner loop, for a downstream role `d` and the traffic `e` that reaches it.
  -- `remaining[d] -= 1` reaches 0 just where it was 1.
  unfoldable pub release : F → Kahn → String → Kahn
  release e st d =
      let total = add (st.accum d) e in
      if st.remaining d == 1
      then (record {
        done = st.done;
        todo = st.todo ++ ((d, total) ∷ []);
        accum = update st.accum d total;
        remaining = update st.remaining d 0;
      })
      else (record {
        done = st.done;
        todo = st.todo;
        accum = update st.accum d total;
        remaining = update st.remaining d (st.remaining d - 1);
      })

  -- A Python set is iterated in an order that the language does not fix: `order` gives it.
  module _ (order : List String → List String) (roles : Dict (Role F)) (adj : Adjacency) where
    -- One pass of the outer loop, for the role at the head of the queue.
    unfoldable pub visit : String → F → Dict F → Kahn → Kahn
    unfolding release
    visit r x rest st =
        foldl (release (egress roles r x))
          (record {
            done = st.done ++ ((r, x) ∷ []);
            todo = rest;
            accum = st.accum;
            remaining = st.remaining;
          })
          (order (adj.down r))

    -- A count that does not convert raises before anything of its role is written.
    unfoldable pub drain : ℕ → Dict F → Kahn → Result Kahn
    unfolding visit count_fits
    drain fuel [] st = ok st
    drain zero (e ∷ rest) st = err diverged
    drain (suc fuel) ((r, x) ∷ rest) st =
        let next = visit r x rest st in
        guard (count_fits roles r) overflow_error >> drain fuel next.todo next

  -- The queue at the start: the roles with no upstream, each at its input x.
  unfoldable pub sources : InputX F → Adjacency → List String → Dict F
  unfolding source_x
  sources x adj [] = []
  sources x adj (r ∷ rs) =
      if length (adj.up r) == 0 then (r, source_x x r) ∷ sources x adj rs else sources x adj rs

  unfoldable pub start : InputX F → Adjacency → List String → Kahn
  unfolding sources
  start x adj rs = record {
    done = [];
    todo = sources x adj rs;
    accum = λ _. float_zero;
    remaining = λ r. length (adj.up r);
  }

  -- The test after the loop: every role has its x, or those that do not are named.
  unfoldable pub report : List String → Dict F → Result (Dict F)
  report rs resolved =
      if length resolved == length rs
      then ok resolved
      else err (value_error (cycle (sort (select (λ r. not (contains (keys resolved) r)) rs))))

  -- `_compute_resolved_x`. The fuel is the number of roles.
  unfoldable pub compute_resolved_x : (List String → List String) → Template F → Result (Dict F)
  unfolding adjacency add_edge drain start report
  compute_resolved_x order t =
      let rs = keys t.roles in
      do
        adj ← adjacency rs t.edges no_edges
        let first = start t.x adj rs
        st ← drain order t.roles adj (length rs) first.todo first
        report rs st.done
