-- ===== src/Propagation/Ending.antt =====
-- The end of the loop of `_compute_resolved_x`, and what its report is made of.
use cloud_native_emulator.Prelude.{
  ◌≡◌, ◌≢◌, ◌⊎◌, false, refl, ◌∙◌, ap, String, true, not, List, [], ◌++◌, arith, ◌==◌, ◌&&◌, All,
  All-map_of, length, inl, inr, Bool-cases, select,
}
use mathlib.Core.List.{append-nil}
use cloud_native_emulator.Prelude.Dict.{Dict, keys}
use cloud_native_emulator.Prelude.Float.{Float}
use cloud_native_emulator.Prelude.Result.{err, overflow_error}
use cloud_native_emulator.Prelude.Sets
use cloud_native_emulator.Prelude.Sets.{contains, IsNodup}
use cloud_native_emulator.Prelude.Sort.{sort}
use cloud_native_emulator.Template.{Template, IsWellFormed}
use cloud_native_emulator.Propagation.{
  Kahn, Adjacency, no_edges, start, report, compute_resolved_x, count_fits,
}
use cloud_native_emulator.Propagation.Adjacent.{
  feeds, IsAdjacency, adjacency-feeds, adjacency_total,
}
use cloud_native_emulator.Propagation.Counting.{missing-ne-zero}
use cloud_native_emulator.Propagation.Invariant.{IsSetOrder, Inv}
use cloud_native_emulator.Propagation.Loop.{length-keys, start-Inv, drain-Inv}
use cloud_native_emulator.Propagation.Solution.{Solves}

module _ (fl : Float) (order : List String → List String) (lawful : IsSetOrder order) where
  open fl use {F}

  -- The state at the end of the loop, and the result that is read off it.
  pub record End (t : Template F) : Type 0 where
    pub adj : Adjacency
    pub st : Kahn fl
    pub emptied : st.todo ≡ []
    pub inv : Inv fl t.roles t.edges t.x adj st
    pub ad : IsAdjacency (keys t.roles) adj
    pub fed : (u a : String) → contains (adj.up a) u ≡ feeds t.edges u a
    pub result : compute_resolved_x fl order t ≡ report fl (keys t.roles) st.done

  -- Some role's count does not convert to a float, and the call raises for it.
  abbrev pub Overflows : Template F → Type 0
  Overflows t =
      (r : String) × (count_fits fl t.roles r ≡ false)
      × (compute_resolved_x fl order t ≡ err overflow_error)

  pub run_to_End : (t : Template F) → IsWellFormed t → End t ⊎ Overflows t
  unfolding compute_resolved_x start
  run_to_End t wf =
      let rs = keys t.roles in
      let (adj, built) = adjacency_total rs t.edges no_edges wf.joined in
      let (ad, fed) = adjacency-feeds rs t.edges built in
      elim (drain-Inv fl t.roles t.edges t.x adj fed order lawful ad (length rs)
        (start fl t.x adj rs).todo (start fl t.x adj rs) refl (omega arith)
        (start-Inv fl t.roles t.edges t.x adj fed wf.distinct)) [
          | inr (r, large, ran) ↦ inr (r, large, rw (built, ran) refl)
          | inl (st, ran, emptied, inv) ↦ inl (record {
            adj = adj;
            st = st;
            emptied = emptied;
            inv = inv;
            ad = ad;
            fed = fed;
            result = rw (built, ran) refl;
          })
        ]

  module _ (t : Template F) (wf : IsWellFormed t) (end : End t) where
    abbrev pub rs : List String
    rs = keys t.roles

    abbrev pub done : Dict F
    done = end.st.done

    at_end {κ} : (P : Dict F → Type κ) → P (end.st.done ++ end.st.todo) → P done
    at_end P p = rw (end.emptied, append-nil) at p

    done-IsNodup : IsNodup (keys done)
    done-IsNodup = at_end (λ d. IsNodup (keys d)) end.inv.distinct

    contains-done :
        (a : String) → contains (keys done) a ≡ (contains rs a && (end.st.remaining a == 0))
    contains-done a =
        at_end (λ d. contains (keys d) a ≡ (contains (keys t.roles) a && (end.st.remaining a == 0)))
          (end.inv.queued a)

    done_subset : (a : String) → contains (keys done) a ≡ true → contains rs a ≡ true
    done_subset a m = ground (arith, contains-done a)

    pub done-Solves : length done ≡ length rs → Solves fl t done
    done-Solves same = record {
      distinct = done-IsNodup;
      complete = λ a. elim (Bool-cases (contains (keys t.roles) a)) [
        | inl role ↦ rw role (
            Sets.contains_of_length (keys done) rs done-IsNodup done_subset
              (length-keys done ∙ same) a role)
        | inr other ↦ ground (arith, contains-done a)
      ];
      ordered = end.inv.ordered;
      settles = All-map_of _ _ done (λ e h. h.1) (at_end (All _) end.inv.valued);
    }

    abbrev pub unresolved : List String
    unresolved = sort (select (λ r. not (contains (keys done) r)) rs)

    pub contains-unresolved :
        (a : String) → contains unresolved a ≡ (contains rs a && not (contains (keys done) a))
    contains-unresolved a =
        Sets.contains-sort (select (λ r. not (contains (keys done) r)) rs) a
        ∙ Sets.contains-select (λ r. not (contains (keys done) r)) rs a

    -- What a cycle report says: some roles are left, each of them fed by another one that is left.
    pub fed_by_unresolved :
        (r : String)
        → contains unresolved r ≡ true
        → (u : String) × (feeds t.edges u r ≡ true) × (contains unresolved u ≡ true)
    fed_by_unresolved r m =
        let (u, member, new) = missing-ne-zero (keys done) (end.adj.up r) (λ none_missing.
          ground (arith, contains-unresolved r, contains-done r, end.inv.counts r)) in
        (u, ground (arith, end.fed u r), ground (arith, contains-unresolved u, end.ad.closed u r))

    pub unresolved-ne-nil : length done ≢ length rs → unresolved ≢ []
    unfolding contains
    unresolved-ne-nil short empty = short (
        omega (
          arith,
          length-keys done,
          Sets.length-le_of_subset (keys done) rs done-IsNodup done_subset,
          Sets.length-le_of_subset rs (keys done) wf.distinct (λ a m.
              ground (arith, contains-unresolved a, ap (λ (l : List String). contains l a) empty)),
        ))
