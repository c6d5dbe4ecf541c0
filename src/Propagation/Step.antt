-- ===== src/Propagation/Step.antt =====
-- One pass of the loop of `_compute_resolved_x` keeps its invariant.
use cloud_native_emulator.Prelude.{
  ◌-◌, ◌≡◌, ◌∙◌, ap, String, true, false, List, [], ◌∷◌, ◌++◌, arith, if◌then◌else◌, ◌==◌, ◌&&◌,
  All, All-append, All-map_of, All-middle,
}
use mathlib.Core.List.{foldl-append, append-nil, append_assoc}
use cloud_native_emulator.Prelude.Dict.{Dict, keys, keys-append}
use cloud_native_emulator.Prelude.Float.{Float}
use cloud_native_emulator.Prelude.Sets
use cloud_native_emulator.Prelude.Sets.{contains, IsNodup}
use cloud_native_emulator.Template.{Role, Edge, InputX}
use cloud_native_emulator.Propagation.{Kahn, Adjacency, visit, egress}
use cloud_native_emulator.Propagation.Adjacent.{feeds, IsAdjacency, is_fed_of_feeds}
use cloud_native_emulator.Propagation.Counting.{missing, missing-snoc, missing-eq-zero}
use cloud_native_emulator.Propagation.Invariant.{IsSetOrder, Entry, Inv}
use cloud_native_emulator.Propagation.Release
use cloud_native_emulator.Propagation.Release.{released}
use cloud_native_emulator.Propagation.Solution.{IsOrdered, inflow}

IsOrdered-snoc :
    {F : Type 0} (es : List Edge) (seen : List String) (xs : Dict F) (r : String) (x : F)
    → IsOrdered es seen xs
    → ((u : String) → feeds es u r ≡ true → contains (seen ++ keys xs) u ≡ true)
    → IsOrdered es seen (xs ++ ((r, x) ∷ []))
IsOrdered-snoc es seen [] r x h fed = (λ u m. rw append-nil at (fed u m), tt)
IsOrdered-snoc es seen ((q, y) ∷ xs) r x h fed =
    (h.0, IsOrdered-snoc es (seen ++ (q ∷ [])) xs r x h.1 (λ u m. rw append_assoc (fed u m)))

module _ (fl : Float) where
  open fl use {F, add}

  module _ (order : List String → List String) (lawful : IsSetOrder order) where
    module _ (roles : Dict (Role F)) (es : List Edge) (input : InputX F) (adj : Adjacency)
        (ad : IsAdjacency (keys roles) adj)
        (fed : (u a : String) → contains (adj.up a) u ≡ feeds es u a) where
      module _ (st : Kahn fl) (r : String) (x : F) (rest : Dict F) (shape : st.todo ≡ (r, x) ∷ rest)
          (inv : Inv fl roles es input adj st) where
        ds : List String
        ds = order (adj.down r)

        e : F
        e = egress fl roles r x

        popped : Kahn fl
        popped = record {
          done = st.done ++ ((r, x) ∷ []);
          todo = rest;
          accum = st.accum;
          remaining = st.remaining;
        }

        after : Kahn fl
        after = visit fl order roles adj r x rest st

        contains-ds : (a : String) → contains ds a ≡ feeds es r a
        unfolding ds
        contains-ds a = lawful.same (adj.down r) a ∙ ad.dual r a ∙ fed r a

        ds-IsNodup : IsNodup ds
        unfolding ds
        ds-IsNodup = lawful.once (adj.down r) (ad.down_distinct r)

        after_done : after.done ≡ st.done ++ ((r, x) ∷ [])
        unfolding after visit ds e popped
        after_done = Release.done-release_all fl e popped ds

        after_todo : after.todo ≡ rest ++ released fl e popped ds
        unfolding after visit ds e popped
        after_todo = Release.todo-release_all fl e popped ds ds-IsNodup

        after_remaining :
            (a : String)
            → after.remaining a ≡ (if feeds es r a then st.remaining a - 1 else st.remaining a)
        unfolding after visit ds e popped
        after_remaining a =
            rw (← contains-ds a) (Release.remaining-release_all fl e popped ds a ds-IsNodup)

        after_accum :
            (a : String) → after.accum a ≡ (if feeds es r a then add (st.accum a) e else st.accum a)
        unfolding after visit ds e popped
        after_accum a = rw (← contains-ds a) (Release.accum-release_all fl e popped ds a ds-IsNodup)

        after_queue : after.done ++ after.todo ≡ (st.done ++ st.todo) ++ released fl e popped ds
        after_queue = rw (after_done, after_todo, shape) (simp append_assoc)

        after_keys : keys after.done ≡ keys st.done ++ (r ∷ [])
        after_keys = rw after_done (keys-append st.done ((r, x) ∷ []))

        fresh : contains (keys st.done) r ≡ false
        fresh =
            Sets.IsNodup-middle (keys st.done) (keys rest) r
              (rw (shape, keys-append) at inv.distinct)

        after_counts : (a : String) → after.remaining a ≡ missing (keys after.done) (adj.up a)
        after_counts a = rw after_keys (
            ground (
              arith,
              after_remaining a,
              inv.counts a,
              fed r a,
              missing-snoc (keys st.done) (adj.up a) r (ad.up_distinct a) fresh,
            ))

        inflow-after :
            (a : String)
            → inflow fl roles es a after.done ≡ (
                if feeds es r a
                then add (inflow fl roles es a st.done) e
                else inflow fl roles es a st.done)
        unfolding e
        inflow-after a =
            ap (inflow fl roles es a) after_done ∙ foldl-append _ _ st.done ((r, x) ∷ [])

        after_totals : (a : String) → after.accum a ≡ inflow fl roles es a after.done
        after_totals a = ground (arith, after_accum a, inv.totals a, inflow-after a)

        contains-new :
            (a : String)
            → contains (keys (released fl e popped ds)) a ≡ (feeds es r a && (st.remaining a == 1))
        unfolding popped
        contains-new a = rw (← contains-ds a) (Release.contains-released fl e popped ds a)

        after_queued :
            (a : String)
            → contains (keys (after.done ++ after.todo)) a
              ≡ (contains (keys roles) a && (after.remaining a == 0))
        after_queued a =
            rw (after_queue, keys-append)
              (ground (
                arith,
                Sets.contains-append (keys (st.done ++ st.todo)) (keys (released fl e popped ds)) a,
                contains-new a,
                inv.queued a,
                after_remaining a,
                inv.counts a,
                fed r a,
                ad.closed r a,
                missing-snoc (keys st.done) (adj.up a) r (ad.up_distinct a) fresh,
              ))

        after_distinct : IsNodup (keys (after.done ++ after.todo))
        after_distinct =
            rw (after_queue, keys-append)
              (Sets.append-IsNodup (keys (st.done ++ st.todo)) (keys (released fl e popped ds))
                inv.distinct (Release.released-IsNodup fl e popped ds ds-IsNodup)
                (λ a m. ground (arith, contains-new a, inv.queued a)))

        old-Entry :
            (q : String × F)
            → Entry fl roles es input adj st.done q
            → Entry fl roles es input adj after.done q
        old-Entry q (none_missing, value) = (
          rw after_keys (
              omega (arith, missing-snoc (keys st.done) (adj.up q.0) r (ad.up_distinct q.0) fresh)),
          ground (
            arith,
            fresh,
            inflow-after q.0,
            fed r q.0,
            missing-eq-zero (keys st.done) (adj.up q.0) r none_missing,
          ),
        )

        new-Entry :
            (d : String)
            → contains ds d ≡ true
            → st.remaining d ≡ 1
            → Entry fl roles es input adj after.done (d, add (st.accum d) e)
        new-Entry d member last = (
          rw after_keys (
              ground (
                arith,
                inv.counts d,
                contains-ds d,
                fed r d,
                missing-snoc (keys st.done) (adj.up d) r (ad.up_distinct d) fresh,
              )),
          ground (arith, contains-ds d, is_fed_of_feeds es r d, inflow-after d, inv.totals d),
        )

        after_valued : All (Entry fl roles es input adj after.done) (after.done ++ after.todo)
        unfolding popped
        after_valued = rw after_queue (
            All-append _ (st.done ++ st.todo) (released fl e popped ds)
              (All-map_of _ _ (st.done ++ st.todo) old-Entry inv.valued)
              (Release.All-released fl _ e popped ds new-Entry))

        after-IsOrdered : IsOrdered es [] after.done
        after-IsOrdered = rw after_done (
            IsOrdered-snoc es [] st.done r x inv.ordered (λ u m.
              missing-eq-zero (keys st.done) (adj.up r) u
                (All-middle (Entry fl roles es input adj st.done) st.done rest (r, x)
                  (rw shape at inv.valued)).0
                (fed u r ∙ m)))

        -- One pass of the loop keeps the invariant.
        pub visit-Inv : Inv fl roles es input adj (visit fl order roles adj r x rest st)
        unfolding after
        visit-Inv = record {
          distinct = after_distinct;
          counts = after_counts;
          totals = after_totals;
          queued = after_queued;
          valued = after_valued;
          ordered = after-IsOrdered;
        }
