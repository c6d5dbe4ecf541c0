-- ===== src/Propagation/Loop.antt =====
-- The whole loop of `_compute_resolved_x`: its start, its end, and why the fuel suffices.
use cloud_native_emulator.Prelude.{
  ℕ, zero, suc, ◌+◌, ◌≤◌, ◌≡◌, refl, ◌∙◌, ap, String, List, [], ◌∷◌, ◌++◌, arith, ◌==◌, ◌&&◌, All,
  ◌⊎◌, inl, inr, false, Bool-cases, length, length-append, text_dec,
}
use cloud_native_emulator.Prelude.Dict.{Dict, keys}
use cloud_native_emulator.Prelude.Float.{Float}
use cloud_native_emulator.Prelude.Result.{ok, err, overflow_error}
use cloud_native_emulator.Prelude.Sets
use cloud_native_emulator.Prelude.Sets.{contains, IsNodup}
use cloud_native_emulator.Template.{Role, Edge, InputX}
use cloud_native_emulator.Propagation.{Kahn, Adjacency, visit, count_fits, drain, sources, start}
use cloud_native_emulator.Propagation.Adjacent.{feeds, IsAdjacency, null_up}
use cloud_native_emulator.Propagation.Counting.{missing-nil}
use cloud_native_emulator.Propagation.Invariant.{IsSetOrder, Entry, Inv}
use cloud_native_emulator.Propagation.Release
use cloud_native_emulator.Propagation.Step

pub length-keys {ℓ} : {V : Type ℓ} (d : Dict V) → length (keys d) ≡ length d
length-keys [] = refl
length-keys ((k, v) ∷ d) = omega (arith, length-keys d)

module _ (fl : Float) where
  open fl use {F}

  module _ (roles : Dict (Role F)) (es : List Edge) (input : InputX F) (adj : Adjacency)
      (fed : (u a : String) → contains (adj.up a) u ≡ feeds es u a) where
    contains-sources :
        (rs : List String) (a : String)
        → contains (keys (sources fl input adj rs)) a ≡ (contains rs a && (length (adj.up a) == 0))
    unfolding sources contains
    contains-sources [] a = refl
    contains-sources (r ∷ rs) a = ground (arith, contains-sources rs a, text_dec r a)

    sources-IsNodup : (rs : List String) → IsNodup rs → IsNodup (keys (sources fl input adj rs))
    unfolding sources
    sources-IsNodup [] h = tt
    sources-IsNodup (r ∷ rs) h = ground (arith, contains-sources rs r, sources-IsNodup rs h.1)

    sources_valued :
        (rs : List String) → All (Entry fl roles es input adj []) (sources fl input adj rs)
    unfolding sources
    sources_valued [] = tt
    sources_valued (r ∷ rs) =
        ground
          (arith, sources_valued rs, missing-nil (adj.up r), null_up es (adj.up r) r (λ u. fed u r))

    pub start-Inv :
        IsNodup (keys roles) → Inv fl roles es input adj (start fl input adj (keys roles))
    unfolding start
    start-Inv distinct = record {
      distinct = sources-IsNodup (keys roles) distinct;
      counts = λ a. ground (arith, missing-nil (adj.up a));
      totals = λ a. refl;
      queued = λ a. contains-sources (keys roles) a;
      valued = sources_valued (keys roles);
      ordered = tt;
    }

    module _ (order : List String → List String) (lawful : IsSetOrder order)
        (ad : IsAdjacency (keys roles) adj) where
      -- The queue never holds more than the roles.
      queue_bound :
          (st : Kahn fl)
          → Inv fl roles es input adj st
          → length (st.done ++ st.todo) ≤ length (keys roles)
      queue_bound st inv = omega (
        arith,
        length-keys (st.done ++ st.todo),
        Sets.length-le_of_subset (keys (st.done ++ st.todo)) (keys roles) inv.distinct
            (λ a m. ground (arith, inv.queued a)),
      )

      length-done-visit :
          (r : String) (x : F) (rest : Dict F) (st : Kahn fl)
          → length (visit fl order roles adj r x rest st).done ≡ length st.done + 1
      unfolding visit
      length-done-visit r x rest st =
          ap (length {A = String × F}) (Release.done-release_all fl _ _ (order (adj.down r)))
          ∙ length-append st.done ((r, x) ∷ [])

      -- The loop ends with an empty queue, and the invariant holds then, or at a count that does
      -- not convert.
      pub drain-Inv :
          (fuel : ℕ) (todo : Dict F) (st : Kahn fl)
          → st.todo ≡ todo
          → length st.done + fuel ≡ length (keys roles)
          → Inv fl roles es input adj st
          → ((st' : Kahn fl) × (drain fl order roles adj fuel todo st ≡ ok st')
              × (st'.todo ≡ [])
              × Inv fl roles es input adj st')
            ⊎ ((r : String) × (count_fits fl roles r ≡ false)
                × (drain fl order roles adj fuel todo st ≡ err overflow_error))
      unfolding drain
      drain-Inv fuel [] st shape bound inv = inl (st, refl, shape, inv)
      drain-Inv zero (e ∷ rest) st shape bound inv = absurd (
          omega (
            arith,
            queue_bound st inv,
            length-append st.done st.todo,
            ap (length {A = String × F}) shape,
          ))
      drain-Inv (suc fuel) ((r, x) ∷ rest) st shape bound inv =
          let next = visit fl order roles adj r x rest st in
          elim (Bool-cases (count_fits fl roles r)) [
            | inr large ↦ inr (r, large, rw large refl)
            | inl fits ↦ rw fits (
                drain-Inv fuel next.todo next refl
                  (omega (arith, length-done-visit r x rest st, bound))
                  (Step.visit-Inv fl order lawful roles es input adj ad fed st r x rest shape inv))
          ]
