-- ===== src/Propagation/Release.antt =====
-- The inner loop of `_compute_resolved_x`: what handing the traffic of one role to each of its
-- downstream roles does to `accum`, `remaining` and the queue.
use cloud_native_emulator.Prelude.{
  ◌-◌, ◌≡◌, refl, inl, inr, Bool-cases, All, String, true, false, List, [], ◌∷◌, ◌++◌, foldl, arith,
  if◌then◌else◌, ◌==◌, ◌&&◌, text_dec,
}
use mathlib.Core.List.{append_assoc, append-nil}
use cloud_native_emulator.Prelude.Dict.{Dict, keys}
use cloud_native_emulator.Prelude.Float.{Float}
use cloud_native_emulator.Prelude.Sets.{contains, IsNodup}
use cloud_native_emulator.Propagation.{Kahn, release}

module _ (fl : Float) where
  open fl use {F, add}

  -- The roles of `ds` whose last missing upstream this was, with what they have accumulated.
  unfoldable pub released : F → Kahn fl → List String → Dict F
  released e st [] = []
  released e st (d ∷ ds) =
      if st.remaining d == 1 then (d, add (st.accum d) e) ∷ released e st ds else released e st ds

  pub contains-released :
      (e : F) (st : Kahn fl) (ds : List String) (a : String)
      → contains (keys (released e st ds)) a ≡ (contains ds a && (st.remaining a == 1))
  unfolding released contains
  contains-released e st [] a = refl
  contains-released e st (d ∷ ds) a = ground (arith, contains-released e st ds a, text_dec d a)

  pub released-IsNodup :
      (e : F) (st : Kahn fl) (ds : List String) → IsNodup ds → IsNodup (keys (released e st ds))
  unfolding released
  released-IsNodup e st [] h = tt
  released-IsNodup e st (d ∷ ds) h =
      ground (arith, contains-released e st ds d, released-IsNodup e st ds h.1)

  -- A role that is not in `ds` has no part in what `ds` releases.
  released_after :
      (e : F) (st : Kahn fl) (d : String) (ds : List String)
      → contains ds d ≡ false
      → released e (release fl e st d) ds ≡ released e st ds
  unfolding released release contains
  released_after e st d [] h = refl
  released_after e st d (c ∷ ds) h =
      ground (arith, released_after e st d ds, text_dec c d, text_dec d c)

  pub remaining-release_all :
      (e : F) (st : Kahn fl) (ds : List String) (a : String)
      → IsNodup ds
      → (foldl (release fl e) st ds).remaining a
        ≡ (if contains ds a then st.remaining a - 1 else st.remaining a)
  unfolding release contains
  remaining-release_all e st [] a h = refl
  remaining-release_all e st (d ∷ ds) a h =
      ground (arith, remaining-release_all e (release fl e st d) ds a h.1, text_dec d a)

  pub accum-release_all :
      (e : F) (st : Kahn fl) (ds : List String) (a : String)
      → IsNodup ds
      → (foldl (release fl e) st ds).accum a
        ≡ (if contains ds a then add (st.accum a) e else st.accum a)
  unfolding release contains
  accum-release_all e st [] a h = refl
  accum-release_all e st (d ∷ ds) a h =
      ground (arith, accum-release_all e (release fl e st d) ds a h.1, text_dec d a)

  pub todo-release_all :
      (e : F) (st : Kahn fl) (ds : List String)
      → IsNodup ds
      → (foldl (release fl e) st ds).todo ≡ st.todo ++ released e st ds
  unfolding release released
  todo-release_all e st [] h = ground (arith, append-nil st.todo)
  todo-release_all e st (d ∷ ds) h = ground (
    arith,
    todo-release_all e (release fl e st d) ds h.1,
    released_after e st d ds h.0,
    append_assoc st.todo ((d, add (st.accum d) e) ∷ []) (released e st ds),
  )

  pub done-release_all :
      (e : F) (st : Kahn fl) (ds : List String) → (foldl (release fl e) st ds).done ≡ st.done
  unfolding release
  done-release_all e st [] = refl
  done-release_all e st (d ∷ ds) = ground (arith, done-release_all e (release fl e st d) ds)

  pub All-released :
      (P : String × F → Type 0) (e : F) (st : Kahn fl) (ds : List String)
      → ((d : String) → contains ds d ≡ true → st.remaining d ≡ 1 → P (d, add (st.accum d) e))
      → All P (released e st ds)
  unfolding released contains
  All-released P e st [] h = tt
  All-released P e st (d ∷ ds) h =
      let rest = All-released P e st ds (λ c m. h c (ground arith)) in
      elim (Bool-cases (st.remaining d == 1)) [
        | inl last ↦ rw last (h d (ground (arith, text_dec d d)) (ground arith), rest)
        | inr more ↦ rw more rest
      ]
