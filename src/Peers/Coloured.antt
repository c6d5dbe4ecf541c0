-- ===== src/Peers/Coloured.antt =====
-- The outcome of the whole colouring in `_resolve_peer_ips`.
use cloud_native_emulator.Prelude.{
  ℕ, ◌+◌, ◌≤◌, ◌<◌, ◌≡◌, ◌≢◌, ◌⊎◌, refl, inl, inr, String, true, some, List, [], ◌∷◌, arith,
  if◌then◌else◌, has_number, text_dec, All, All-map_of, null,
}
use mathlib.Core.Logic.{if_pos, if_neg}
use cloud_native_emulator.Prelude.Dict.{lookup, has_key, lookup-insert}
use cloud_native_emulator.Prelude.Result.{Result, ok}
use cloud_native_emulator.Prelude.Sets.{contains}
use cloud_native_emulator.Peers.Offsets.{
  Table, maximum, above_used, assign, assign_pods, assign_roles, nothing_assigned, server_count,
}
use cloud_native_emulator.Peers.Distinct.{
  has_number-le, taken_above, first_free_total, first_free-IsFirstFree, Inv, assigned, assigned-Inv,
}

-- What was named stays named.
abbrev Keeps : Table → Table → Type 0
Keeps st st' = (r p : String) → has_key p (st.offsets r) ≡ true → has_key p (st'.offsets r) ≡ true

-- The pods of a role, each with an offset; a pod without a name has none.
abbrev pub AllNamed : Table → String × List (String × String) → Type 0
AllNamed st e = All (λ pod. (pod.0 ≡ "") ⊎ (has_key pod.0 (st.offsets e.0) ≡ true)) e.1

module _ (targets : String → List String) where
  -- A table that a step leads to: it satisfies the invariant and forgets no pod.
  abbrev Next : Table → Result Table → (Table → Type 0) → Type 0
  Next st r P = (st' : Table) × (r ≡ ok st') × Inv targets st' × Keeps st st' × P st'

  abbrev Named : String → String → Table → Type 0
  Named role pod st = (pod ≡ "") ⊎ (has_key pod (st.offsets role) ≡ true)

  assign_result :
      (role : String) (st : Table) (pod : String)
      → Inv targets st
      → Next st (assign (targets role) role st pod) (Named role pod)
  unfolding assign
  assign_result role st pod inv = elim (text_dec pod "") [
    | yes e ↦ (st, rw (if_pos _ e), inv, λ r p h. h, inl e)
    | no n ↦
        let bound = above_used st.used (targets role) in
        let (o, found) =
          first_free_total st.used (targets role) bound 0
            (taken_above st.used (targets role) (0 + bound) (omega arith)) in
        let free = (first_free-IsFirstFree st.used (targets role) bound 0 found).0 in
        (
          assigned targets st inv role pod o free,
          rw (if_neg _ n, found),
          assigned-Inv targets st inv role pod o free,
          λ r p h.
              ground
                (arith, text_dec role r, text_dec pod p, lookup-insert pod p o (st.offsets role)),
          inr (
              ground (
                arith,
                text_dec role role,
                text_dec pod pod,
                lookup-insert pod pod o (st.offsets role),
              )),
        )
  ]

  Named-Keeps :
      (role pod : String) (st st' : Table) → Keeps st st' → Named role pod st → Named role pod st'
  Named-Keeps role pod st st' keeps (inl e) = inl e
  Named-Keeps role pod st st' keeps (inr h) = inr (keeps role pod h)

  AllNamed-Keeps :
      (st st' : Table)
      → Keeps st st'
      → (e : String × List (String × String)) → AllNamed st e
      → AllNamed st' e
  AllNamed-Keeps st st' keeps e = All-map_of _ _ e.1 (λ pod. Named-Keeps e.0 pod.0 st st' keeps)

  assign_pods_result :
      (role : String) (pods : List (String × String)) (st : Table)
      → Inv targets st
      → Next st (assign_pods (targets role) role st pods) (λ st'. AllNamed st' (role, pods))
  unfolding assign_pods
  assign_pods_result role [] st inv = (st, refl, inv, λ r p h. h, tt)
  assign_pods_result role ((pod, ip) ∷ pods) st inv =
      let (mid, ran, inv', keeps, named) = assign_result role st pod inv in
      let (st', ran', inv'', keeps', rest) = assign_pods_result role pods mid inv' in
      (
        st',
        rw ran ran',
        inv'',
        λ r p h. keeps' r p (keeps r p h),
        (Named-Keeps role pod mid st' keeps' named, rest),
      )

  assign_roles_result :
      (roles : List (String × List (String × String))) (st : Table)
      → Inv targets st
      → Next st (assign_roles targets st roles) (λ st'. All (AllNamed st') roles)
  unfolding assign_roles
  assign_roles_result [] st inv = (st, refl, inv, λ r p h. h, tt)
  assign_roles_result ((role, pods) ∷ roles) st inv =
      let (mid, ran, inv', keeps, named) = assign_pods_result role pods st inv in
      let (st', ran', inv'', keeps', rest) = assign_roles_result roles mid inv' in
      (
        st',
        rw ran ran',
        inv'',
        λ r p h. keeps' r p (keeps r p h),
        (AllNamed-Keeps mid st' keeps' (role, pods) named, rest),
      )

  nothing-Inv : Inv targets nothing_assigned
  unfolding lookup
  nothing-Inv = record { held = λ r p o t h m. cc; apart = λ r p r' p' o t h h' m m'. cc }

  -- What the colouring promises of its table.
  pub record IsColoured (roles : List (String × List (String × String))) (st : Table) : Type 0 where
    -- Two source pods that send to one target role hold different offsets.
    pub apart :
        (r p r' p' : String) (o o' : ℕ) (t : String)
        → lookup p (st.offsets r) ≡ some o
        → lookup p' (st.offsets r') ≡ some o'
        → contains (targets r) t ≡ true
        → contains (targets r') t ≡ true
        → ¬ ((r ≡ r') × (p ≡ p'))
        → o ≢ o'
    -- A target role runs a server at every offset that a pod uses to reach it.
    pub served :
        (r p : String) (o : ℕ) (t : String)
        → lookup p (st.offsets r) ≡ some o
        → contains (targets r) t ≡ true
        → o < server_count st t
    -- Every named source pod has an offset.
    pub named : All (AllNamed st) roles

  served_of_used :
      (st : Table) (t : String) (o : ℕ) → has_number (st.used t) o ≡ true → o < server_count st t
  unfolding server_count has_number
  served_of_used st t o h = go (st.used t) h (has_number-le (st.used t) o h)
    where
      go :
          (ns : List ℕ)
          → has_number ns o ≡ true
          → o ≤ maximum ns
          → o < (if null ns then 0 else maximum ns + 1)
      go [] h b = cc
      go (n ∷ ns) h b = omega arith

  -- The colouring ends, for any source roles with any pods and any targets: every named pod has
  -- an offset, two pods that share a target role never hold the same one, and each target role's
  -- server count covers every offset that reaches it.
  pub assign_roles-IsColoured :
      (roles : List (String × List (String × String)))
      → (st : Table) × (assign_roles targets nothing_assigned roles ≡ ok st) × IsColoured roles st
  assign_roles-IsColoured roles =
      let (st, ran, inv, keeps, named) = assign_roles_result roles nothing_assigned nothing-Inv in
      (
        st,
        ran,
        record {
          apart = λ r p r' p' o o' t h h' m m' differ same.
              differ (inv.apart r p r' p' o t h (rw same h') m m');
          served = λ r p o t h m. served_of_used st t o (inv.held r p o t h m);
          named = named;
        },
      )
