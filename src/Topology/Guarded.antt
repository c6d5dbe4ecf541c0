-- ===== src/Topology/Guarded.antt =====
-- What `materialise_topology` asks of the cluster before it changes it.
use cloud_native_emulator.Prelude.{
  ◌≡◌, refl, ◌⊎◌, inl, inr, String, true, false, Option, List, [], ◌∷◌, null, All, Bool-cases,
}
use cloud_native_emulator.Prelude.Float.{Float}
use cloud_native_emulator.Prelude.Int.{ℤ}
use cloud_native_emulator.Prelude.Result.{ok, ok_subst}
use cloud_native_emulator.Prelude.Sets.{contains}
use cloud_native_emulator.Json.{Json, Fields, object, text, field, no_fields}
use cloud_native_emulator.Cluster.{
  Request, node, selected, get_at, Server, History, ◌>>=◌, send, lift,
}
use cloud_native_emulator.Cluster.Materialise.{Setting, materialise}
use cloud_native_emulator.Cluster.Refused.{IsPlanned, materialise-IsPlanned}
use cloud_native_emulator.Cluster.Returning.{Returns, Returns-lift, Returns->>=, Adds-Returns}
use cloud_native_emulator.Cluster.Sending.{
  Adds, Extends, Adds-lift, Adds->>=, Adds-lift->>=, Adds-ask, Adds-weaken, IsRead,
}
use cloud_native_emulator.Topology.{Topology}
use cloud_native_emulator.Topology.Document.{document_of, validate_topology}
use cloud_native_emulator.Topology.Sites.{
  Readiness, required_tiers, unsatisfied, refuse_unless_none, refuse_unready, nodes_in,
  ready_nodes_for_tier, read_tiers, sorted_tiers, tier_label, materialise_topology,
  topology_annotation,
}
use cloud_native_emulator.Topology.Translate.{Translated, translate_topology}

-- Each tier of the report that a deployment is pinned to has a ready node.
abbrev pub AreReady : List String → List Readiness → Type 0
AreReady required report =
    All (λ r. contains required r.tier_id ≡ true → null r.ready_nodes ≡ false) report

unsatisfied-AreReady :
    (required : List String) (report : List Readiness)
    → unsatisfied required report ≡ []
    → AreReady required report
unfolding unsatisfied
unsatisfied-AreReady required [] h = tt
unsatisfied-AreReady required (r ∷ rest) h = elim (Bool-cases (contains required r.tier_id)) [
  | inl pinned ↦ elim (Bool-cases (null r.ready_nodes)) [
    | inl empty ↦ cc (rw (pinned, empty, unsatisfied) at h)
    | inr filled ↦
        ((λ p. filled), unsatisfied-AreReady required rest (rw (pinned, filled, unsatisfied) at h))
  ]
  | inr free ↦ ((λ p. cc), unsatisfied-AreReady required rest (rw (free, unsatisfied) at h))
]

refuse_unless_none-eq :
    (ids : List String) {u : Unit {0}} → refuse_unless_none ids ≡ ok u → ids ≡ []
refuse_unless_none-eq [] h = refl
refuse_unless_none-eq (id ∷ ids) h = cc

module _ (fl : Float) (on : Setting fl) where
  open fl use {F}

  ready_nodes_for_tier-IsRead :
      (server : Server F) (tier : String) → Adds IsRead (ready_nodes_for_tier fl server tier)
  unfolding ready_nodes_for_tier
  ready_nodes_for_tier-IsRead server tier =
      Adds-ask IsRead server (get_at (selected node tier_label tier)) _ tt
        λ before. Adds-lift IsRead _

  -- At some moment the server gave these nodes as the ready ones of this tier.
  abbrev pub IsReported : String → Readiness → Type 0
  IsReported tier r =
      (r.tier_id ≡ tier)
      × ((before : History F) × (nodes_in fl
              (on.server before (get_at (selected node tier_label tier)))
            ≡ ok r.ready_nodes))

  -- A report on all of these tiers, in their order.
  abbrev pub AreReported : List String → List Readiness → Type 0
  AreReported [] [] = Unit
  AreReported (id ∷ ids) (r ∷ rs) = IsReported id r × AreReported ids rs
  AreReported ids rs = ⊥

  abbrev WereReady : String → List String → Type 0
  WereReady tier nodes =
      (before : History F) × (nodes_in fl
          (on.server before (get_at (selected node tier_label tier)))
        ≡ ok nodes)

  ready_nodes_for_tier-WereReady :
      (tier : String) → Returns (WereReady tier) (ready_nodes_for_tier fl on.server tier)
  unfolding ready_nodes_for_tier ◌>>=◌ send lift
  ready_nodes_for_tier-WereReady tier h nodes e = (h, e)

  read_tiers-AreReported :
      (ids : List String) → Returns (AreReported ids) (read_tiers fl on.server ids)
  unfolding read_tiers
  read_tiers-AreReported [] =
      Returns-lift (AreReported []) (ok []) (λ v e. ok_subst (AreReported []) e tt)
  read_tiers-AreReported (id ∷ ids) =
      Returns->>= (WereReady id) (AreReported (id ∷ ids)) (ready_nodes_for_tier fl on.server id) _
        (ready_nodes_for_tier-WereReady id)
        λ nodes were.
          Returns->>= (AreReported ids) (AreReported (id ∷ ids)) (read_tiers fl on.server ids) _
            (read_tiers-AreReported ids)
            λ rest reported.
              Returns-lift (AreReported (id ∷ ids))
                (ok (record { tier_id = id; ready_nodes = nodes } ∷ rest))
                (λ v e. ok_subst (AreReported (id ∷ ids)) e ((refl, were), reported))

  read_tiers-IsRead :
      (server : Server F) (ids : List String) → Adds IsRead (read_tiers fl server ids)
  unfolding read_tiers
  read_tiers-IsRead server [] = Adds-lift IsRead _
  read_tiers-IsRead server (id ∷ ids) =
      Adds->>= IsRead (ready_nodes_for_tier fl server id) _ (ready_nodes_for_tier-IsRead server id)
        λ nodes.
          Adds->>= IsRead (read_tiers fl server ids) _ (read_tiers-IsRead server ids)
            λ rest. Adds-lift IsRead _

  module _ (str compact : Json F → String) (round : F → Option ℤ) (j : Json F)
      (source : String) where
    abbrev pub stored : Fields F
    stored = field topology_annotation (text (compact j)) no_fields

    -- A request of a document that is valid, whose tiers are ready, and whose translation passes
    -- every check of `materialise`.
    abbrev pub IsGuarded : Request F → Type 0
    IsGuarded r =
        IsRead r
        ⊎ ((u : Topology F) × (t : Translated F) × (report : List Readiness) × (validate_topology fl
                on.order str round j
              ≡ ok u)
            × AreReported (sorted_tiers fl u) report
            × AreReady (required_tiers u.deployments) report
            × (translate_topology fl str round u ≡ ok t)
            × IsPlanned fl on (object (document_of t)) source stored r)

    guarded : Adds IsGuarded (materialise_topology fl on str compact round j source)
    unfolding materialise_topology
    guarded = Adds-lift->>= IsGuarded (validate_topology fl on.order str round j) _ λ u valid.
        Adds-Returns IsGuarded (AreReported (sorted_tiers fl u))
          (read_tiers fl on.server (sorted_tiers fl u)) _
          (Adds-weaken IsRead IsGuarded (read_tiers fl on.server (sorted_tiers fl u))
            (λ r read. inl read) (read_tiers-IsRead on.server (sorted_tiers fl u)))
          (read_tiers-AreReported (sorted_tiers fl u))
          λ report reported. Adds-lift->>= IsGuarded (refuse_unready fl u report) _ λ ready checked.
            Adds-lift->>= IsGuarded (translate_topology fl str round u) _ λ t translated.
              Adds->>= IsGuarded (materialise fl on (object (document_of t)) source stored) _
                (Adds-weaken (IsPlanned fl on (object (document_of t)) source stored) IsGuarded
                  (materialise fl on (object (document_of t)) source stored)
                  (λ r planned. inr (
                    u,
                    t,
                    report,
                    valid,
                    reported,
                    unsatisfied-AreReady (required_tiers u.deployments) report (
                        refuse_unless_none-eq (unsatisfied (required_tiers u.deployments) report)
                          checked),
                    translated,
                    planned,
                  ))
                  (materialise-IsPlanned fl on (object (document_of t)) source stored))
                (λ made. Adds-lift IsGuarded _)

    -- Whatever the server answers and however the call ends, `materialise_topology` makes only
    -- reads, unless the document is valid, each tier of its sites was reported by the server
    -- with its ready nodes, each of them that a deployment is pinned to has one, and the
    -- document's translation passes every check of `materialise` and has a plan; then a request
    -- may also create or update an object, or belong to the later phases.
    pub materialise_topology-IsGuarded :
        (h : History F)
        → Extends IsGuarded h (materialise_topology fl on str compact round j source h).1
    materialise_topology-IsGuarded h = guarded h
