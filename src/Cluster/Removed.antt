-- ===== src/Cluster/Removed.antt =====
-- What `teardown` asks of the cluster.
use cloud_native_emulator.Prelude.{
  ℕ, ◌+◌, ◌≡◌, refl, ap, ◌∙◌, inl, inr, String, some, List, [], ◌∷◌, ◌++◌, ◌||◌, ◌==◌, All,
  Bool-cases, if◌then◌else◌, arith,
}
use cloud_native_emulator.Prelude.Float.{Float}
use cloud_native_emulator.Prelude.Result.{Result, ok, err}
use cloud_native_emulator.Json.{Json}
use cloud_native_emulator.Shaping.{clear_script}
use cloud_native_emulator.Cluster.{
  Kind, deployment, config_map, service, network_chaos, node, all_of, named, labelled, Request,
  Response, get_at, delete_at, run_on, History, Server, Calls, then_call, ◌>>=◌, ◌>>◌, lift, done,
  send, branch, for_each,
}
use cloud_native_emulator.Cluster.Answers.{
  items_of, managed_items, count_of, object_name, delete_chaos, delete_managed, rescue, rescue_with,
}
use cloud_native_emulator.Cluster.Materialise.{Setting}
use cloud_native_emulator.Cluster.Nodes.{Tiers, tiers_of, list_nodes}
use cloud_native_emulator.Cluster.Sending.{
  Extends, Adds, Adds->>, Adds-lift, Adds-lift->>=, Adds-ask, Adds-for_each, Adds-branch, Adds-done,
  Adds-rescue, >>=-ran, rescue-returns,
}
use cloud_native_emulator.Cluster.Teardown.{
  count_in, delete_kind, clear_member, clear_tier, clear_links, teardown,
}

-- A NetworkChaos object is deleted.
abbrev pub IsChaosDelete : {F : Type 0} → Request F → Type 0
IsChaosDelete (delete_at (named network_chaos n)) = Unit
IsChaosDelete r = ⊥

module _ {F : Type 0} (server : Server F) where
  delete_chaos-Adds : (j : Json F) → Adds IsChaosDelete (delete_chaos server j)
  delete_chaos-Adds j = Adds-lift->>= IsChaosDelete (object_name j) _ λ name e.
      Adds-ask IsChaosDelete server (delete_at (named network_chaos name)) _ tt
        (λ before. Adds-done IsChaosDelete)

  -- What delete_managed does with the answer that lists the NetworkChaos objects.
  abbrev pub after_listing : Response F → Calls F ℕ
  after_listing answer =
      branch (answer.status == 200)
        (lift (items_of answer.body) >>= λ listed. lift (managed_items listed) >>= λ mine.
          for_each (delete_chaos server) mine >> lift (ok (count_of mine)))
        (lift (ok 0))

  after_listing-Adds : (answer : Response F) → Adds IsChaosDelete (after_listing answer)
  after_listing-Adds answer =
      Adds-branch IsChaosDelete _ _ _
        (Adds-lift->>= IsChaosDelete (items_of answer.body) _ λ listed e.
          Adds-lift->>= IsChaosDelete (managed_items listed) _ λ mine e'.
            Adds->> IsChaosDelete (for_each (delete_chaos server) mine) _
              (Adds-for_each IsChaosDelete (delete_chaos server) mine delete_chaos-Adds)
              (Adds-lift IsChaosDelete _))
        (Adds-lift IsChaosDelete _)

  -- The list of the NetworkChaos objects is read, and then only such objects are deleted.
  delete_managed-Extends :
      (h : History F)
      → Extends IsChaosDelete (get_at (all_of network_chaos) ∷ h) (delete_managed server h).1
  unfolding delete_managed rescue ◌>>=◌ send
  delete_managed-Extends h =
      let answer = server h (get_at (all_of network_chaos)) in
      Adds-rescue IsChaosDelete {V = ℕ} 0 (after_listing answer) (after_listing-Adds answer)
        (get_at (all_of network_chaos) ∷ h)

  -- The nodes that an answer lists, or none where it cannot be read.
  abbrev pub listed_nodes : Result Tiers → Tiers
  listed_nodes (ok tiers) = tiers
  listed_nodes (err why) = []

  list_nodes-history : (h : History F) → (list_nodes server h).1 ≡ get_at (all_of node) ∷ h
  unfolding list_nodes ◌>>=◌ lift send branch
  list_nodes-history h =
      let answer = server h (get_at (all_of node)) in
      elim (Bool-cases (answer.status == 200)) [
        | inr failed ↦ rw failed refl
        | inl listed ↦ rw listed (after_items answer (items_of answer.body))
      ]
    where
      after_tiers :
          (r : Result Tiers)
          → (then_call (λ tiers. lift {F = F} (ok tiers)) (r, get_at (all_of node) ∷ h)).1
            ≡ get_at (all_of node) ∷ h
      after_tiers (ok tiers) = refl
      after_tiers (err why) = refl

      after_items :
          (answer : Response F) (r : Result (List (Json F)))
          → (then_call
              (λ js. lift (tiers_of [] js) >>= (λ tiers. lift {F = F} (ok tiers)))
              (r, get_at (all_of node) ∷ h)).1
            ≡ get_at (all_of node) ∷ h
      after_items answer (ok js) = after_tiers (tiers_of [] js)
      after_items answer (err why) = refl

module _ (fl : Float) (on : Setting fl) where
  open fl use {F}

  -- The clear scripts of some nodes, added to a history in order.
  abbrev pub clear_members : List (String × String) → History F → History F
  clear_members [] h = h
  clear_members ((name, ip) ∷ rest) h = clear_members rest (run_on name (clear_script ip) ∷ h)

  abbrev pub clear_tiers : Tiers → History F → History F
  clear_tiers [] h = h
  clear_tiers ((tier, members) ∷ rest) h = clear_tiers rest (clear_members members h)

  clear_members-ran :
      (members : List (String × String)) (h : History F)
      → for_each (clear_member fl on) members h ≡ (ok tt, clear_members members h)
  unfolding for_each ◌>>◌ ◌>>=◌ send done
  clear_members-ran [] h = refl
  clear_members-ran ((name, ip) ∷ rest) h =
      clear_members-ran rest (run_on name (clear_script ip) ∷ h)

  clear_tiers-ran :
      (tiers : Tiers) (h : History F)
      → for_each (clear_tier fl on) tiers h ≡ (ok tt, clear_tiers tiers h)
  unfolding for_each ◌>>◌ done
  clear_tiers-ran [] h = refl
  clear_tiers-ran ((tier, members) ∷ rest) h =
      rw (clear_members-ran members h) (clear_tiers-ran rest (clear_members members h))

  -- The nodes are read, and the clear script runs on each node that the answer lists under a tier.
  abbrev pub swept : History F → History F
  swept h =
      clear_tiers (listed_nodes on.server (list_nodes on.server h).0) (get_at (all_of node) ∷ h)

  after_list :
      (r : Result Tiers × History F)
      → rescue_with tt (then_call (for_each (clear_tier fl on)) r)
        ≡ (ok tt, clear_tiers (listed_nodes on.server r.0) r.1)
  after_list (ok tiers, k) = rw (clear_tiers-ran tiers k) refl
  after_list (err why, k) = refl

  clear_links-swept : (h : History F) → clear_links fl on h ≡ (ok tt, swept h)
  unfolding clear_links rescue ◌>>=◌
  clear_links-swept h =
      after_list (list_nodes on.server h)
      ∙ ap
          (λ (k : History F).
            (ok tt, clear_tiers (listed_nodes on.server (list_nodes on.server h).0) k))
          (list_nodes-history on.server h)

  abbrev pub delete_of : String → Kind → Request F
  delete_of name kind = delete_at (labelled kind (some name))

  -- What the answer to a DELETE adds to the count, where its body is read as a number of objects.
  abbrev pub counted : Result ℕ → ℕ
  counted (ok n) = n
  counted (err why) = 0

  abbrev pub count_at : String → Kind → History F → ℕ
  count_at name kind h =
      let answer = on.server h (delete_of name kind) in
      if answer.status == 200 || answer.status == 202 then counted (count_in answer.body) else 0

  delete_kind-returns :
      (name : String) (d : ℕ) (kind : Kind) (h : History F) (n : ℕ)
      → count_in (on.server h (delete_of name kind)).body ≡ ok n
      → delete_kind on.server name d kind h
        ≡ (ok (d + count_at name kind h), delete_of name kind ∷ h)
  unfolding delete_kind ◌>>=◌ send lift branch
  delete_kind-returns name d kind h n e =
      let status = (on.server h (delete_of name kind)).status in
      elim (Bool-cases (status == 200 || status == 202)) [
        | inl gone ↦ rw gone (rw e refl)
        | inr other ↦ rw other (ap (λ m. (ok m, delete_of name kind ∷ h)) (omega arith))
      ]

  delete_managed-returns :
      (h : History F)
      → (n : ℕ) × (delete_managed on.server h ≡ (ok n, (delete_managed on.server h).1))
  unfolding delete_managed
  delete_managed-returns h = rescue-returns 0 _ h

  -- Where the body of every answer to a DELETE of the template's objects is one that can be
  -- counted, teardown returns. It first reads the nodes and runs the clear script on every node
  -- that the answer lists under a tier. Then it calls delete_managed, which reads the list of
  -- NetworkChaos objects and makes no other request than deletions of such objects. Then it asks
  -- to delete the template's Deployments, then its Services and then its ConfigMaps, each of them
  -- whatever the answers before were. It returns what delete_managed returned and, for each of
  -- the three whose answer has the status 200 or 202, the count of its body.
  pub teardown-order :
      (name : String)
      → ((h : History F) (kind : Kind)
          → (n : ℕ) × (count_in (on.server h (delete_of name kind)).body ≡ ok n))
      → (h : History F)
      → (removed : ℕ) × (chaos : History F) × (let listed =
            get_at (all_of network_chaos) ∷ swept h in
          let first = chaos ++ listed in
          let second = delete_of name deployment ∷ first in
          let third = delete_of name service ∷ second in
          All IsChaosDelete chaos
          × (delete_managed on.server (swept h) ≡ (ok removed, first))
          × (teardown fl on name h ≡ (
            ok (
                removed
                + count_at name deployment first
                + count_at name service second
                + count_at name config_map third),
            delete_of name config_map ∷ third,
          )))
  unfolding teardown
  teardown-order name counts h =
      let (removed, e) = delete_managed-returns (swept h) in
      let (chaos, grown, deletes) = delete_managed-Extends on.server (swept h) in
      let first = chaos ++ (get_at (all_of network_chaos) ∷ swept h) in
      let second = delete_of name deployment ∷ first in
      let third = delete_of name service ∷ second in
      let ran : delete_managed on.server (swept h) ≡ (ok removed, first) =
        e ∙ ap (λ (k : History F). (ok removed, k)) grown in
      let one = removed + count_at name deployment first in
      let two = one + count_at name service second in
      (
        removed,
        chaos,
        (
          deletes,
          ran,
          >>=-ran (clear_links fl on) _ h (swept h) tt (clear_links-swept h)
              ∙ >>=-ran (delete_managed on.server) _ (swept h) first removed ran
              ∙ >>=-ran (delete_kind on.server name removed deployment) _ first second one
                  (delete_kind-returns name removed deployment first _ (counts first deployment).1)
              ∙ >>=-ran (delete_kind on.server name one service) _ second third two
                  (delete_kind-returns name one service second _ (counts second service).1)
              ∙ delete_kind-returns name two config_map third _ (counts third config_map).1,
        ),
      )
