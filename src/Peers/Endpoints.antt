-- ===== src/Peers/Endpoints.antt =====
-- `_get_endpoint_pods` and `_wait_for_endpoint_pods`. The answers of the cluster are arguments:
-- the parsed body of one request, or the results of the polls made before the deadline.
use cloud_native_emulator.Prelude.{
  ℕ, ◌≤◌, ◌<◌, ◌≡◌, ◌⊎◌, refl, inl, inr, String, Option, none, some, List, [], ◌∷◌, ◌++◌, arith,
  if◌then◌else◌, leb, ◌==◌, ite, text_dec, length, All, Bool-cases,
}

-- One entry of a subset's `addresses`: its `ip`, and the name in its `targetRef`.
pub record Address : Type 0 where
  pub ip : Option String
  pub target : Option String

-- `ref.get("name", "")`
abbrev target_name : Option String → String
target_name none = ""
target_name (some n) = n

-- `if ip and pod_name: … elif ip: …`: an entry with no ip, or an empty one, is left out.
unfoldable pub address_pods : List Address → List (String × String)
address_pods [] = []
address_pods (a ∷ rest) = elim a.ip [
  | none ↦ address_pods rest
  | some ip ↦
      ite (text_dec ip "") (address_pods rest) ((target_name a.target, ip) ∷ address_pods rest)
]

unfoldable pub subset_pods : List (List Address) → List (String × String)
unfolding address_pods
subset_pods [] = []
subset_pods (s ∷ rest) = address_pods s ++ subset_pods rest

-- The status of the request, and the subsets in its body.
unfoldable pub get_endpoint_pods : ℕ → List (List Address) → List (String × String)
unfolding subset_pods
get_endpoint_pods status subsets = if status == 200 then subset_pods subsets else []

-- The loop with its variable `last`: it stops at the first poll that found enough pods.
unfoldable pub poll_from :
    ℕ → List (String × String) → List (List (String × String)) → List (String × String)
poll_from want last [] = last
poll_from want last (pods ∷ polls) =
    if leb want (length pods) then pods else poll_from want pods polls

unfoldable pub wait_for_endpoint_pods : ℕ → List (List (String × String)) → List (String × String)
unfolding poll_from
wait_for_endpoint_pods want polls = poll_from want [] polls

-- The last poll, or nothing if there was none.
abbrev pub last_or : List (String × String) → List (List (String × String)) → List (String × String)
last_or d [] = d
last_or d (p ∷ ps) = last_or p ps

poll_from_result :
    (want : ℕ) (last : List (String × String)) (polls : List (List (String × String)))
    → (want ≤ length (poll_from want last polls))
      ⊎ (All (λ pods. length pods < want) polls × (poll_from want last polls ≡ last_or last polls))
unfolding poll_from
poll_from_result want last [] = inr (tt, refl)
poll_from_result want last (pods ∷ polls) = elim (Bool-cases (leb want (length pods))) [
  | inl enough ↦ rw enough (inl (ground arith))
  | inr few ↦ rw few (elim (poll_from_result want pods polls) [
    | inl found ↦ inl found
    | inr (short, same) ↦ inr ((ground arith, short), same)
  ])
]

-- The wait gives at least the wanted number of pods, or else every poll before the deadline
-- found fewer and the pods of the last poll are given.
pub wait_for_endpoint_pods_result :
    (want : ℕ) (polls : List (List (String × String)))
    → (want ≤ length (wait_for_endpoint_pods want polls))
      ⊎ (All (λ pods. length pods < want) polls
          × (wait_for_endpoint_pods want polls ≡ last_or [] polls))
unfolding wait_for_endpoint_pods
wait_for_endpoint_pods_result want polls = poll_from_result want [] polls
