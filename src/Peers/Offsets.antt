-- ===== src/Peers/Offsets.antt =====
-- The greedy colouring in `_resolve_peer_ips`: each source pod takes the smallest port offset
-- that no pod it shares a target role with has claimed.
use cloud_native_emulator.Prelude.{
  ℕ, zero, suc, ◌+◌, String, Bool, List, [], ◌∷◌, foldl, any, null, if◌then◌else◌, has_number, leb,
  text_dec, ite,
}
use cloud_native_emulator.Prelude.Dict.{Dict, insert, update}
use cloud_native_emulator.Prelude.Result.{Result, ok, err, diverged, ◌>>=◌}

-- `used_by_target` and `offsets`.
pub record Table : Type 0 where
  pub used : String → List ℕ
  pub offsets : String → Dict ℕ

-- `any(offset in used_by_target[t] for t in target_roles)`
unfoldable pub taken : (String → List ℕ) → List String → ℕ → Bool
taken used targets o = any (λ t. has_number (used t) o) targets

-- max(used)
unfoldable pub maximum : List ℕ → ℕ
maximum [] = 0
maximum (n ∷ ns) = let m = maximum ns in if leb m n then n else m

-- A number above every offset that is in use on the targets: the search ends before it.
unfoldable pub above_used : (String → List ℕ) → List String → ℕ
unfolding maximum
above_used used [] = 0
above_used used (t ∷ ts) =
    let m = above_used used ts in let n = suc (maximum (used t)) in if leb m n then n else m

-- `while any(…): offset += 1`
unfoldable pub first_free : (String → List ℕ) → List String → ℕ → ℕ → Result ℕ
unfolding taken
first_free used targets zero o = if taken used targets o then err diverged else ok o
first_free used targets (suc fuel) o =
    let next = first_free used targets fuel (o + 1) in if taken used targets o then next else ok o

-- `used_by_target[t].add(offset)` for one target role
unfoldable pub claim_one : ℕ → (String → List ℕ) → String → String → List ℕ
claim_one o used t = update used t (if has_number (used t) o then used t else o ∷ used t)

unfoldable pub claim : ℕ → List String → (String → List ℕ) → String → List ℕ
unfolding claim_one
claim o targets used = foldl (claim_one o) used targets

-- The body of the loop over the pods of a source role. A pod with no name is passed over.
unfoldable pub assign : List String → String → Table → String → Result Table
unfolding first_free above_used claim
assign targets role st pod = ite (text_dec pod "") (ok st) (do
  o ← first_free st.used targets (above_used st.used targets) 0
  ok (record {
    used = claim o targets st.used;
    offsets = update st.offsets role (insert pod o (st.offsets role));
  }))

unfoldable pub assign_pods : List String → String → Table → List (String × String) → Result Table
unfolding assign
assign_pods targets role st [] = ok st
assign_pods targets role st ((pod, ip) ∷ pods) =
    assign targets role st pod >>= λ next. assign_pods targets role next pods

-- The loop over `sorted(src_pods_by_role)`: each source role, in order, with its pods.
unfoldable pub assign_roles :
    (String → List String) → Table → List (String × List (String × String)) → Result Table
unfolding assign_pods
assign_roles targets st [] = ok st
assign_roles targets st ((role, pods) ∷ roles) =
    assign_pods (targets role) role st pods >>= λ next. assign_roles targets next roles

abbrev pub nothing_assigned : Table
nothing_assigned = record { used = λ _. []; offsets = λ _. [] }

-- `max(used) + 1 if used else 0`
unfoldable pub server_count : Table → String → ℕ
unfolding maximum
server_count st t = if null (st.used t) then 0 else maximum (st.used t) + 1
