-- ===== src/Peers/Smallest.antt =====
-- The colouring is greedy: each pod takes the smallest offset that is free on all its targets.
use mathlib.Core.Logic.{if_neg}
use cloud_native_emulator.Prelude.{
  ℕ, ◌+◌, ◌<◌, ◌≡◌, ◌≢◌, refl, String, true, false, some, List, arith, has_number, text_dec,
}
use cloud_native_emulator.Prelude.Dict.{lookup, insert, update, lookup-insert}
use cloud_native_emulator.Prelude.Result.{ok}
use cloud_native_emulator.Prelude.Sets.{contains}
use cloud_native_emulator.Peers.Offsets.{Table, taken, above_used, claim, assign}
use cloud_native_emulator.Peers.Distinct.{
  taken_above, first_free_total, first_free-IsFirstFree, has_number-claim,
}

-- The offset `o` is the smallest that is free on the targets in `st`; in `st'` the pod holds it
-- and it is in use on each of them, and every other pod and every other target is as it was.
pub record IsGreedy (targets : List String) (role pod : String) (st st' : Table) (o : ℕ)
    : Type 0 where
  pub free : taken st.used targets o ≡ false
  pub smallest : (q : ℕ) → q < o → taken st.used targets q ≡ true
  pub held : lookup pod (st'.offsets role) ≡ some o
  pub claimed : (t : String) → contains targets t ≡ true → has_number (st'.used t) o ≡ true
  pub others_keep :
      (r p : String)
      → ¬ ((role ≡ r) × (pod ≡ p))
      → lookup p (st'.offsets r) ≡ lookup p (st.offsets r)
  pub targets_keep :
      (t : String) (n : ℕ)
      → contains targets t ≡ false
      → has_number (st'.used t) n ≡ has_number (st.used t) n

-- For a pod with a name the body of the colouring's loop always finds an offset, the smallest
-- one that no pod claimed at any of the role's targets, and changes nothing else.
pub assign-IsGreedy :
    (targets : List String) (role : String) (st : Table) (pod : String)
    → pod ≢ ""
    → (st' : Table) × (assign targets role st pod ≡ ok st')
      × ((o : ℕ) × IsGreedy targets role pod st st' o)
unfolding assign
assign-IsGreedy targets role st pod named =
    let bound = above_used st.used targets in
    let (o, found) =
      first_free_total st.used targets bound 0
        (taken_above st.used targets (0 + bound) (omega arith)) in
    let (free, low, smallest) = first_free-IsFirstFree st.used targets bound 0 found in
    (
      record {
        used = claim o targets st.used;
        offsets = update st.offsets role (insert pod o (st.offsets role));
      },
      rw (if_neg _ named, found) refl,
      (
        o,
        record {
          free = free;
          smallest = λ q below. smallest q (omega arith) below;
          held = ground (
            arith,
            text_dec role role,
            lookup-insert pod pod o (st.offsets role),
            text_dec pod pod,
          );
          claimed = λ t m. ground (arith, has_number-claim o targets st.used t o, m);
          others_keep = λ r p other. ground (
            arith,
            text_dec role r,
            text_dec pod p,
            lookup-insert pod p o (st.offsets role),
            other,
          );
          targets_keep = λ t n out. ground (arith, has_number-claim o targets st.used t n, out);
        },
      ),
    )
