-- ===== src/Peers/Distinct.antt =====
-- The greedy colouring keeps source pods apart.
use cloud_native_emulator.Prelude.{
  ℕ, zero, suc, ◌+◌, ◌≤◌, ◌<◌, ◌≡◌, ◌⊎◌, refl, inl, inr, String, true, false, ◌&&◌, ◌||◌, some,
  List, [], ◌∷◌, arith, has_number, text_dec, ◌==◌, Bool-cases,
}
use cloud_native_emulator.Prelude.Dict.{lookup, insert, update, lookup-insert}
use cloud_native_emulator.Prelude.Result.{ok}
use cloud_native_emulator.Prelude.Sets.{contains}
use cloud_native_emulator.Peers.Offsets.{
  Table, taken, maximum, above_used, first_free, claim_one, claim,
}

pub has_number-le : (ns : List ℕ) (n : ℕ) → has_number ns n ≡ true → n ≤ maximum ns
unfolding has_number maximum
has_number-le [] n h = cc
has_number-le (m ∷ ns) n h = ground (arith, has_number-le ns n)

pub taken_above :
    (used : String → List ℕ) (targets : List String) (n : ℕ)
    → above_used used targets ≤ n
    → taken used targets n ≡ false
unfolding above_used taken
taken_above used [] n h = refl
taken_above used (t ∷ ts) n h = ground (arith, taken_above used ts n, has_number-le (used t) n)

taken_at :
    (used : String → List ℕ) (targets : List String) (n : ℕ) (t : String)
    → taken used targets n ≡ false
    → contains targets t ≡ true
    → has_number (used t) n ≡ false
unfolding taken contains
taken_at used [] n t h m = cc
taken_at used (s ∷ ts) n t h m = ground (arith, taken_at used ts n t, text_dec s t)

pub first_free_total :
    (used : String → List ℕ) (targets : List String) (fuel o : ℕ)
    → taken used targets (o + fuel) ≡ false
    → (p : ℕ) × (first_free used targets fuel o ≡ ok p)
unfolding first_free
first_free_total used targets zero o h = let e : o + 0 ≡ o = omega arith in (o, rw (rw e at h) refl)
first_free_total used targets (suc fuel) o h = elim (Bool-cases (taken used targets o)) [
  | inl busy ↦
      let e : o + suc fuel ≡ (o + 1) + fuel = omega arith in
      rw busy (first_free_total used targets fuel (o + 1) (rw e at h))
  | inr free ↦ (o, rw free)
]

-- What the search returns is free, and everything before it is taken.
abbrev pub IsFirstFree : (String → List ℕ) → List String → ℕ → ℕ → Type 0
IsFirstFree used targets o p =
    (taken used targets p ≡ false)
    × (o ≤ p)
    × ((q : ℕ) → o ≤ q → q < p → taken used targets q ≡ true)

pub first_free-IsFirstFree :
    (used : String → List ℕ) (targets : List String) (fuel o : ℕ) {p : ℕ}
    → first_free used targets fuel o ≡ ok p
    → IsFirstFree used targets o p
unfolding first_free
first_free-IsFirstFree used targets zero o {p} h = elim (Bool-cases (taken used targets o)) [
  | inl busy ↦ absurd (ground arith)
  | inr free ↦
      let same : o ≡ p = ground arith in
      rw (← same) (free, omega arith, λ q a b. absurd (omega arith))
]
first_free-IsFirstFree used targets (suc fuel) o {p} h = elim (Bool-cases (taken used targets o)) [
  | inl busy ↦
      let (free, from, before) = first_free-IsFirstFree used targets fuel (o + 1) (rw busy at h) in
      (
        free,
        omega arith,
        λ q a b. elim (Bool-cases (o == q)) [
          | inl e ↦ let same : o ≡ q = ground arith in rw (← same) busy
          | inr n ↦ before q (ground arith) b
        ],
      )
  | inr free ↦
      let same : o ≡ p = ground arith in
      rw (← same) (free, omega arith, λ q a b. absurd (omega arith))
]

pub has_number-claim :
    (o : ℕ) (targets : List String) (used : String → List ℕ) (t : String) (n : ℕ)
    → has_number (claim o targets used t) n
      ≡ (has_number (used t) n || (contains targets t && (o == n)))
unfolding claim has_number contains
has_number-claim o [] used t n = ground arith
has_number-claim o (s ∷ ts) used t n =
    ground (arith, has_number-claim o ts (claim_one o used s) t n, text_dec s t)

module _ (targets : String → List String) where
  -- Every offset that a pod holds is in use at each of its targets, and no two pods that share a
  -- target hold the same offset.
  pub record Inv (st : Table) : Type 0 where
    pub held :
        (r p : String) (o : ℕ) (t : String)
        → lookup p (st.offsets r) ≡ some o
        → contains (targets r) t ≡ true
        → has_number (st.used t) o ≡ true
    pub apart :
        (r p r' p' : String) (o : ℕ) (t : String)
        → lookup p (st.offsets r) ≡ some o
        → lookup p' (st.offsets r') ≡ some o
        → contains (targets r) t ≡ true
        → contains (targets r') t ≡ true
        → (r ≡ r') × (p ≡ p')

  module _ (st : Table) (inv : Inv st) (role pod : String) (o : ℕ)
      (free : taken st.used (targets role) o ≡ false) where
    abbrev pub assigned : Table
    assigned = record {
      used = claim o (targets role) st.used;
      offsets = update st.offsets role (insert pod o (st.offsets role));
    }

    -- An offset of the new table is the new pod's, or was there before.
    assigned_cases :
        (r p : String) (n : ℕ)
        → lookup p (assigned.offsets r) ≡ some n
        → (r ≡ role) × (p ≡ pod) × (n ≡ o) ⊎ (lookup p (st.offsets r) ≡ some n)
    assigned_cases r p n h =
        ground (arith, text_dec role r, text_dec pod p, lookup-insert pod p o (st.offsets role))

    pub assigned-Inv : Inv assigned
    assigned-Inv = record {
      held = λ r p n t h m. ground (
        arith,
        has_number-claim o (targets role) st.used t n,
        inv.held r p n t,
        assigned_cases r p n h,
      );
      apart = λ r p r' p' n t h h' m m'. ground (
        arith,
        assigned_cases r p n h,
        assigned_cases r' p' n h',
        inv.apart r p r' p' n t,
        inv.held r p n t,
        inv.held r' p' n t,
        taken_at st.used (targets role) o t free,
      );
    }
