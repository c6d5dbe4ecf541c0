-- ===== src/Propagation/Counting.antt =====
-- How many members of a set are still missing from a list, as `remaining` counts them.
use cloud_native_emulator.Prelude.{
  ℕ, suc, ◌+◌, ◌≡◌, refl, String, true, false, List, [], ◌∷◌, ◌++◌, arith, if◌then◌else◌, text_dec,
  length, ◌≢◌, inl, inr, Bool-cases,
}
use cloud_native_emulator.Prelude.Sets
use cloud_native_emulator.Prelude.Sets.{contains, IsNodup}

-- The members of `us` that `seen` lacks.
unfoldable pub missing : List String → List String → ℕ
missing seen [] = 0
missing seen (u ∷ us) = if contains seen u then missing seen us else suc (missing seen us)

pub missing-nil : (us : List String) → missing [] us ≡ length us
unfolding missing contains
missing-nil [] = refl
missing-nil (u ∷ us) = ground (arith, missing-nil us)

missing_stable :
    (seen us : List String) (r : String)
    → contains us r ≡ false
    → missing (seen ++ (r ∷ [])) us ≡ missing seen us
unfolding missing contains
missing_stable seen [] r h = refl
missing_stable seen (u ∷ us) r h = ground (
  arith,
  Sets.contains-append seen (r ∷ []) u,
  Sets.contains_one r u,
  missing_stable seen us r,
  text_dec r u,
)

-- A new member of `seen` is one missing less for each set that it belongs to.
pub missing-snoc :
    (seen us : List String) (r : String)
    → IsNodup us
    → contains seen r ≡ false
    → missing (seen ++ (r ∷ [])) us + (if contains us r then 1 else 0) ≡ missing seen us
unfolding missing contains
missing-snoc seen [] r d h = omega arith
missing-snoc seen (u ∷ us) r d h = ground (
  arith,
  Sets.contains-append seen (r ∷ []) u,
  Sets.contains_one r u,
  missing_stable seen us r,
  missing-snoc seen us r d.1 h,
  text_dec r u,
  text_dec u r,
)

-- With none missing, every member of `us` was seen.
pub missing-eq-zero :
    (seen us : List String) (u : String)
    → missing seen us ≡ 0
    → contains us u ≡ true
    → contains seen u ≡ true
unfolding missing contains
missing-eq-zero seen [] u h m = cc
missing-eq-zero seen (v ∷ us) u h m = ground (arith, missing-eq-zero seen us u, text_dec v u)

pub missing_of_subset :
    (seen us : List String)
    → ((u : String) → contains us u ≡ true → contains seen u ≡ true)
    → missing seen us ≡ 0
unfolding missing contains
missing_of_subset seen [] h = refl
missing_of_subset seen (u ∷ us) h =
    ground (arith, h u, text_dec u u, missing_of_subset seen us (λ v m. h v (ground arith)))

-- With something missing, some member of `us` was not seen.
pub missing-ne-zero :
    (seen us : List String)
    → missing seen us ≢ 0
    → (u : String) × (contains us u ≡ true) × (contains seen u ≡ false)
unfolding missing contains
missing-ne-zero seen [] h = absurd (h refl)
missing-ne-zero seen (u ∷ us) h = elim (Bool-cases (contains seen u)) [
  | inl old ↦
      let (v, member, new) = missing-ne-zero seen us (λ e. h (rw (old, e))) in
      (v, ground arith, new)
  | inr new ↦ (u, ground (arith, text_dec u u), new)
]
