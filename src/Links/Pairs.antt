-- ===== src/Links/Pairs.antt =====
-- The dict of links, keyed by pairs of tiers.
use cloud_native_emulator.Prelude.{
  ◌≡◌, inl, inr, refl, ◌∙◌, String, true, false, ◌||◌, Option, none, some, [], ◌∷◌, ◌++◌, arith,
  if◌then◌else◌, text_dec, Bool-cases,
}
use cloud_native_emulator.Prelude.Order.{text_le_antisym, text_le_total}
use cloud_native_emulator.Links.{pair_key, same_pair, Pairs, has_pair}

pub same_pair-eq : (p q : String × String) → same_pair p q ≡ true → p ≡ q
unfolding same_pair
same_pair-eq (a, b) (c, d) h = ground (arith, text_dec a c, text_dec b d)

pub same_pair_refl : (p : String × String) → same_pair p p ≡ true
unfolding same_pair
same_pair_refl (a, b) = ground (arith, text_dec a a, text_dec b b)

same_pair_via :
    (j k key : String × String)
    → same_pair j key ≡ true
    → same_pair k key ≡ true
    → same_pair j k ≡ true
same_pair_via j k key h g = rw (same_pair-eq j key h, same_pair-eq k key g) (same_pair_refl key)

-- A link is the same in either orientation.
pub pair_key_comm : (a b : String) → pair_key a b ≡ pair_key b a
unfolding pair_key
pair_key_comm a b = ground (arith, text_le_antisym a b, text_le_total a b, text_le_total b a)

-- `pairs.get(key)`
abbrev pub find {ℓ} : {V : Type ℓ} → String × String → Pairs V → Option V
find key [] = none
find key ((k, v) ∷ pairs) = if same_pair k key then some v else find key pairs

module _ {V : Type 0} where
  pub find-append :
      (key k : String × String) (v : V) (pairs : Pairs V)
      → has_pair k pairs ≡ false
      → find key (pairs ++ ((k, v) ∷ [])) ≡ (if same_pair k key then some v else find key pairs)
  unfolding has_pair
  find-append key k v [] new = refl
  find-append key k v ((j, w) ∷ pairs) new =
      ground (arith, find-append key k v pairs, same_pair_via j k key)

  pub has_pair-append :
      (key k : String × String) (v : V) (pairs : Pairs V)
      → has_pair key (pairs ++ ((k, v) ∷ [])) ≡ (has_pair key pairs || same_pair k key)
  unfolding has_pair
  has_pair-append key k v [] = ground arith
  has_pair-append key k v ((j, w) ∷ pairs) = ground (arith, has_pair-append key k v pairs)

module _ {V : Type 0} where
  pub find-eq-none :
      (key : String × String) (pairs : Pairs V) → has_pair key pairs ≡ false → find key pairs ≡ none
  unfolding has_pair
  find-eq-none key [] new = refl
  find-eq-none key ((k, v) ∷ pairs) new = ground (arith, find-eq-none key pairs)

  pub find-kept :
      (key k : String × String) (v w : V) (pairs : Pairs V)
      → has_pair k pairs ≡ false
      → find key pairs ≡ some w
      → find key (pairs ++ ((k, v) ∷ [])) ≡ some w
  find-kept key k v w pairs new found = elim (Bool-cases (same_pair k key)) [
    | inl same ↦
        let gone = find-eq-none k pairs new in
        let here : find k pairs ≡ some w = rw (← same_pair-eq k key same) at found in
        cc (gone, here)
    | inr other ↦ find-append key k v pairs new ∙ rw other found
  ]
