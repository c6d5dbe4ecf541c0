-- ===== src/Links/Entries.antt =====
-- The entries of a latency or bandwidth field as one list, and the loops as one loop over them.
use cloud_native_emulator.Prelude.{
  ◌≡◌, ◌≢◌, ◌⊎◌, inl, inr, refl, String, true, false, not, List, [], ◌∷◌, ◌++◌, arith, ite,
  text_dec, All, Bool-cases,
}
use cloud_native_emulator.Prelude.Dict.{Dict}
use cloud_native_emulator.Prelude.Result.{
  Result, ok, value_error, no_peer_name, same_tier, given_twice, ◌>>=◌, >>=-eq-ok, guard-eq-ok,
  Result-cases,
}
use cloud_native_emulator.Json.{Json, entries}
use cloud_native_emulator.Links.{
  pair_key, same_pair, Pairs, has_pair, is_empty, add_pair, add_peers, add_tiers,
}

abbrev pub Any {ℓ} : {A : Type ℓ} → (A → Type 0) → List A → Type 0
Any P [] = ⊥
Any P (x ∷ xs) = P x ⊎ Any P xs

-- One entry of the document: `links[a][b]`.
pub record Link (F : Type 0) : Type 0 where
  pub a : String
  pub b : String
  pub value : Json F

abbrev pub key_of : {F : Type 0} → Link F → String × String
key_of l = pair_key l.a l.b

abbrev pub peer_links : {F : Type 0} → String → Dict (Json F) → List (Link F)
peer_links a [] = []
peer_links a ((b, j) ∷ rest) = record { a = a; b = b; value = j } ∷ peer_links a rest

abbrev pub tier_links : {F : Type 0} → String → Json F → List (Link F)
tier_links a (Json.object peers) = peer_links a (entries peers)
tier_links a peers = []

-- All the entries, in the order of the document.
abbrev pub links_of : {F : Type 0} → Dict (Json F) → List (Link F)
links_of [] = []
links_of ((a, peers) ∷ rest) = tier_links a peers ++ links_of rest

-- Every tier has a name, and an object of peers.
abbrev pub HasShape : {F : Type 0} → String × Json F → Type 0
HasShape (a, Json.object peers) = is_empty a ≡ false
HasShape (a, peers) = true ≡ false

-- No pair of tiers is given twice, in either orientation.
abbrev pub IsApart : {F : Type 0} → List (Link F) → Type 0
IsApart [] = Unit
IsApart (l ∷ ls) = All (λ m. same_pair (key_of l) (key_of m) ≡ false) ls × IsApart ls

module _ {F V : Type 0} (value : Json F → Result V) where
  -- An entry between two named tiers that differ, with a value that can be read.
  abbrev pub IsLink : Link F → Type 0
  IsLink l = (is_empty l.b ≡ false) × (l.a ≢ l.b) × ((v : V) × (value l.value ≡ ok v))

  abbrev pub add_all : List (Link F) → Pairs V → Result (Pairs V)
  add_all [] pairs = ok pairs
  add_all (l ∷ ls) pairs = add_pair value l.a l.b l.value pairs >>= λ next. add_all ls next

  pub add_peers-eq-add_all :
      (a : String) (peers : Dict (Json F)) (rest : List (Link F)) (pairs : Pairs V)
      → add_all (peer_links a peers ++ rest) pairs
        ≡ (add_peers value a peers pairs >>= λ next. add_all rest next)
  unfolding add_peers
  add_peers-eq-add_all a [] rest pairs = refl
  add_peers-eq-add_all a ((b, j) ∷ peers) rest pairs =
      elim (Result-cases (add_pair value a b j pairs)) [
        | inl (next, added) ↦ rw added (add_peers-eq-add_all a peers rest next)
        | inr (why, raised) ↦ rw raised refl
      ]

  pub add_tiers-eq-add_all :
      (tiers : Dict (Json F)) (pairs : Pairs V)
      → All HasShape tiers
      → add_tiers value tiers pairs ≡ add_all (links_of tiers) pairs
  unfolding add_tiers
  add_tiers-eq-add_all [] pairs h = refl
  add_tiers-eq-add_all ((a, Json.object peers) ∷ rest) pairs h =
      let named : is_empty a ≡ false = h.0 in
      rw (named, add_peers-eq-add_all a (entries peers) (links_of rest) pairs)
        (elim (Result-cases (add_peers value a (entries peers) pairs)) [
          | inl (next, added) ↦ rw added (add_tiers-eq-add_all rest next h.1)
          | inr (why, raised) ↦ rw raised refl
        ])
  add_tiers-eq-add_all ((a, j) ∷ rest) pairs h = cc

  pub add_pair_result :
      (l : Link F) (pairs : Pairs V) {next : Pairs V}
      → add_pair value l.a l.b l.value pairs ≡ ok next
      → IsLink l
        × (has_pair (key_of l) pairs ≡ false)
        × ((v : V) × (value l.value ≡ ok v) × (pairs ++ ((key_of l, v) ∷ []) ≡ next))
  unfolding add_pair
  add_pair_result l pairs h =
      let (u, named, h1) = >>=-eq-ok _ _ h in
      let (u', differ, h2) = >>=-eq-ok _ _ h1 in
      let (u'', new, h3) = >>=-eq-ok _ _ h2 in
      let (v, read, h4) = >>=-eq-ok _ _ h3 in
      (
        (
          ground (arith, guard-eq-ok (not (is_empty l.b)) (value_error (no_peer_name l.a)) named),
          λ same. ground (
            arith,
            guard-eq-ok (ite (text_dec l.a l.b) false true) (value_error (same_tier l.a)) differ,
            text_dec l.a l.b,
            same,
          ),
          (v, read),
        ),
        ground (
          arith,
          guard-eq-ok (not (has_pair (key_of l) pairs)) (value_error (given_twice (key_of l))) new,
        ),
        (v, read, cc),
      )

  pub add_tiers-HasShape :
      (tiers : Dict (Json F)) (pairs : Pairs V) {r : Pairs V}
      → add_tiers value tiers pairs ≡ ok r
      → All HasShape tiers
  unfolding add_tiers
  add_tiers-HasShape [] pairs h = tt
  add_tiers-HasShape ((a, Json.object peers) ∷ rest) pairs h = elim (Bool-cases (is_empty a)) [
    | inl nameless ↦ absurd (ground (arith, h, nameless))
    | inr named ↦
        let (next, added, later) =
          >>=-eq-ok (add_peers value a (entries peers) pairs) _ (rw named at h) in
        (named, add_tiers-HasShape rest next later)
  ]
  add_tiers-HasShape ((a, j) ∷ rest) pairs h = ground (arith, h, Bool-cases (is_empty a))
