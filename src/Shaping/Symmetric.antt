-- ===== src/Shaping/Symmetric.antt =====
-- A link shapes both of its directions alike.
use cloud_native_emulator.Prelude.{
  ℕ, ◌≡◌, ◌≢◌, inl, inr, refl, String, Option, some, List, [], ◌∷◌, ◌++◌, arith, text_dec, All,
}
use cloud_native_emulator.Prelude.Dict.{Dict}
use cloud_native_emulator.Prelude.Float.{Float}
use cloud_native_emulator.Json.{Json}
use cloud_native_emulator.Links.{Pairs}
use cloud_native_emulator.Links.Entries.{Any}
use cloud_native_emulator.Links.Pairs.{find}
use cloud_native_emulator.Shaping.{Peer, other_end, members_of, specs_for, specs_at, peer_specs}

Any-append_left : {A : Type 0} (P : A → Type 0) (xs ys : List A) → Any P xs → Any P (xs ++ ys)
Any-append_left P [] ys h = absurd h
Any-append_left P (x ∷ xs) ys (inl p) = inl p
Any-append_left P (x ∷ xs) ys (inr later) = inr (Any-append_left P xs ys later)

Any-append_right : {A : Type 0} (P : A → Type 0) (xs ys : List A) → Any P ys → Any P (xs ++ ys)
Any-append_right P [] ys h = h
Any-append_right P (x ∷ xs) ys h = inr (Any-append_right P xs ys h)

All-map_under :
    {A : Type 0} {P Q : A → Type 0} (xs : List A) → ((a : A) → P a → Q a) → All P xs → All Q xs
All-map_under [] f h = tt
All-map_under (x ∷ xs) f h = (f x h.0, All-map_under xs f h.1)

module _ (fl : Float) where
  open fl use {F}

  other_end-left : (p q : String) → other_end fl p (p, q) ≡ some q
  unfolding other_end
  other_end-left p q = ground (arith, text_dec p p)

  other_end-right : (p q : String) → p ≢ q → other_end fl q (p, q) ≡ some p
  unfolding other_end
  other_end-right p q differ = ground (arith, text_dec q p, text_dec q q, differ)

  specs_for-all :
      (delay : Option ℕ) (rate : Option (Json F)) (ms : List (String × String))
      → All
          (λ m.
            Any
              (λ s. s ≡ record { ip = m.1; delay_us = delay; rate = rate })
              (specs_for fl delay rate ms))
          ms
  specs_for-all delay rate [] = tt
  specs_for-all delay rate ((name, ip) ∷ ms) =
      (inl refl, All-map_under ms (λ m h. inr h) (specs_for-all delay rate ms))

  module _ (latency : Pairs ℕ) (bandwidth : Pairs (Json F))
      (nodes : Dict (List (String × String))) where
    -- Among the specs are those of all the members of a tier, with the values of one link.
    abbrev pub Reaches : String × String → List (Peer F) → String → Type 0
    Reaches link specs tier =
        All
          (λ m.
            Any
              (λ s.
                s ≡ record { ip = m.1; delay_us = find link latency; rate = find link bandwidth })
              specs)
          (members_of fl nodes tier)

    -- The specs of one link at one of its ends.
    abbrev here : String × String → String → List (Peer F)
    here link tier = specs_at fl latency bandwidth nodes link (other_end fl tier link)

    here-Reaches :
        (link : String × String) (tier other : String)
        → other_end fl tier link ≡ some other
        → Reaches link (here link tier) other
    here-Reaches link tier other end =
        rw end (specs_for-all (find link latency) (find link bandwidth) (members_of fl nodes other))

    peer_specs-Reaches :
        (pairs : List (String × String)) (tier other : String) (link : String × String)
        → Any (λ k. k ≡ link) pairs
        → other_end fl tier link ≡ some other
        → Reaches link (peer_specs fl latency bandwidth nodes tier pairs) other
    unfolding peer_specs
    peer_specs-Reaches [] tier other link h end = absurd h
    peer_specs-Reaches (k ∷ pairs) tier other link (inl same) end = rw same (
        All-map_under (members_of fl nodes other)
          (λ m.
            Any-append_left _ (here link tier) (peer_specs fl latency bandwidth nodes tier pairs))
          (here-Reaches link tier other end))
    peer_specs-Reaches (k ∷ pairs) tier other link (inr later) end =
        All-map_under (members_of fl nodes other)
          (λ m. Any-append_right _ (here k tier) (peer_specs fl latency bandwidth nodes tier pairs))
          (peer_specs-Reaches pairs tier other link later end)

    -- Where a link between two tiers is configured, the nodes of each of its tiers shape the
    -- traffic to every node of the other, with the one delay and the one rate of the link.
    pub peer_specs-symmetric :
        (pairs : List (String × String)) (p q : String)
        → Any (λ k. k ≡ (p, q)) pairs
        → p ≢ q
        → Reaches (p, q) (peer_specs fl latency bandwidth nodes p pairs) q
          × Reaches (p, q) (peer_specs fl latency bandwidth nodes q pairs) p
    peer_specs-symmetric pairs p q configured differ = (
      peer_specs-Reaches pairs p q (p, q) configured (other_end-left p q),
      peer_specs-Reaches pairs q p (p, q) configured (other_end-right p q differ),
    )
