-- ===== src/Links/Accepted.antt =====
-- Which latency and bandwidth fields are accepted, and what is read off them.
use cloud_native_emulator.Prelude.{
  ◌≡◌, ◌⊎◌, inl, inr, refl, sym, ap, ◌∙◌, String, true, false, some, List, [], ◌∷◌, ◌++◌, arith,
  if◌then◌else◌, ite, text_dec, All, All-map_of, Bool-cases, All-of_every,
}
use mathlib.Core.Option.{some-injective}
use cloud_native_emulator.Prelude.Dict.{Dict}
use cloud_native_emulator.Prelude.Result.{Result, ok, >>=-eq-ok}
use cloud_native_emulator.Json.{Json, Fields, entries}
use cloud_native_emulator.Links.Entries.{
  Any, Link, key_of, links_of, HasShape, IsApart, IsLink, add_all, add_tiers-eq-add_all,
  add_pair_result, add_tiers-HasShape,
}
use cloud_native_emulator.Links.Pairs.{
  same_pair-eq, same_pair_refl, pair_key_comm, find, find-append, has_pair-append, find-kept,
}
use cloud_native_emulator.Links.{pair_key, same_pair, Pairs, has_pair, add_pair, validate_pairs}

module _ {F V : Type 0} (value : Json F → Result V) where
  -- An entry whose value stands in the result, under its pair.
  abbrev pub IsKept : Pairs V → Link F → Type 0
  IsKept r l = (v : V) × (value l.value ≡ ok v) × (find (key_of l) r ≡ some v)

  abbrev pub IsFrom : String × String → V → Link F → Type 0
  IsFrom k v l = (k ≡ key_of l) × (value l.value ≡ ok v)

  record Outcome (ls : List (Link F)) (pairs r : Pairs V) : Type 0 where
    links : All (IsLink value) ls
    apart : IsApart ls
    new : All (λ l. has_pair (key_of l) pairs ≡ false) ls
    kept : (k : String × String) (v : V) → find k pairs ≡ some v → find k r ≡ some v
    read : All (IsKept r) ls
    only :
        (k : String × String) (v : V)
        → find k r ≡ some v
        → (find k pairs ≡ some v) ⊎ Any (IsFrom k v) ls

  add_all_result :
      (ls : List (Link F)) (pairs : Pairs V) {r : Pairs V}
      → add_all value ls pairs ≡ ok r
      → Outcome ls pairs r
  add_all_result [] pairs {r} h =
      let same : pairs ≡ r = cc in
      record {
        links = tt;
        apart = tt;
        new = tt;
        kept = λ k v found. rw (← same) found;
        read = tt;
        only = λ k v found. inl (rw same found);
      }
  add_all_result (l ∷ ls) pairs {r} h =
      let (next, added, rest) = >>=-eq-ok (add_pair value l.a l.b l.value pairs) _ h in
      let (link, new, (v, got, grown)) = add_pair_result value l pairs added in
      let o = add_all_result ls next rest in
      let here : find (key_of l) next ≡ some v =
        rw (← grown)
          (find-append (key_of l) (key_of l) v pairs new ∙ rw (same_pair_refl (key_of l)) refl) in
      let split : (k : String × String)
          → has_pair k next ≡ false
          → (has_pair k pairs ≡ false) × (same_pair (key_of l) k ≡ false) =
        λ k no.
          let no' : has_pair k (pairs ++ ((key_of l, v) ∷ [])) ≡ false = rw grown no in
          ground (arith, has_pair-append k (key_of l) v pairs, no') in
      record {
        links = (link, o.links);
        apart = (All-map_of _ _ ls (λ m no. (split (key_of m) no).1) o.new, o.apart);
        new = (new, All-map_of _ _ ls (λ m no. (split (key_of m) no).0) o.new);
        kept = λ k w found. o.kept k w (rw (← grown) (find-kept k (key_of l) v w pairs new found));
        read = ((v, got, o.kept (key_of l) v here), o.read);
        only = λ k w found. elim (o.only k w found) [
          | inl at_next ↦
              let chosen : (if same_pair (key_of l) k then some v else find k pairs) ≡ some w =
                sym (find-append k (key_of l) v pairs new) ∙ rw grown at_next in
              elim (Bool-cases (same_pair (key_of l) k)) [
                | inl same ↦
                    let value_same : some v ≡ some w = rw same at chosen in
                    inr (
                      inl (
                        sym (same_pair-eq (key_of l) k same),
                        rw (some-injective v w value_same) at got,
                      ))
                | inr other ↦ inl (rw other at chosen)
              ]
          | inr later ↦ inr (inr later)
        ];
      }

  still_new :
      (l : Link F) (v : V) (ls : List (Link F)) (pairs : Pairs V)
      → All (λ m. same_pair (key_of l) (key_of m) ≡ false) ls
      → All (λ m. has_pair (key_of m) pairs ≡ false) ls
      → All (λ m. has_pair (key_of m) (pairs ++ ((key_of l, v) ∷ [])) ≡ false) ls
  still_new l v [] pairs off new = tt
  still_new l v (m ∷ ls) pairs off new = (
    ground (arith, has_pair-append (key_of m) (key_of l) v pairs, off.0, new.0),
    still_new l v ls pairs off.1 new.1,
  )

  add_all_total :
      (ls : List (Link F)) (pairs : Pairs V)
      → All (IsLink value) ls
      → IsApart ls
      → All (λ l. has_pair (key_of l) pairs ≡ false) ls
      → (r : Pairs V) × (add_all value ls pairs ≡ ok r)
  unfolding add_pair
  add_all_total [] pairs links apart new = (pairs, refl)
  add_all_total (l ∷ ls) pairs ((named, differ, (v, got)), links) (off, apart) (new, news) =
      let differs : ite (text_dec l.a l.b) false true ≡ true = ground (arith, text_dec l.a l.b) in
      rw (named, differs, new, got)
        (add_all_total ls (pairs ++ ((key_of l, v) ∷ [])) links apart
          (still_new l v ls pairs off news))

  -- A field that is well shaped: named tiers with objects of peers, entries between two named
  -- tiers that differ, each with a value that can be read, and no pair of tiers twice.
  pub record IsAccepted (tiers : Dict (Json F)) : Type 0 where
    pub shape : All HasShape tiers
    pub links : All (IsLink value) (links_of tiers)
    pub apart : IsApart (links_of tiers)

  -- What was read off the field: each entry's value, found from either end, and nothing else.
  pub record IsRead (tiers : Dict (Json F)) (r : Pairs V) : Type 0 where
    pub read :
        All
          (λ l. IsKept r l × (find (pair_key l.b l.a) r ≡ find (pair_key l.a l.b) r))
          (links_of tiers)
    pub only : (k : String × String) (v : V) → find k r ≡ some v → Any (IsFrom k v) (links_of tiers)

  -- Where the loops of validate_latency and validate_bandwidth return, the field is well shaped,
  -- each of its entries is found in the result, the same from either end, and every pair of the
  -- result is an entry of the field.
  pub validate_pairs-IsRead :
      (tiers : Fields F) (r : Pairs V)
      → validate_pairs value (Json.object tiers) ≡ ok r
      → IsAccepted (entries tiers) × IsRead (entries tiers) r
  unfolding validate_pairs
  validate_pairs-IsRead tiers r h =
      let shape = add_tiers-HasShape value (entries tiers) [] h in
      let o =
        add_all_result (links_of (entries tiers)) []
          (sym (add_tiers-eq-add_all value (entries tiers) [] shape) ∙ h) in
      (
        record { shape = shape; links = o.links; apart = o.apart },
        record {
          read =
              All-map_of _ _ (links_of (entries tiers))
                (λ l kept. (kept, ap (λ k. find k r) (pair_key_comm l.b l.a))) o.read;
          only = λ k v found. elim (o.only k v found) [ inl none_yet ↦ cc | inr from ↦ from ];
        },
      )

  -- A well shaped field is accepted.
  pub validate_pairs-accepts :
      (tiers : Fields F)
      → IsAccepted (entries tiers)
      → (r : Pairs V) × (validate_pairs value (Json.object tiers) ≡ ok r) × IsRead (entries tiers) r
  unfolding validate_pairs has_pair
  validate_pairs-accepts tiers fits =
      let (r, ran) =
        add_all_total (links_of (entries tiers)) [] fits.links fits.apart
          (All-of_every _ (links_of (entries tiers)) (λ l. refl)) in
      let done = add_tiers-eq-add_all value (entries tiers) [] fits.shape ∙ ran in
      (r, done, (validate_pairs-IsRead tiers r done).1)
