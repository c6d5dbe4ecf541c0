-- ===== src/Worker/Config/Optional.antt =====
-- What is read back of the peers and of the optional fields of a config.json.
use cloud_native_emulator.Prelude.{
  ℕ, suc, zero, ◌≡◌, refl, String, Bool, Option, none, some, List, [], ◌∷◌, arith, null,
  if◌then◌else◌, text_dec,
}
use cloud_native_emulator.Prelude.Dict.{Dict, lookup}
use cloud_native_emulator.Prelude.Float.{Float}
use cloud_native_emulator.Prelude.Int.{ℤ, pos}
use cloud_native_emulator.Prelude.Result.{ok}
use cloud_native_emulator.Json.{Json, object, integer, array}
use cloud_native_emulator.Merge.{get}
use cloud_native_emulator.Cluster.Roles.{
  PeerConfig, texts, text_entries, number_entries, optional_fields,
}
use cloud_native_emulator.Worker.Config.{
  all_texts, check_dict, server_number, offset_of, int_of, peers_of, peer_names_of,
}

abbrev pub offset_or_zero : Option ℕ → ℕ
offset_or_zero none = 0
offset_or_zero (some n) = n

abbrev as_offset : {F : Type 0} → Option ℕ → Option (Json F)
as_offset none = none
as_offset (some n) = some (integer (pos n))

abbrev as_servers : {F : Type 0} → ℕ → Option (Json F)
as_servers zero = none
as_servers (suc n) = some (integer (pos (suc n)))

abbrev peer_config : List String → ℕ → Dict ℕ → Dict String → PeerConfig
peer_config ips n offsets names = record {
  ips = ips;
  servers = n;
  offsets = offsets;
  names = names;
}

abbrev unless : {F : Type 0} → Bool → Json F → Option (Json F)
unless absent j = if absent then none else some j

module _ (fl : Float) where
  open fl use {F, of_int}

  all_texts-texts : (ss : List String) → all_texts (texts fl ss) ≡ some ss
  unfolding all_texts
  all_texts-texts [] = refl
  all_texts-texts (s ∷ ss) = rw (all_texts-texts ss) refl

  get-number_entries :
      (k : String) (d : Dict ℕ) → get k (number_entries fl d) ≡ as_offset (lookup k d)
  unfolding get lookup
  get-number_entries k [] = refl
  get-number_entries k ((j, n) ∷ d) = ground (arith, get-number_entries k d, text_dec j k)

  written-servers :
      (ips : List String) (n : ℕ) (offsets : Dict ℕ) (names : Dict String)
      → get "server_count" (optional_fields fl (peer_config ips n offsets names)) ≡ as_servers n
  unfolding get text_dec
  written-servers ips zero [] [] = refl
  written-servers ips zero [] ((l, s) ∷ names) = refl
  written-servers ips zero ((k, i) ∷ offsets) [] = refl
  written-servers ips zero ((k, i) ∷ offsets) ((l, s) ∷ names) = refl
  written-servers ips (suc n) [] [] = refl
  written-servers ips (suc n) [] ((l, s) ∷ names) = refl
  written-servers ips (suc n) ((k, i) ∷ offsets) [] = refl
  written-servers ips (suc n) ((k, i) ∷ offsets) ((l, s) ∷ names) = refl

  written-offsets :
      (ips : List String) (n : ℕ) (offsets : Dict ℕ) (names : Dict String)
      → get "port_offset_by_pod" (optional_fields fl (peer_config ips n offsets names))
        ≡ unless (null offsets) (object (number_entries fl offsets))
  unfolding get text_dec
  written-offsets ips zero [] [] = refl
  written-offsets ips zero [] ((l, s) ∷ names) = refl
  written-offsets ips zero ((k, i) ∷ offsets) [] = refl
  written-offsets ips zero ((k, i) ∷ offsets) ((l, s) ∷ names) = refl
  written-offsets ips (suc n) [] [] = refl
  written-offsets ips (suc n) [] ((l, s) ∷ names) = refl
  written-offsets ips (suc n) ((k, i) ∷ offsets) [] = refl
  written-offsets ips (suc n) ((k, i) ∷ offsets) ((l, s) ∷ names) = refl

  written-names :
      (ips : List String) (n : ℕ) (offsets : Dict ℕ) (names : Dict String)
      → get "peer_names" (optional_fields fl (peer_config ips n offsets names))
        ≡ unless (null names) (object (text_entries fl names))
  unfolding get text_dec
  written-names ips zero [] [] = refl
  written-names ips zero [] ((l, s) ∷ names) = refl
  written-names ips zero ((k, i) ∷ offsets) [] = refl
  written-names ips zero ((k, i) ∷ offsets) ((l, s) ∷ names) = refl
  written-names ips (suc n) [] [] = refl
  written-names ips (suc n) [] ((l, s) ∷ names) = refl
  written-names ips (suc n) ((k, i) ∷ offsets) [] = refl
  written-names ips (suc n) ((k, i) ∷ offsets) ((l, s) ∷ names) = refl

  server_number-written : (n : ℕ) → server_number fl (as_servers n) ≡ ok (pos n)
  server_number-written zero = refl
  server_number-written (suc n) = refl

  int_of-written :
      (int_text : List ℕ → Option ℤ) (n : Option ℕ)
      → int_of fl int_text (as_offset n) ≡ ok (pos (offset_or_zero n))
  unfolding int_of
  int_of-written int_text none = refl
  int_of-written int_text (some n) = refl

  offset_of-written :
      (int_text : List ℕ → Option ℤ) (pod : String) (d : Dict ℕ)
      → offset_of fl int_text pod (unless (null d) (object (number_entries fl d)))
        ≡ ok (pos (offset_or_zero (lookup pod d)))
  unfolding get lookup int_of
  offset_of-written int_text pod [] = refl
  offset_of-written int_text pod ((j, n) ∷ d) =
      rw (get-number_entries pod ((j, n) ∷ d)) (int_of-written int_text (lookup pod ((j, n) ∷ d)))

  names-written :
      (d : Dict String)
      → peer_names_of (unless (null d) (object (text_entries fl d))) ≡ text_entries fl d
  names-written [] = refl
  names-written ((k, s) ∷ d) = refl

  check-names :
      (d : Dict String) → check_dict (unless (null d) (object (text_entries fl d))) ≡ ok tt
  check-names [] = refl
  check-names (e ∷ d) = refl

  pub peers-at : (p : PeerConfig) → peers_of (some (array (texts fl p.ips))) ≡ p.ips
  unfolding peers_of
  peers-at p = rw (all_texts-texts p.ips) refl

  pub servers-at :
      (p : PeerConfig)
      → server_number fl (get "server_count" (optional_fields fl p)) ≡ ok (pos p.servers)
  servers-at p =
      rw (written-servers p.ips p.servers p.offsets p.names) (server_number-written p.servers)

  pub offset-at :
      (int_text : List ℕ → Option ℤ) (pod : String) (p : PeerConfig)
      → offset_of fl int_text pod (get "port_offset_by_pod" (optional_fields fl p))
        ≡ ok (pos (offset_or_zero (lookup pod p.offsets)))
  offset-at int_text pod p =
      rw (written-offsets p.ips p.servers p.offsets p.names)
        (offset_of-written int_text pod p.offsets)

  pub names-at :
      (p : PeerConfig)
      → peer_names_of (get "peer_names" (optional_fields fl p)) ≡ text_entries fl p.names
  names-at p = rw (written-names p.ips p.servers p.offsets p.names) (names-written p.names)

  pub check-names-at :
      (p : PeerConfig) → check_dict (get "peer_names" (optional_fields fl p)) ≡ ok tt
  check-names-at p = rw (written-names p.ips p.servers p.offsets p.names) (check-names p.names)
