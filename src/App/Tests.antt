-- ===== src/App/Tests.antt =====
-- Requests for two templates, and the theorems there.
use cloud_native_emulator.Prelude.{
  ◌≡◌, ◌≢◌, refl, ap, String, Bool, true, false, none, some, List, [], ◌∷◌, foldl, ite, text_dec,
  arith,
}
use cloud_native_emulator.Prelude.Sets
use cloud_native_emulator.Prelude.Sets.{contains}
use cloud_native_emulator.App.{Server, Create, Request, post, is_conflict, create_template, handle}
use cloud_native_emulator.App.Single.{IsSingle, requests-IsSingle}

abbrev creating : String → Bool → Create
creating name has_phases = record {
  name = name;
  is_valid = true;
  has_phases = has_phases;
  is_listed = true;
  raises_error = false;
  has_label = true;
}

abbrev empty : Server
empty = record { managed = []; running = none }

-- The second POST of "a" has no phases, and yet the scenario of the first goes on.
abbrev requests : List Request
requests = post (creating "a" true) ∷ post (creating "b" false) ∷ post (creating "a" false) ∷ []

requests-end : foldl handle empty requests ≡ record { managed = "a" ∷ []; running = some "a" }
unfolding handle create_template is_conflict Sets.add contains text_dec
requests-end = refl

requests-IsSingle_example : IsSingle (foldl handle empty requests)
requests-IsSingle_example =
    requests-IsSingle requests empty (refl, (refl, (refl, tt))) (omega arith)

abbrev name_a : String
name_a = "a"

abbrev name_b : String
name_b = "b"

b_is_other : name_b ≢ name_a
unfolding text_dec
b_is_other e = let clash : false ≡ true = ap (λ s. ite (text_dec s "a") true false) e in cc

abbrev with_a : Server
with_a = record { managed = name_a ∷ []; running = some name_a }
