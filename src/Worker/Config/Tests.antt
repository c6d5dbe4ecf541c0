-- ===== src/Worker/Config/Tests.antt =====
-- A config.json as the controller writes it, read by the worker.
use cloud_native_emulator.Prelude.{
  ℕ, ◌≡◌, refl, Option, none, some, List, [], ◌∷◌, text_dec, codes, true,
}
use cloud_native_emulator.Prelude.Dict.{lookup}
use cloud_native_emulator.Prelude.Int.{ℤ, pos, ◌+ℤ◌, ◌*ℤ◌}
use cloud_native_emulator.Prelude.Result.{ok, err, key_error, value_error, field_shape}
use cloud_native_emulator.Json.{Json, Fields, integer, text, object, no_fields, field}
use cloud_native_emulator.Merge.{get}
use cloud_native_emulator.Samples.{whole, axis}
use cloud_native_emulator.Validation.{float_of}
use cloud_native_emulator.Cluster.{item_at}
use cloud_native_emulator.Cluster.Roles.{PeerConfig, role_config}
use cloud_native_emulator.Worker.Config.{
  is_in, in_text, validate_config, load_config, linear, is_idle, read_setup, all_texts,
}
use cloud_native_emulator.Worker.Config.Written.{role_config-read, setup_of}

abbrev formula : ℕ → ℕ → Json ℤ
formula a b = object (field "a" (integer (pos a)) (field "b" (integer (pos b)) no_fields))

abbrev api : Fields ℤ
api = field "cpu" (formula 1 2) (field "ram" (formula 3 4) (field "net" (formula 5 6) no_fields))

abbrev peers : PeerConfig
peers = record {
  ips = "10.0.0.7" ∷ [];
  servers = 3;
  offsets = ("api-a", 0) ∷ ("api-b", 1) ∷ [];
  names = ("10.0.0.7", "db") ∷ [];
}

abbrev no_number : List ℕ → Option ℤ
no_number s = none

program : Unit {0}
unfolding get lookup float_of item_at role_config is_in in_text validate_config load_config linear
    is_idle read_setup all_texts text_dec codes ◌+ℤ◌ ◌*ℤ◌
program = tt

role_config-read_example :
    (config : Fields ℤ) × (role_config whole (object api) peers (pos 10) ≡ ok config)
    × (validate_config (object config) ≡ ok tt)
    × (read_setup whole no_number "api-b" (object config)
        ≡ ok (setup_of whole "api-b" (axis 1 2) (axis 3 4) (axis 5 6) peers (pos 10)))
unfolding program
role_config-read_example =
    role_config-read whole no_number "api-b" api (axis 1 2) (axis 3 4) (axis 5 6) peers (pos 10)
      refl refl refl

without_net :
    validate_config {F = ℤ} (
      object (
        field "x"
          (integer (pos 1))
          (field "cpu" (formula 1 2) (field "ram" (formula 1 2) no_fields))))
    ≡ err (key_error "net")
unfolding program
without_net = refl

odd_peers :
    validate_config {F = ℤ} (object (field "peers" (text "db") (field "x" (integer (pos 1)) api)))
    ≡ err (value_error field_shape)
unfolding program
odd_peers = refl

-- "a" in "bar": a text for a formula passes if it contains the letters.
letters : is_in {F = ℤ} "a" (text "bar") ≡ ok true
unfolding program
letters = refl

-- A file of blanks leaves the worker idle.
blank_file : load_config {F = ℤ} (λ raw. some (object api)) (some (32 ∷ 10 ∷ [])) ≡ none
unfolding program
blank_file = refl
