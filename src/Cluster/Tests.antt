-- ===== src/Cluster/Tests.antt =====
-- A template of two roles in a cluster that takes every request.
use cloud_native_emulator.Prelude.{
  ℕ, ◌+◌, ◌++◌, ◌≡◌, refl, String, false, Option, none, some, [], ◌∷◌, All, codes, text_dec,
  has_number, length,
}
use cloud_native_emulator.Prelude.Dict.{lookup, insert}
use cloud_native_emulator.Prelude.Int.{ℤ, pos}
use cloud_native_emulator.Prelude.Result.{ok}
use cloud_native_emulator.Prelude.Sets
use cloud_native_emulator.Prelude.Sets.{contains}
use cloud_native_emulator.Prelude.Sort.{sort}
use cloud_native_emulator.Json.{
  Json, Fields, integer, text, array, object, real, no_items, item, no_fields, field,
}
use cloud_native_emulator.Peers.Offsets.{assign_roles, server_count}
use cloud_native_emulator.Samples.{whole}
use cloud_native_emulator.Cluster.{
  Kind, deployment, config_map, network_chaos, all_of, named, Request, get_at, delete_at, post_at,
  patch_at, run_on, History, ◌>>=◌, ◌>>◌, lift, done, send, branch, for_each, one, apply,
  unpin_node,
}
use cloud_native_emulator.Cluster.Answers.{rescue, delete_managed}
use cloud_native_emulator.Cluster.Materialise.{Setting, make_plan, now, carry_out, materialise}
use cloud_native_emulator.Cluster.Removed.{
  IsChaosDelete, swept, delete_of, count_at, teardown-order,
}
use cloud_native_emulator.Cluster.Roles.{replace_from, replace, decimal, digits_of}
use cloud_native_emulator.Cluster.Teardown.{count_in, teardown}

replace-name : replace "__ROLE__" (codes "web") (codes "wt-__ROLE__-__ROL") ≡ codes "wt-web-__ROL"
unfolding replace_from codes
replace-name = refl

decimal_three : decimal 120 ≡ codes "120"
unfolding digits_of codes
decimal_three = refl

abbrev axis_of : ℕ → ℕ → Json ℤ
axis_of a b = object (field "a" (integer (pos a)) (field "b" (integer (pos b)) no_fields))

abbrev role_json : ℕ → Json ℤ
role_json n = object (
    field "count" (integer (pos n))
      (field "cpu" (axis_of 1 2) (field "ram" (axis_of 3 4) (field "net" (axis_of 2 1) no_fields))))

abbrev document : Json ℤ
document = object (
    field "name" (text "shop") (
      field "x" (integer (pos 10)) (
        field "roles" (object (field "web" (role_json 2) (field "db" (role_json 1) no_fields))) (
          field "edges"
            (array (
              item (object (field "from" (text "web") (field "to" (text "db") no_fields)))
                no_items))
            no_fields))))

abbrev manifest : String → Json ℤ
manifest kind =
    object (field "kind" (text kind) (field "metadata" (one "name" (text "thing")) no_fields))

abbrev config : Fields ℤ
config = field "x" (real (pos 1)) (field "cpu" (axis_of 1 2) no_fields)

-- Objects are created, the config of a role can be read, and no other answer has a body.
abbrev status_of : Request ℤ → ℕ
status_of (get_at a) = 200
status_of (delete_at a) = 200
status_of (post_at a j) = 201
status_of (patch_at a j) = 200
status_of (run_on node script) = 0

abbrev body_of : Request ℤ → Option (Json ℤ)
body_of (get_at (named config_map n)) = some (one "data" (one "config.json" (text "config")))
body_of r = none

abbrev quiet : Setting whole
quiet = record {
  server = λ h r. record { status = status_of r; body = body_of r };
  blueprint = codes "blueprint";
  image = "worker:1";
  wide = λ c. false;
  order = λ s. s;
  pair_order = λ s. s;
  load_all = λ s. ok (manifest "ConfigMap" ∷ manifest "Service" ∷ []);
  dumps = λ j. "dumped";
  loads = λ s. some (object config);
  polled = λ h. "wt-shop-db" ∷ [];
  pods = λ h. record {
    source_pods = λ s. ("pod-1", "10.0.0.1") ∷ [];
    target_pods = λ s. ("pod-2", "10.0.0.2") ∷ [];
  };
}

program : Unit {0}
unfolding materialise make_plan carry_out now ◌>>=◌ ◌>>◌ lift done send branch for_each rescue
    contains text_dec Sets.add lookup insert sort apply unpin_node assign_roles has_number
    server_count
program = tt

abbrev after_materialise : History ℤ
after_materialise = (materialise whole quiet document "http" no_fields []).1

-- Two objects and an unpinning patch for each of two roles, a peer patch for each that has a peer
-- or another server count, a read of Endpoints, and the lists of NetworkChaos objects and of nodes,
-- which have no body.
materialise_length : length after_materialise ≡ 11
unfolding program
materialise_length = refl

abbrev more_pods : Fields ℤ
more_pods = field "roles.web.count" (integer (pos 3)) no_fields

countable :
    (h : History ℤ) (kind : Kind)
    → (n : ℕ) × (count_in (quiet.server h (delete_of whole quiet "shop" kind)).body ≡ ok n)
unfolding count_in
countable h kind = (1, refl)

abbrev clear_shop : History ℤ
clear_shop = swept whole quiet []

teardown-order_example :
    (removed : ℕ) × (chaos : History ℤ) × (let listed =
        get_at (all_of network_chaos) ∷ clear_shop in
      let first = chaos ++ listed in
      let second = delete_of whole quiet "shop" deployment ∷ first in
      let third = delete_of whole quiet "shop" Kind.service ∷ second in
      All IsChaosDelete chaos
      × (delete_managed quiet.server clear_shop ≡ (ok removed, first))
      × (teardown whole quiet "shop" [] ≡ (
        ok (
            removed
            + count_at whole quiet "shop" deployment first
            + count_at whole quiet "shop" Kind.service second
            + count_at whole quiet "shop" config_map third),
        delete_of whole quiet "shop" config_map ∷ third,
      )))
teardown-order_example = teardown-order whole quiet "shop" countable []
