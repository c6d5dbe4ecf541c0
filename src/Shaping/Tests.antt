-- ===== src/Shaping/Tests.antt =====
-- A cluster of three tiers, and the shaping theorems there.
use cloud_native_emulator.Prelude.{
  ◌*◌, ℕ, ◌≡◌, refl, inl, String, Bool, true, false, none, some, List, [], ◌∷◌, ◌++◌, arith, All,
  text_dec, text_le, codes, ite, ap, sym, ◌∙◌, ◌≢◌,
}
use cloud_native_emulator.Prelude.Dict.{Dict, lookup, insert}
use cloud_native_emulator.Prelude.Int.{ℤ, ◌*ℤ◌}
use cloud_native_emulator.Prelude.Result.{ok}
use cloud_native_emulator.Prelude.Sets.{contains}
use cloud_native_emulator.Samples.{whole}
use cloud_native_emulator.Json.{Json, text}
use cloud_native_emulator.Links.{
  Pairs, has_pair, same_pair, parse_rate, match_quantity, scaled, number_part, unit_of, is_unit,
  take_digits, skip_spaces, fraction,
}
use cloud_native_emulator.Shaping.{
  Node, mbit, Command, find_interface, need_interface, clear_root, add_root, add_class, add_delay,
  add_filter, Peer, internal_ip, add_member, add_node, nodes_by_tier, rate_of_bits, delay_commands,
  shown_us, digit_step, tc_rate, class_rate, shape_peers, shape_script, other_end, peer_specs,
  node_script, member_scripts, tier_scripts, apply_links, unshaped, default_class,
}
use cloud_native_emulator.Shaping.Rates.{bits_of, rate_of_bits-exact}
use cloud_native_emulator.Shaping.Script.{IsLinked, shape_script-IsLinked}
use cloud_native_emulator.Shaping.Symmetric.{Reaches, peer_specs-symmetric}

abbrev node : String → String → String → Node
node name tier ip = record {
  name = name;
  tier = some tier;
  addresses = ("Hostname", name) ∷ ("InternalIP", ip) ∷ [];
}

abbrev cluster : List Node
cluster =
    record { name = "control"; tier = none; addresses = [] }
    ∷ node "e1" "edge" "10.0.0.1"
    ∷ node "f1" "fog" "10.0.0.2"
    ∷ node "e2" "edge" "10.0.0.3"
    ∷ []

abbrev members : Dict (List (String × String))
members =
    ("edge", ("e1", "10.0.0.1") ∷ ("e2", "10.0.0.3") ∷ []) ∷ ("fog", ("f1", "10.0.0.2") ∷ []) ∷ []

abbrev latency : Pairs ℕ
latency = (("edge", "fog"), 30000) ∷ []

abbrev bandwidth : Pairs (Json ℤ)
bandwidth = (("edge", "fog"), text "100mbps") ∷ []

program : Unit {0}
unfolding nodes_by_tier add_node add_member internal_ip lookup insert text_dec text_le codes
    rate_of_bits delay_commands shown_us digit_step tc_rate class_rate shape_peers shape_script
    other_end peer_specs node_script member_scripts tier_scripts apply_links has_pair same_pair
    parse_rate match_quantity scaled number_part unit_of is_unit take_digits skip_spaces fraction
    ◌*ℤ◌ contains
program = tt

nodes_by_tier-cluster : nodes_by_tier [] cluster ≡ members
unfolding program
nodes_by_tier-cluster = refl

abbrev in_order : List (String × String) → List (String × String)
in_order ps = ps

-- What both edge nodes run towards the fog node, and what it runs towards them.
abbrev towards : String → ℕ → List Command
towards ip cid = add_class cid (mbit 100) ∷ add_delay cid (cid * 10) 30000 ∷ add_filter ip cid ∷ []

abbrev script : String → List Command → List Command
script ip lines =
    find_interface ip
    ∷ need_interface
    ∷ clear_root
    ∷ add_root default_class
    ∷ add_class default_class unshaped
    ∷ lines

apply_links-cluster :
    apply_links whole in_order latency bandwidth members
    ≡ ok (
        ("e1", script "10.0.0.1" (towards "10.0.0.2" 10))
        ∷ ("e2", script "10.0.0.3" (towards "10.0.0.2" 10))
        ∷ ("f1", script "10.0.0.2" (towards "10.0.0.1" 10 ++ towards "10.0.0.3" 11))
        ∷ [])
unfolding program
apply_links-cluster = refl

-- Six digits of milliseconds.
shown_us-rounds : shown_us whole 1234567 ≡ 1234570
unfolding program
shown_us-rounds = refl

abbrev peers : List (Peer ℤ)
peers =
    record { ip = "10.0.0.1"; delay_us = some 30000; rate = some (text "100mbps") }
    ∷ record { ip = "10.0.0.3"; delay_us = none; rate = none }
    ∷ []

shape_script-IsLinked_example :
    (lines : List Command) × (shape_script whole "10.0.0.2" peers ≡ ok lines)
    × All (IsLinked whole lines) peers
unfolding program
shape_script-IsLinked_example =
    shape_script-IsLinked whole "10.0.0.2" peers (refl, (refl, tt)) (omega arith)
      ((mbit 100, refl), ((unshaped, refl), tt))

abbrev is_fog : String → Bool
is_fog tier = ite (text_dec tier "fog") true false

edge_differs : (edge fog : String) → edge ≡ "edge" → fog ≡ "fog" → edge ≢ fog
unfolding program
edge_differs edge fog at_edge at_fog same =
    let clash : false ≡ true = ap is_fog (sym at_edge ∙ same ∙ at_fog) in cc

peer_specs-symmetric_example :
    Reaches whole latency bandwidth members
      ("edge", "fog")
      (peer_specs whole latency bandwidth members "edge" (("edge", "fog") ∷ []))
      "fog"
    × Reaches whole latency bandwidth members
        ("edge", "fog")
        (peer_specs whole latency bandwidth members "fog" (("edge", "fog") ∷ []))
        "edge"
peer_specs-symmetric_example =
    peer_specs-symmetric whole latency bandwidth members (("edge", "fog") ∷ []) "edge" "fog"
      (inl refl) (edge_differs "edge" "fog" refl refl)

rate_of_bits-exact_example : bits_of (rate_of_bits 1500000000) ≡ 1500000000
rate_of_bits-exact_example = rate_of_bits-exact 1500000000
