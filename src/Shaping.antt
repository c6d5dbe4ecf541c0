-- ===== src/Shaping.antt =====
-- controller/netem.py: the tc commands that give the links between tiers their delay and rate.
-- A script is the list of its commands; running it on a node is not modelled.
pub mod Rates
pub mod Lines
pub mod Script
pub mod Symmetric
mod Tests
use cloud_native_emulator.Prelude.{
  ℕ, ◌+◌, ◌*◌, ◌/◌, ◌%◌, String, Bool, true, false, Option, none, some, List, [], ◌∷◌, ◌++◌,
  if◌then◌else◌, ltb, ◌==◌, null, text_dec, ite,
}
use cloud_native_emulator.Prelude.Dict.{Dict, lookup, insert}
use cloud_native_emulator.Prelude.Float.{Float}
use cloud_native_emulator.Prelude.Int.{ℤ, pos, pos_part}
use cloud_native_emulator.Prelude.Result.{Result, ok, err, ◌>>=◌}
use cloud_native_emulator.Json.{Json}
use cloud_native_emulator.Links.{Pairs, parse_rate, has_pair}
use cloud_native_emulator.Links.Pairs.{find}

-- A node as the cluster lists it: its name, its tier label, and its addresses with their types.
pub record Node : Type 0 where
  pub name : String
  pub tier : Option String
  pub addresses : List (String × String)

-- The first address of type InternalIP.
unfoldable pub internal_ip : List (String × String) → Option String
internal_ip [] = none
internal_ip ((type, address) ∷ rest) =
    ite (text_dec type "InternalIP") (some address) (internal_ip rest)

-- `out.setdefault(tier, []).append(entry)`
unfoldable pub add_member :
    String → String × String → Dict (List (String × String)) → Dict (List (String × String))
add_member tier entry out = elim (lookup tier out) [
  | none ↦ insert tier (entry ∷ []) out
  | some members ↦ insert tier (members ++ (entry ∷ [])) out
]

-- The body of the loop over the nodes. An empty label or address counts as none.
unfoldable pub add_node : Dict (List (String × String)) → Node → Dict (List (String × String))
unfolding internal_ip add_member
add_node out n = elim n.tier [
  | none ↦ out
  | some tier ↦ elim (internal_ip n.addresses) [
    | none ↦ out
    | some ip ↦
        ite (text_dec tier "") out (ite (text_dec ip "") out (add_member tier (n.name, ip) out))
  ]
]

-- `_nodes_by_tier`, of the nodes that the cluster lists (none where the request fails)
unfoldable pub nodes_by_tier :
    Dict (List (String × String)) → List Node → Dict (List (String × String))
unfolding add_node
nodes_by_tier out [] = out
nodes_by_tier out (n ∷ ns) = nodes_by_tier (add_node out n) ns

-- A rate as tc reads it.
pub data Rate : Type 0 where
  gbit mbit bit : ℕ → Rate

abbrev pub billion : ℕ
billion = 1000000000

abbrev pub million : ℕ
million = 1000000

-- The end of `_tc_rate`, on bits per second.
unfoldable pub rate_of_bits : ℕ → Rate
rate_of_bits bits =
    if bits % billion == 0
    then gbit (bits / billion)
    else (if bits % million == 0 then mbit (bits / million) else bit bits)

-- UNSHAPED_RATE
abbrev pub unshaped : Rate
unshaped = gbit 10

-- One line of a script.
pub data Command : Type 0 where
  -- set IFACE to the interface that holds the address, and stop if there is none
  find_interface : String → Command
  need_interface : Command
  -- remove the root qdisc; add an htb root with this default class
  clear_root : Command
  add_root : ℕ → Command
  add_class : ℕ → Rate → Command
  -- a netem child of a class, by the digits of its handle and by its delay in microseconds
  add_delay : ℕ → ℕ → ℕ → Command
  -- traffic to an address goes to a class
  add_filter : String → ℕ → Command

-- What a link asks for: the peer's address, the delay, and the rate as the template spells it.
pub record Peer (F : Type 0) : Type 0 where
  pub ip : String
  pub delay_us : Option ℕ
  pub rate : Option (Json F)

-- `_clear_script`
abbrev pub clear_script : String → List Command
clear_script ip = find_interface ip ∷ clear_root ∷ []

-- The step between the delays that six digits of milliseconds can show, of a delay in microseconds
-- of less than 100 seconds. (validate_latency accepts at most ten.)
unfoldable pub digit_step : ℕ → ℕ
digit_step us = if ltb us million then 1 else (if ltb us (10 * million) then 10 else 100)

abbrev pub default_class : ℕ
default_class = 9999

module _ (fl : Float) where
  open fl use {F}

  -- The microseconds of the text {delay_us / 1000.0:g}ms: the nearest that six digits can show.
  unfoldable pub shown_us : ℕ → ℕ
  unfolding digit_step
  shown_us us =
      let step = digit_step us in
      let low = (us / step) * step in
      let over = us % step in
      if ltb (2 * over) step
      then low
      else (if 2 * over == step then (if fl.ties_up us then low + step else low) else low + step)

  -- `if delay_us:`. The handle is the digits of the class with a 0 after them.
  unfoldable pub delay_commands : ℕ → Option ℕ → List Command
  unfolding shown_us
  delay_commands cid none = []
  delay_commands cid (some us) = if us == 0 then [] else add_delay cid (cid * 10) (shown_us us) ∷ []

  -- `_tc_rate`. A rate is positive, so its bytes are no negative number.
  unfoldable pub tc_rate : Json F → Result Rate
  unfolding rate_of_bits
  tc_rate rate = do bytes ← parse_rate fl rate; ok (rate_of_bits (pos_part bytes * 8))

  -- `_tc_rate(rate_str) if rate_str else UNSHAPED_RATE`
  unfoldable pub class_rate : Option (Json F) → Result Rate
  unfolding tc_rate
  class_rate none = ok unshaped
  class_rate (some rate) = tc_rate rate

  -- The loop of `_shape_script`; `cid` is 10 + i.
  unfoldable pub shape_peers : ℕ → List (Peer F) → Result (List Command)
  unfolding class_rate delay_commands
  shape_peers cid [] = ok []
  shape_peers cid (p ∷ ps) = do
    rate ← class_rate p.rate
    rest ← shape_peers (cid + 1) ps
    ok (add_class cid rate ∷ delay_commands cid p.delay_us ++ (add_filter p.ip cid ∷ rest))

  -- `_shape_script`
  unfoldable pub shape_script : String → List (Peer F) → Result (List Command)
  unfolding shape_peers
  shape_script ip peers = do
    lines ← shape_peers 10 peers
    ok (
        find_interface ip
        ∷ need_interface
        ∷ clear_root
        ∷ add_root default_class
        ∷ add_class default_class unshaped
        ∷ lines)

  -- The tier at the other end of a link, seen from `tier`.
  unfoldable pub other_end : String → String × String → Option String
  other_end tier (a, b) = ite (text_dec tier a) (some b) (ite (text_dec tier b) (some a) none)

  -- `nodes.get(other, [])`
  abbrev pub members_of : Dict (List (String × String)) → String → List (String × String)
  members_of nodes tier = elim (lookup tier nodes) [ none ↦ [] | some ms ↦ ms ]

  abbrev pub specs_for : Option ℕ → Option (Json F) → List (String × String) → List (Peer F)
  specs_for delay rate [] = []
  specs_for delay rate ((name, ip) ∷ ms) =
      record { ip = ip; delay_us = delay; rate = rate } ∷ specs_for delay rate ms

  -- The body of the loop `for (a, b) in pairs`, for a tier with this other end.
  abbrev pub specs_at :
      Pairs ℕ
      → Pairs (Json F)
      → Dict (List (String × String))
      → String × String
      → Option String
      → List (Peer F)
  specs_at latency bandwidth nodes pair none = []
  specs_at latency bandwidth nodes pair (some other) =
      specs_for (find pair latency) (find pair bandwidth) (members_of nodes other)

  -- The loop `for (a, b) in pairs`, for one tier.
  unfoldable pub peer_specs :
      Pairs ℕ
      → Pairs (Json F)
      → Dict (List (String × String))
      → String
      → List (String × String)
      → List (Peer F)
  peer_specs latency bandwidth nodes tier [] = []
  peer_specs latency bandwidth nodes tier (pair ∷ pairs) =
      specs_at latency bandwidth nodes pair (other_end tier pair)
      ++ peer_specs latency bandwidth nodes tier pairs

  -- The script for one node.
  unfoldable pub node_script : String → List (Peer F) → Result (List Command)
  unfolding shape_script
  node_script ip peers = if null peers then ok (clear_script ip) else shape_script ip peers

  -- `for (node_name, internal_ip) in members`
  unfoldable pub member_scripts :
      List (Peer F) → List (String × String) → Result (Dict (List Command))
  unfolding node_script
  member_scripts peers [] = ok []
  member_scripts peers ((name, ip) ∷ ms) = do
    script ← node_script ip peers
    rest ← member_scripts peers ms
    ok ((name, script) ∷ rest)

  -- The loop over the tiers: the scripts of all nodes. `pairs` are the pairs of the two dicts.
  unfoldable pub tier_scripts :
      Pairs ℕ
      → Pairs (Json F)
      → List (String × String)
      → Dict (List (String × String))
      → Dict (List (String × String))
      → Result (Dict (List Command))
  unfolding member_scripts peer_specs
  tier_scripts latency bandwidth pairs nodes [] = ok []
  tier_scripts latency bandwidth pairs nodes ((tier, members) ∷ tiers) = do
    scripts ← member_scripts (peer_specs latency bandwidth nodes tier pairs) members
    rest ← tier_scripts latency bandwidth pairs nodes tiers
    ok (scripts ++ rest)

  abbrev pub link_keys : {V : Type 0} → Pairs V → List (String × String)
  link_keys [] = []
  link_keys ((k, v) ∷ ps) = k ∷ link_keys ps

  abbrev pub keys_beyond : {V : Type 0} → Pairs ℕ → Pairs V → List (String × String)
  keys_beyond latency [] = []
  keys_beyond latency ((k, v) ∷ ps) =
      if has_pair k latency then keys_beyond latency ps else k ∷ keys_beyond latency ps

  -- `_apply`, of the two checked fields and the nodes. A set of pairs is iterated in the order
  -- that `order` gives it.
  unfoldable pub apply_links :
      (List (String × String) → List (String × String))
      → Pairs ℕ
      → Pairs (Json F)
      → Dict (List (String × String))
      → Result (Dict (List Command))
  unfolding tier_scripts has_pair
  apply_links order latency bandwidth nodes =
      tier_scripts latency bandwidth (order (link_keys latency ++ keys_beyond latency bandwidth))
        nodes nodes
