-- ===== src/Worker/Config.antt =====
-- worker/watcher.py, `_validate` and `_load_and_apply`, and worker/worker.py, what `configure` reads
-- from its payload. Every value is read, and so every exception raised, before a load is started.
pub mod Optional
pub mod Written
mod Tests
use cloud_native_emulator.Prelude.{
  ℕ, String, Bool, true, false, not, ◌&&◌, ◌||◌, Option, none, some, List, [], ◌∷◌, if◌then◌else◌,
  leb, ◌==◌, all, codes, text_dec, ite,
}
use cloud_native_emulator.Prelude.Dict.{Dict}
use cloud_native_emulator.Prelude.Float.{Float}
use cloud_native_emulator.Prelude.Int.{ℤ, pos, negsuc}
use cloud_native_emulator.Prelude.Result.{
  Result, ok, err, value_error, key_error, type_error, overflow_error, not_a_float, ◌>>=◌, ◌>>◌,
  guard, field_shape,
}
use cloud_native_emulator.Json
use cloud_native_emulator.Json.{Json, Items, Fields, null, entries, no_fields, no_items}
use cloud_native_emulator.Merge.{get}
use cloud_native_emulator.Cluster.Roles.{starts_with}
use cloud_native_emulator.Template.{Axis}
use cloud_native_emulator.Validation.{float_of, truthy}

-- old in s
unfoldable pub in_text : List ℕ → List ℕ → Bool
unfolding starts_with
in_text old [] = starts_with [] old
in_text old (c ∷ s) = if starts_with (c ∷ s) old then true else in_text old s

-- A character that bytes.strip() takes away.
abbrev pub is_blank : ℕ → Bool
is_blank c = (c == 32) || (leb 9 c && leb c 13)

abbrev pub or_none : Option (List String) → List String
or_none none = []
or_none (some ss) = ss

module _ {F : Type 0} where
  abbrev pub is_some : Option (Json F) → Bool
  is_some none = false
  is_some (some j) = true

  abbrev pub is_text : String → Json F → Bool
  is_text k (Json.text s) = ite (text_dec s k) true false
  is_text k j = false

  abbrev pub any_item : String → Items F → Bool
  any_item k Json.no_items = false
  any_item k (Json.item j js) = if is_text k j then true else any_item k js

  -- k in j
  unfoldable pub is_in : String → Json F → Result Bool
  unfolding get in_text codes
  is_in k (Json.object d) = ok (is_some (get k d))
  is_in k (Json.array xs) = ok (any_item k xs)
  is_in k (Json.text s) = ok (in_text (codes k) (codes s))
  is_in k j = err type_error

  -- payload[sub], of which a and b are wanted
  abbrev pub check_given : String → Option (Json F) → Result (Unit {0})
  check_given sub none = err (key_error sub)
  check_given sub (some j) = do
    a ← is_in "a" j
    guard a (key_error sub)
    b ← is_in "b" j
    guard b (key_error sub)

  abbrev pub check_list : Option (Json F) → Result (Unit {0})
  check_list none = ok tt
  check_list (some Json.null) = ok tt
  check_list (some (Json.array xs)) = ok tt
  check_list (some j) = err (value_error field_shape)

  abbrev pub check_dict : Option (Json F) → Result (Unit {0})
  check_dict none = ok tt
  check_dict (some Json.null) = ok tt
  check_dict (some (Json.object d)) = ok tt
  check_dict (some j) = err (value_error field_shape)

  -- `_validate`. (What it raises is caught, whichever exception it is.)
  unfoldable pub validate_config : Json F → Result (Unit {0})
  unfolding is_in get
  validate_config (Json.object d) = do
    guard (is_some (get "x" d)) (key_error "x")
    guard (is_some (get "cpu" d)) (key_error "cpu")
    guard (is_some (get "ram" d)) (key_error "ram")
    guard (is_some (get "net" d)) (key_error "net")
    check_given "cpu" (get "cpu" d)
    check_given "ram" (get "ram" d)
    check_given "net" (get "net" d)
    check_list (get "peers" d)
    check_dict (get "peer_names" d)
  validate_config j = err type_error

  abbrev pub accepted : Result (Unit {0}) → Json F → Option (Json F)
  accepted (ok u) j = some j
  accepted (err why) j = none

  abbrev pub valid_payload : Option (Json F) → Option (Json F)
  valid_payload none = none
  valid_payload (some j) = accepted (validate_config j) j

  -- `_load_and_apply`: the payload that the callback gets, from the bytes of the file (`none`
  -- where there is none) and json.loads.
  unfoldable pub load_config : (List ℕ → Option (Json F)) → Option (List ℕ) → Option (Json F)
  unfolding validate_config
  load_config loads none = none
  load_config loads (some raw) = if all is_blank raw then none else valid_payload (loads raw)

  -- The list of a payload's peers, if all of them are texts.
  unfoldable pub all_texts : Items F → Option (List String)
  all_texts Json.no_items = some []
  all_texts (Json.item (Json.text s) js) = elim (all_texts js) [
    | none ↦ none
    | some ss ↦ some (s ∷ ss)
  ]
  all_texts (Json.item j js) = none

  abbrev pub peers_of : Option (Json F) → List String
  unfolding all_texts
  peers_of (some (Json.array xs)) = or_none (all_texts xs)
  peers_of j = []

  abbrev pub peer_names_of : Option (Json F) → Fields F
  peer_names_of (some (Json.object d)) = d
  peer_names_of j = no_fields

-- What `configure` has read when it starts the loads.
pub record Setup (F : Type 0) : Type 0 where
  pub x : F
  pub cpu_millicores : F
  pub ram_mb : F
  pub net_mbps : F
  pub peers : List String
  pub peer_names : Fields F
  pub servers : ℤ
  pub offset : ℤ

module _ (fl : Float) where
  open fl use {F, of_int, add, mul, less, equal, trunc}

  -- `linear`
  unfoldable pub linear : Axis F → F → F
  linear f x = let y = add (mul f.a x) f.b in if less (of_int (pos 0)) y then y else of_int (pos 0)

  -- payload.get("server_count") or 0, as `start_network` takes it: a text, a list, an object or
  -- a positive float is no argument of range(), and a negative float is compared like a negative
  -- integer.
  abbrev pub server_number : Option (Json F) → Result ℤ
  server_number none = ok (pos 0)
  server_number (some Json.null) = ok (pos 0)
  server_number (some (Json.boolean b)) = ok (pos (if b then 1 else 0))
  server_number (some (Json.integer n)) = ok n
  server_number (some (Json.real v)) =
      if equal v (of_int (pos 0))
      then ok (pos 0)
      else (if less (of_int (pos 0)) v then err type_error else ok (negsuc 0))
  server_number (some j) = if truthy fl j then err type_error else ok (pos 0)

  abbrev pub truncated : Option ℤ → Result ℤ
  truncated none = err overflow_error
  truncated (some n) = ok n

  abbrev pub int_parsed : Option ℤ → Result ℤ
  int_parsed none = err (value_error not_a_float)
  int_parsed (some n) = ok n

  -- int(d.get(pod, 0)); `int_text` is int() of a text.
  abbrev pub int_of : (List ℕ → Option ℤ) → Option (Json F) → Result ℤ
  unfolding codes
  int_of int_text none = ok (pos 0)
  int_of int_text (some (Json.boolean b)) = ok (pos (if b then 1 else 0))
  int_of int_text (some (Json.integer n)) = ok n
  int_of int_text (some (Json.real v)) = truncated (trunc v)
  int_of int_text (some (Json.text s)) = int_parsed (int_text (codes s))
  int_of int_text (some j) = err type_error

  abbrev pub offset_in : (List ℕ → Option ℤ) → String → Json F → Result ℤ
  offset_in int_text pod (Json.object d) = int_of int_text (get pod d)
  offset_in int_text pod j = err type_error

  -- int((payload.get("port_offset_by_pod") or {}).get(POD_NAME, 0))
  abbrev pub offset_of : (List ℕ → Option ℤ) → String → Option (Json F) → Result ℤ
  offset_of int_text pod none = ok (pos 0)
  offset_of int_text pod (some j) = if truthy fl j then offset_in int_text pod j else ok (pos 0)

  -- float(d[k])
  abbrev pub needed : String → Option (Json F) → Result F
  needed k none = err (key_error k)
  needed k (some j) = float_of fl j

  abbrev pub given_axis : String → Option (Json F) → Result (Axis F)
  given_axis k none = err (key_error k)
  given_axis k (some (Json.object sub)) = do
    a ← needed "a" (get "a" sub)
    b ← needed "b" (get "b" sub)
    ok (record { a = a; b = b })
  given_axis k (some j) = err type_error

  abbrev pub is_zero_ℤ : ℤ → Bool
  is_zero_ℤ (pos n) = n == 0
  is_zero_ℤ (negsuc n) = false

  -- The test for a stop.
  unfoldable pub is_idle : F → F → F → ℤ → Bool
  is_idle cpu ram net servers =
      equal cpu (of_int (pos 0))
      && (equal ram (of_int (pos 0)) && (equal net (of_int (pos 0)) && is_zero_ℤ servers))

  -- What `configure` reads, for the pod of this name; `none` for a payload that asks for nothing.
  unfoldable pub read_setup : (List ℕ → Option ℤ) → String → Json F → Result (Option (Setup F))
  unfolding get float_of linear is_idle
  read_setup int_text pod (Json.object d) = do
    x ← needed "x" (get "x" d)
    cpu ← given_axis "cpu" (get "cpu" d)
    ram ← given_axis "ram" (get "ram" d)
    net ← given_axis "net" (get "net" d)
    servers ← server_number (get "server_count" d)
    if is_idle (linear cpu x) (linear ram x) (linear net x) servers
        then ok none
        else (offset_of int_text pod (get "port_offset_by_pod" d) >>= λ offset. ok (
            some (record {
              x = x;
              cpu_millicores = linear cpu x;
              ram_mb = linear ram x;
              net_mbps = linear net x;
              peers = peers_of (get "peers" d);
              peer_names = peer_names_of (get "peer_names" d);
              servers = servers;
              offset = offset;
            })))
  read_setup int_text pod j = err type_error
