-- ===== src/Worker/Config/Written.antt =====
-- A role's config.json, as the controller writes it and the worker reads it.
use cloud_native_emulator.Prelude.{
  ℕ, ◌≡◌, refl, String, Bool, true, false, Option, none, some, List, if◌then◌else◌, text_dec,
}
use cloud_native_emulator.Prelude.Dict.{lookup}
use cloud_native_emulator.Prelude.Float.{Float}
use cloud_native_emulator.Prelude.Int.{ℤ, pos}
use cloud_native_emulator.Prelude.Result.{ok, >>=-eq-ok}
use cloud_native_emulator.Json.{Json, Fields, object, array, real, field}
use cloud_native_emulator.Merge.{get}
use cloud_native_emulator.Template.{Axis}
use cloud_native_emulator.Validation.{float_of, given_float, read_axis}
use cloud_native_emulator.Cluster.{item_at}
use cloud_native_emulator.Cluster.Roles.{
  PeerConfig, role_config, texts, text_entries, optional_fields,
}
use cloud_native_emulator.Worker.Config.{
  validate_config, is_in, is_some, check_given, Setup, read_setup, linear, is_idle, given_axis,
  needed,
}
use cloud_native_emulator.Worker.Config.Optional.{
  offset_or_zero, peers-at, servers-at, offset-at, names-at, check-names-at,
}

if-ok : {A : Type 0} (b : Bool) (u v : A) → (if b then ok u else ok v) ≡ ok (if b then u else v)
if-ok false u v = refl
if-ok true u v = refl

module _ (fl : Float) where
  open fl use {F}

  needed-given :
      (k : String) (j : Option (Json F)) (v : F) → given_float fl j ≡ ok v → needed fl k j ≡ ok v
  needed-given k none v h = cc
  needed-given k (some j) v h = h

  given_axis-read :
      (k : String) (j : Option (Json F)) (f : Axis F)
      → read_axis fl j ≡ ok f
      → given_axis fl k j ≡ ok f
  unfolding get float_of
  given_axis-read k (some (Json.object sub)) f h =
      let (a, got, after) = >>=-eq-ok (given_float fl (get "a" sub)) _ h in
      let (b, found, last) = >>=-eq-ok (given_float fl (get "b" sub)) _ after in
      let left = needed-given "a" (get "a" sub) a got in
      let right = needed-given "b" (get "b" sub) b found in rw (left, right) last
  given_axis-read k none f h = cc
  given_axis-read k (some j) f h = cc

  given_axis-at :
      (k : String) (j : Option (Json F)) (v : Json F) (f : Axis F)
      → j ≡ some v
      → read_axis fl j ≡ ok f
      → given_axis fl k (some v) ≡ ok f
  given_axis-at k j v f at h = given_axis-read k (some v) f (rw at at h)

  given-is_some : (j : Option (Json F)) (v : F) → given_float fl j ≡ ok v → is_some j ≡ true
  given-is_some none v h = cc
  given-is_some (some j) v h = refl

  read_axis-some :
      (k : String) (j : Option (Json F)) (f : Axis F)
      → read_axis fl j ≡ ok f
      → (v : Json F) × (j ≡ some v) × (check_given k (some v) ≡ ok tt)
  unfolding is_in get
  read_axis-some k (some (Json.object sub)) f h =
      let (a, got, after) = >>=-eq-ok (given_float fl (get "a" sub)) _ h in
      let (b, found, last) = >>=-eq-ok (given_float fl (get "b" sub)) _ after in
      let left = given-is_some (get "a" sub) a got in
      let right = given-is_some (get "b" sub) b found in (object sub, refl, rw (left, right) refl)
  read_axis-some k none f h = cc
  read_axis-some k (some j) f h = cc

  -- The role's config.json, of its three axes.
  abbrev config_of : Json F → Json F → Json F → PeerConfig → F → Fields F
  config_of c r n p x = field "x" (real x) (
      field "cpu" c (
        field "ram" r
          (field "net" n (field "peers" (array (texts fl p.ips)) (optional_fields fl p)))))

  role_config-some :
      (d : Fields F) (p : PeerConfig) (x : F) (c r n : Json F)
      → get "cpu" d ≡ some c
      → get "ram" d ≡ some r
      → get "net" d ≡ some n
      → role_config fl (object d) p x ≡ ok (config_of c r n p x)
  unfolding role_config item_at
  role_config-some d p x c r n hc hr hn = rw (hc, hr, hn) refl

  config_of-valid :
      (c r n : Json F) (p : PeerConfig) (x : F)
      → check_given "cpu" (some c) ≡ ok tt
      → check_given "ram" (some r) ≡ ok tt
      → check_given "net" (some n) ≡ ok tt
      → validate_config (object (config_of c r n p x)) ≡ ok tt
  unfolding validate_config get text_dec
  config_of-valid c r n p x hc hr hn = rw (hc, hr, hn) (check-names-at fl p)

  -- What the worker then has for the pod, with the offset 0 for a pod that has none.
  abbrev pub setup_of : String → Axis F → Axis F → Axis F → PeerConfig → F → Option (Setup F)
  setup_of pod cpu ram net p x =
      if is_idle fl (linear fl cpu x) (linear fl ram x) (linear fl net x) (pos p.servers)
      then none
      else some (record {
        x = x;
        cpu_millicores = linear fl cpu x;
        ram_mb = linear fl ram x;
        net_mbps = linear fl net x;
        peers = p.ips;
        peer_names = text_entries fl p.names;
        servers = pos p.servers;
        offset = pos (offset_or_zero (lookup pod p.offsets));
      })

  config_of-read :
      (int_text : List ℕ → Option ℤ) (pod : String) (c r n : Json F) (cpu ram net : Axis F)
      (p : PeerConfig) (x : F)
      → given_axis fl "cpu" (some c) ≡ ok cpu
      → given_axis fl "ram" (some r) ≡ ok ram
      → given_axis fl "net" (some n) ≡ ok net
      → read_setup fl int_text pod (object (config_of c r n p x))
        ≡ ok (setup_of pod cpu ram net p x)
  unfolding read_setup get text_dec float_of
  config_of-read int_text pod c r n cpu ram net p x hc hr hn =
      rw (hc, hr, hn, servers-at fl p, offset-at fl int_text pod p, peers-at fl p, names-at fl p)
        (if-ok (is_idle fl (linear fl cpu x) (linear fl ram x) (linear fl net x) (pos p.servers))
          none _)

  -- The config.json that `_role_config` writes for a role whose three axes hold two numbers each
  -- passes the worker's `_validate`, and `configure` reads from it the same x, the clamped linear
  -- loads at x, the same peers, names and server count, and the pod's offset, or 0 if it has none;
  -- it reads nothing to do where the loads and the server count are zero.
  pub role_config-read :
      (int_text : List ℕ → Option ℤ) (pod : String) (d : Fields F) (cpu ram net : Axis F)
      (p : PeerConfig) (x : F)
      → read_axis fl (get "cpu" d) ≡ ok cpu
      → read_axis fl (get "ram" d) ≡ ok ram
      → read_axis fl (get "net" d) ≡ ok net
      → (config : Fields F) × (role_config fl (object d) p x ≡ ok config)
        × (validate_config (object config) ≡ ok tt)
        × (read_setup fl int_text pod (object config) ≡ ok (setup_of pod cpu ram net p x))
  role_config-read int_text pod d cpu ram net p x hc hr hn =
      let (c, at_c, given_c) = read_axis-some "cpu" (get "cpu" d) cpu hc in
      let (r, at_r, given_r) = read_axis-some "ram" (get "ram" d) ram hr in
      let (n, at_n, given_n) = read_axis-some "net" (get "net" d) net hn in
      (
        config_of c r n p x,
        role_config-some d p x c r n at_c at_r at_n,
        config_of-valid c r n p x given_c given_r given_n,
        config_of-read int_text pod c r n cpu ram net p x
            (given_axis-at "cpu" (get "cpu" d) c cpu at_c hc)
            (given_axis-at "ram" (get "ram" d) r ram at_r hr)
            (given_axis-at "net" (get "net" d) n net at_n hn),
      )
