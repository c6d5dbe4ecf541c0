-- ===== src/Cluster/Stepped.antt =====
-- What `patch_system_x` changes in the cluster, as a relation between histories.
use cloud_native_emulator.Prelude.{
  ◌≡◌, ◌≢◌, ◌⊎◌, String, Bool, true, false, Option, none, some, List, [], ◌∷◌, ◌==◌,
}
use cloud_native_emulator.Prelude.Dict.{Dict, keys, lookup}
use cloud_native_emulator.Prelude.Float.{Float}
use cloud_native_emulator.Prelude.Result.{Result, Error, ok, err}
use cloud_native_emulator.Json.{Json, Fields, object, real, entries}
use cloud_native_emulator.Merge.{set}
use cloud_native_emulator.Validation.{Checked}
use cloud_native_emulator.Cluster.{
  config_map, named, Request, get_at, patch_at, History, then_call, for_each,
}
use cloud_native_emulator.Cluster.Managed.{Info, has_template}
use cloud_native_emulator.Cluster.Materialise.{Setting, config_name, config_patch}
use cloud_native_emulator.Cluster.SystemX.{config_in, patch_role_x, resolve_again}

module _ (fl : Float) (on : Setting fl) (name : String) where
  open fl use {F}

  module _ (resolved : Dict F) where
    abbrev pub get_config : String → Request F
    get_config role = get_at (named config_map (config_name name role))

    -- The patch of a role's ConfigMap: its config.json alone, the config with x set.
    abbrev pub set_config : String → F → Fields F → Request F
    set_config role x config =
        patch_at (named config_map (config_name name role))
          (config_patch fl on (on.dumps (object (set "x" (real x) config))))

    -- Whether the server gives the ConfigMap of the role, asked after these requests, and the
    -- config that it then gives.
    abbrev pub is_served : String → History F → Bool
    is_served role h = (on.server h (get_config role)).status == 200

    abbrev pub given_config : String → History F → Result (Option (Json F))
    given_config role h = config_in on.loads (on.server h (get_config role)).body

    -- From a config that was given there is no patch to make: it is no object, or the role has no
    -- x, or reading it raises.
    abbrev pub Unusable : String → History F → Type 0
    Unusable role h =
        (given_config role h ≢ ok none)
        × ((config : Fields F) (x : F)
            → given_config role h ≡ ok (some (object config))
            → lookup role resolved ≡ some x
            → ⊥)

    -- The rounds of the loop, one for each role in turn, from a history to the one that they leave.
    -- Each asks for the role's config. It makes no patch if the config is not given or is no JSON,
    -- raises if it cannot be used, and otherwise patches the config that was just given.
    pub data Steps : List String → History F → Result (Unit {0}) → History F → Type 0 where
      ended : {h : History F} → Steps [] h (ok tt) h
      missing :
          {role : String} {roles : List String} {h k : History F} {r : Result (Unit {0})}
          → is_served role h ≡ false
          → Steps roles (get_config role ∷ h) r k
          → Steps (role ∷ roles) h r k
      unparsed :
          {role : String} {roles : List String} {h k : History F} {r : Result (Unit {0})}
          → is_served role h ≡ true
          → given_config role h ≡ ok none
          → Steps roles (get_config role ∷ h) r k
          → Steps (role ∷ roles) h r k
      raised :
          {role : String} {roles : List String} {h : History F} {why : Error}
          → is_served role h ≡ true
          → Unusable role h
          → Steps (role ∷ roles) h (err why) (get_config role ∷ h)
      moved :
          {role : String} {roles : List String} {h k : History F} {r : Result (Unit {0})} {x : F}
          {config : Fields F}
          → is_served role h ≡ true
          → given_config role h ≡ ok (some (object config))
          → lookup role resolved ≡ some x
          → Steps roles (set_config role x config ∷ get_config role ∷ h) r k
          → Steps (role ∷ roles) h r k

    abbrev after_round : List String → Result (Unit {0}) × History F → Result (Unit {0}) × History F
    after_round roles = then_call (λ u. for_each (patch_role_x fl on name resolved) roles)

    abbrev StepsTo : List String → History F → Result (Unit {0}) × History F → Type 0
    StepsTo roles h (r, k) = Steps roles h r k

  -- The rounds were made, for a new x: for the roles of the template that get_managed found, each
  -- at its x in the resolution of that template at the new x.
  abbrev pub IsStepped :
      Json F → Result (Option (Info F)) × History F → Result (Unit {0}) × History F → Type 0
  IsStepped new_x (found, asked) (r, k) =
      (info : Option (Info F)) × (template : Json F) × (c : Checked F) × (resolved : Dict F)
      × (found ≡ ok info)
      × (has_template fl on info ≡ some template)
      × (resolve_again fl on new_x template ≡ ok (c, resolved))
      × Steps resolved (keys (entries c.roles)) asked r k

  -- Nothing was asked after get_managed, and the call raised.
  abbrev pub IsRefused :
      Result (Option (Info F)) × History F → Result (Unit {0}) × History F → Type 0
  IsRefused (found, asked) (r, k) = ((why : Error) × (r ≡ err why)) × (k ≡ asked)

  abbrev pub Outcome :
      Json F → Result (Option (Info F)) × History F → Result (Unit {0}) × History F → Type 0
  Outcome new_x before after = IsRefused before after ⊎ IsStepped new_x before after
