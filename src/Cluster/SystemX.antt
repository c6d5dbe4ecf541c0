-- ===== src/Cluster/SystemX.antt =====
-- `patch_system_x`: a new x for every role, in its config.json alone. The stored template has
-- passed validation, so its graph is read as `validate_template` reads it.
use cloud_native_emulator.Prelude.{String, Option, none, some, ◌==◌}
use cloud_native_emulator.Prelude.Dict.{Dict, keys, lookup}
use cloud_native_emulator.Prelude.Float.{Float}
use cloud_native_emulator.Prelude.Result
use cloud_native_emulator.Prelude.Result.{Result, ok, err, type_error, runtime_error}
use cloud_native_emulator.Json.{Json, object, real, entries}
use cloud_native_emulator.Merge.{get, set}
use cloud_native_emulator.Propagation.{compute_resolved_x}
use cloud_native_emulator.Validation.{Checked, check_shape, read_graph}
use cloud_native_emulator.Cluster.{
  config_map, named, get_at, patch_at, Calls, ◌>>=◌, lift, done, send, for_each, branch,
}
use cloud_native_emulator.Cluster.Answers.{get_in}
use cloud_native_emulator.Cluster.Managed.{get_managed, has_template}
use cloud_native_emulator.Cluster.Materialise.{Setting, config_name, config_patch, or_key_error}

module _ {F : Type 0} where
  -- The text under "config.json", of which "{}" is the default.
  abbrev pub config_text : Option (Json F) → Result String
  config_text none = ok "{}"
  config_text (some (Json.text s)) = ok s
  config_text (some j) = err type_error

  abbrev pub text_at_config : Json F → Result String
  text_at_config (Json.object d) = config_text (get "config.json" d)
  text_at_config j = err type_error

  -- The config that an answer holds; `none` where json.loads raises.
  unfoldable pub config_in : (String → Option (Json F)) → Option (Json F) → Result (Option (Json F))
  unfolding get_in get
  config_in loads none = ok none
  config_in loads (some body) =
      Result.◌>>=◌ (get_in "data" body) (λ d. Result.◌>>=◌ (text_at_config d) (λ s. ok (loads s)))

module _ (fl : Float) (on : Setting fl) where
  open fl use {F}

  -- config["x"] = resolved_x[role_name], and the patch. That it fails is only logged.
  abbrev pub patch_x : String → Dict F → String → Option (Json F) → Calls F (Unit {0})
  patch_x name resolved role none = done
  patch_x name resolved role (some (Json.object config)) = do
    x ← lift (or_key_error role (lookup role resolved))
    send on.server (
          patch_at (named config_map (config_name name role))
            (config_patch fl on (on.dumps (object (set "x" (real x) config)))))
        >>= λ answer. done
  patch_x name resolved role (some j) = lift (err type_error)

  -- The body of the loop over the roles.
  unfoldable pub patch_role_x : String → Dict F → String → Calls F (Unit {0})
  unfolding config_in lookup set
  patch_role_x name resolved role = do
    answer ← send on.server (get_at (named config_map (config_name name role)))
    branch (answer.status == 200)
        (lift (config_in on.loads answer.body) >>= patch_x name resolved role) done

  -- The template with the new x, and the x of each role.
  unfoldable pub resolve_again : Json F → Json F → Result (Checked F × Dict F)
  unfolding check_shape read_graph compute_resolved_x set
  resolve_again new_x (Json.object d) =
      Result.◌>>=◌ (check_shape fl on.wide (object (set "x" new_x d))) (λ c.
        Result.◌>>=◌ (read_graph fl c)
          (λ t. Result.◌>>=◌ (compute_resolved_x fl on.order t) (λ resolved. ok (c, resolved))))
  resolve_again new_x j = err type_error

  abbrev pub patch_roles_x : String → Checked F × Dict F → Calls F (Unit {0})
  patch_roles_x name (c, resolved) = for_each (patch_role_x name resolved) (keys (entries c.roles))

  -- The rest of `patch_system_x`, from the stored template on.
  unfoldable pub patch_stored_x : String → Json F → Option (Json F) → Calls F (Unit {0})
  unfolding resolve_again for_each patch_role_x
  patch_stored_x name new_x none = lift (err runtime_error)
  patch_stored_x name new_x (some template) =
      lift (resolve_again new_x template) >>= patch_roles_x name

  -- `patch_system_x`
  unfoldable pub patch_system_x : String → Json F → Calls F (Unit {0})
  unfolding get_managed patch_stored_x
  patch_system_x name new_x = do
    info ← get_managed on.server on.loads name
    patch_stored_x name new_x (has_template fl on info)
