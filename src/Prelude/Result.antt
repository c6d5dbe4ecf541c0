-- ===== src/Prelude/Result.antt =====
-- Calls that may raise. Each `raise` statement of the program has its own constructor; the text
-- of its message is not modelled beyond the names that it lists.
use Prim.Native.String.{String}
use mathlib.Core.Path.{◌≡◌, refl, subst}
use mathlib.Core.Logic.{◌⊎◌, inl, inr}
use mathlib.Core.Bool.{Bool, true, false}
use mathlib.Core.List.{List}

-- What a ValueError complains about.
pub data Problem : Type 0 where
  -- _compute_resolved_x: the roles that a cycle leaves unresolved
  cycle : List String → Problem
  -- _parse_rtt_us
  not_a_duration below_minimum above_cap : Problem
  -- _parse_rate
  not_a_rate rate_not_positive : Problem
  -- validate_latency, validate_bandwidth: the shape of the field and of its keys and values
  not_an_object no_tier_name : Problem
  peers_not_an_object : String → Problem
  no_peer_name : String → Problem
  same_tier : String → Problem
  given_twice : String × String → Problem
  -- _validate_runtime_scenarios
  phases_not_an_array phase_not_an_object phase_window_not_numbers phase_ends_early : Problem
  first_phase_late phase_not_contiguous : Problem
  phase_sets : String → Problem
  -- _validate_phase_x
  phase_x_shape phase_x_empty : Problem
  not_a_source : String → Problem
  phase_x_not_a_number : String → Problem
  -- validate_template
  template_not_an_object no_template_name template_name_letters no_roles : Problem
  role_not_an_object count_not_positive tier_not_a_name node_not_a_name : String → Problem
  no_coefficients : String → String → Problem
  unknown_from unknown_to : Problem
  -- _validate of the worker: peers and peer_names
  field_shape : Problem
  -- validate_topology and _validate_app_load
  topology_not_an_object no_sites site_not_an_object no_site_id : Problem
  no_tier_id link_end : String → Problem
  no_deployments deployment_not_an_object no_deployment_id : Problem
  no_deployment_name no_site_for_tier replicas_not_positive : String → Problem
  no_such_deployment load_not_an_object coefficient_not_a_number : Problem
  app_edge_not_an_object : Problem
  app_edge_end : String → Problem
  -- check_sites: the tiers without a ready node
  tiers_not_ready : List String → Problem
  -- _kind_path
  unsupported_kind : String → Problem
  -- JSONDecodeError
  not_json : Problem
  -- float() of a text that is no number
  not_a_float : Problem

pub data Error : Type 0 where
  value_error : Problem → Error
  key_error : String → Error
  -- TypeError and AttributeError: a value of a type that the operation does not take
  type_error : Error
  -- RuntimeError: an answer of the Kubernetes API that the program gives up at
  runtime_error : Error
  -- int() of an infinite float, or a float of an int that is too large
  overflow_error : Error
  -- a loop's fuel ran out; no run of the program ends so
  diverged : Error

pub data Result {ℓ} (V : Type ℓ) : Type ℓ where
  ok : V → Result V
  err : Error → Result V

-- `if not test: raise why`
abbrev pub guard : (test : Bool) (why : Error) → Result (Unit {0})
guard false why = err why
guard true why = ok tt

module _ {ℓ μ} {V : Type ℓ} {W : Type μ} where
  infixl 5 ◌>>=◌
  -- One call after another: an exception of the first passes on.
  abbrev pub ◌>>=◌ : Result V → (V → Result W) → Result W
  err why >>= after = err why
  ok v >>= after = after v

  pub >>=-eq-ok :
      (first : Result V) (after : V → Result W) {w : W}
      → (first >>= after) ≡ ok w
      → (v : V) × (first ≡ ok v) × (after v ≡ ok w)
  >>=-eq-ok (err why) after h = cc
  >>=-eq-ok (ok v) after h = (v, refl, h)

infixl 5 ◌>>◌
abbrev pub ◌>>◌ {μ} : {W : Type μ} → Result (Unit {0}) → Result W → Result W
first >> next = first >>= λ done. next

pub guard-eq-ok : (test : Bool) (why : Error) {u : Unit {0}} → guard test why ≡ ok u → test ≡ true
guard-eq-ok true why h = refl
guard-eq-ok false why h = cc

pub Result-cases {ℓ} :
    {V : Type ℓ} (r : Result V) → ((v : V) × (r ≡ ok v)) ⊎ ((why : Error) × (r ≡ err why))
Result-cases (ok v) = inl (v, refl)
Result-cases (err why) = inr (why, refl)

pub >>-eq-ok {μ} :
    {W : Type μ} (first : Result (Unit {0})) (next : Result W) {w : W}
    → (first >> next) ≡ ok w
    → next ≡ ok w
>>-eq-ok (err why) next h = cc
>>-eq-ok (ok u) next h = h

pub ok_inj {ℓ} : {V : Type ℓ} {v w : V} → ok v ≡ ok w → v ≡ w
ok_inj h = cc

-- What holds of the value that a call returns.
pub ok_subst {ℓ μ} : {V : Type ℓ} (P : V → Type μ) {v w : V} → ok v ≡ ok w → P v → P w
ok_subst P h p = subst P (ok_inj h) p
