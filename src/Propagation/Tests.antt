-- ===== src/Propagation/Tests.antt =====
-- `_compute_resolved_x` on small graphs, and its theorems there.
use cloud_native_emulator.Prelude.{
  ◌≡◌, refl, true, none, some, String, List, [], ◌∷◌, arith, text_dec, text_le,
}
use cloud_native_emulator.Prelude.Dict.{Dict, lookup}
use cloud_native_emulator.Prelude.Int.{ℤ, pos, ◌+ℤ◌, ◌*ℤ◌}
use cloud_native_emulator.Prelude.Result.{ok, err, value_error, cycle}
use cloud_native_emulator.Prelude.Sets
use cloud_native_emulator.Prelude.Sets.{contains}
use cloud_native_emulator.Prelude.Sort.{sort}
use cloud_native_emulator.Samples.{whole, edge, diamond, diamond-IsWellFormed}
use cloud_native_emulator.Template.{Template, IsWellFormed}
use cloud_native_emulator.Propagation.{
  compute_resolved_x, count_fits, egress, role_egress, at_least_zero, source_x,
}
use cloud_native_emulator.Propagation.Adjacent.{feeds}
use cloud_native_emulator.Propagation.Correct.{
  IsAcyclic, IsStuck, compute_resolved_x_acyclic, compute_resolved_x-Solves,
  compute_resolved_x-cycle,
}
use cloud_native_emulator.Propagation.Invariant.{IsSetOrder}
use cloud_native_emulator.Propagation.Solution.{Solves}

abbrev in_order : List String → List String
in_order s = s

in_order-IsSetOrder : IsSetOrder in_order
in_order-IsSetOrder = record { same = λ s a. refl; once = λ s d. d }

abbrev ring : Template ℤ
ring = record diamond { edges = edge "db" "gateway" ∷ diamond.edges }

program : Unit {0}
unfolding compute_resolved_x count_fits contains Sets.add lookup sort text_dec text_le ◌+ℤ◌ ◌*ℤ◌
    egress role_egress at_least_zero source_x
program = tt

-- gateway sends 31 to each of api and auth; api sends 2 * 36 and auth 62 to db.
compute_resolved_x-diamond :
    compute_resolved_x whole in_order diamond
    ≡ ok (("gateway", pos 10) ∷ ("api", pos 31) ∷ ("auth", pos 31) ∷ ("db", pos 134) ∷ [])
unfolding program
compute_resolved_x-diamond = refl

compute_resolved_x-ring :
    compute_resolved_x whole in_order ring
    ≡ err (value_error (cycle ("api" ∷ "auth" ∷ "db" ∷ "gateway" ∷ [])))
unfolding program
compute_resolved_x-ring = refl

ring-IsWellFormed : IsWellFormed ring
unfolding program
ring-IsWellFormed = record {
  distinct = diamond-IsWellFormed.distinct;
  joined = ((refl, refl), diamond-IsWellFormed.joined);
  counted = omega arith;
}

ring_not-IsAcyclic : ¬ IsAcyclic ring
unfolding program feeds
ring_not-IsAcyclic acyclic = omega (
  arith,
  acyclic.grows "db" "gateway" refl,
  acyclic.grows "gateway" "api" refl,
  acyclic.grows "api" "db" refl,
)

abbrev resolved : Dict ℤ
resolved = ("gateway", pos 10) ∷ ("api", pos 31) ∷ ("auth", pos 31) ∷ ("db", pos 134) ∷ []

diamond-IsAcyclic : IsAcyclic diamond
diamond-IsAcyclic =
    (compute_resolved_x-Solves whole in_order in_order-IsSetOrder diamond diamond-IsWellFormed
      resolved compute_resolved_x-diamond).0

compute_resolved_x-Solves_example : IsAcyclic diamond × Solves whole diamond resolved
compute_resolved_x-Solves_example =
    compute_resolved_x-Solves whole in_order in_order-IsSetOrder diamond diamond-IsWellFormed
      resolved compute_resolved_x-diamond

all_fit : (t : Template ℤ) (r : String) → count_fits whole t.roles r ≡ true
unfolding count_fits
all_fit t r =
    elim (lookup r t.roles)
      as (λ o. elim o [ none ↦ true | some role ↦ whole.int_fits (pos role.count) ] ≡ true) [
        | none ↦ refl
        | some role ↦ refl
      ]

compute_resolved_x_acyclic_example :
    (res : Dict ℤ) × (compute_resolved_x whole in_order diamond ≡ ok res) × Solves whole diamond res
compute_resolved_x_acyclic_example =
    compute_resolved_x_acyclic whole in_order in_order-IsSetOrder diamond diamond-IsWellFormed
      diamond-IsAcyclic (all_fit diamond)

compute_resolved_x-cycle_example :
    (names : List String) × (compute_resolved_x whole in_order ring
      ≡ err (value_error (cycle names)))
    × IsStuck ring names
compute_resolved_x-cycle_example =
    compute_resolved_x-cycle whole in_order in_order-IsSetOrder ring ring-IsWellFormed
      ring_not-IsAcyclic (all_fit ring)
