-- ===== src/Propagation/Correct.antt =====
-- `_compute_resolved_x` resolves exactly the acyclic role graphs, and resolves them right.
use cloud_native_emulator.Prelude.{
  ℕ, zero, suc, ◌<◌, ◌≡◌, ◌≢◌, ◌⊎◌, refl, ◌∙◌, String, true, List, [], ◌∷◌, arith, ◌==◌, length,
  inl, inr, Bool-cases, text_dec,
}
use cloud_native_emulator.Prelude.Dict.{Dict, keys}
use cloud_native_emulator.Prelude.Float.{Float}
use cloud_native_emulator.Prelude.Result.{ok, err, value_error, cycle}
use cloud_native_emulator.Prelude.Sets.{contains}
use cloud_native_emulator.Template.{Template, IsWellFormed}
use cloud_native_emulator.Propagation.{report, compute_resolved_x, count_fits}
use cloud_native_emulator.Propagation.Adjacent.{feeds}
use cloud_native_emulator.Propagation.Ending
use cloud_native_emulator.Propagation.Ending.{run_to_End, Overflows, done, unresolved}
use cloud_native_emulator.Propagation.Invariant.{IsSetOrder}
use cloud_native_emulator.Propagation.Rank.{index_of, IsOrdered-rank, feeds_closed}
use cloud_native_emulator.Propagation.Solution.{Solves}

-- The role graph has no cycle: along each edge between two roles some measure grows.
pub record IsAcyclic {F : Type 0} (t : Template F) : Type 0 where
  pub rank : String → ℕ
  pub grows : (u a : String) → feeds t.edges u a ≡ true → rank u < rank a

-- A set of roles that no order can resolve: each is fed by another of them.
pub record IsStuck {F : Type 0} (t : Template F) (names : List String) : Type 0 where
  pub some_name : names ≢ []
  pub fed_within :
      (r : String)
      → contains names r ≡ true
      → (u : String) × (feeds t.edges u r ≡ true) × (contains names u ≡ true)

stuck_ranks :
    {F : Type 0} (t : Template F) (names : List String)
    → IsStuck t names
    → (acyclic : IsAcyclic t) (n : ℕ) (r : String) → contains names r ≡ true
    → acyclic.rank r < n
    → ⊥
stuck_ranks t names stuck acyclic zero r m h = elim h [ ]
stuck_ranks t names stuck acyclic (suc n) r m h =
    let (u, edge, member) = stuck.fed_within r m in
    stuck_ranks t names stuck acyclic n u member (omega (arith, acyclic.grows u r edge, h))

stuck_not-IsAcyclic :
    {F : Type 0} (t : Template F) (names : List String) → IsStuck t names → ¬ IsAcyclic t
unfolding contains
stuck_not-IsAcyclic t [] stuck acyclic = stuck.some_name refl
stuck_not-IsAcyclic t (r ∷ rs) stuck acyclic =
    stuck_ranks t (r ∷ rs) stuck acyclic (suc (acyclic.rank r)) r (ground (arith, text_dec r r))
      (omega arith)

module _ (fl : Float) (order : List String → List String) (lawful : IsSetOrder order) where
  open fl use {F}

  -- Every run on a well-formed template ends in one of three ways: with a resolution, with a
  -- report that names roles which wait for one another, or at a count that is too large.
  abbrev pub Outcome : Template F → Type 0
  Outcome t =
      ((resolved : Dict F) × (compute_resolved_x fl order t ≡ ok resolved) × Solves fl t resolved)
      ⊎ ((names : List String) × (compute_resolved_x fl order t ≡ err (value_error (cycle names)))
          × IsStuck t names)
      ⊎ Overflows fl order lawful t

  pub compute_resolved_x-Outcome : (t : Template F) → IsWellFormed t → Outcome t
  unfolding report
  compute_resolved_x-Outcome t wf = elim (run_to_End fl order lawful t wf) [
    | inr overflows ↦ inr (inr overflows)
    | inl end ↦
        elim (Bool-cases (length (done fl order lawful t wf end) == length (keys t.roles))) [
          | inl same ↦ inl (
            done fl order lawful t wf end,
            end.result ∙ rw same refl,
            Ending.done-Solves fl order lawful t wf end (ground arith),
          )
          | inr other ↦ inr (
              inl (
                unresolved fl order lawful t wf end,
                end.result ∙ rw other refl,
                record {
                  some_name = Ending.unresolved-ne-nil fl order lawful t wf end (ground arith);
                  fed_within = Ending.fed_by_unresolved fl order lawful t wf end;
                },
              ))
        ]
  ]

Solves-IsAcyclic :
    (fl : Float) (t : Template (fl.F)) (resolved : Dict (fl.F))
    → IsWellFormed t
    → Solves fl t resolved
    → IsAcyclic t
Solves-IsAcyclic fl t resolved wf s = record {
  rank = index_of (keys resolved);
  grows = λ u a edge.
      IsOrdered-rank t.edges [] resolved u a s.ordered s.distinct
        (s.complete a ∙ feeds_closed (keys t.roles) t.edges u a wf.joined edge) edge;
}

module _ (fl : Float) (order : List String → List String) (lawful : IsSetOrder order) where
  open fl use {F}

  -- No role's count is too large for a float.
  abbrev pub CountsFit : Template F → Type 0
  CountsFit t = (r : String) → count_fits fl t.roles r ≡ true

  -- On a well-formed template whose role graph has no cycle (self-edges aside), and whose counts
  -- all convert to floats, the call returns, whatever order Python iterates its sets in. What it returns has each role once, after the
  -- roles that feed it. Its x is the template's input at a role that no other feeds, and at any
  -- other role the sum, from 0.0 in that order, of the role-total egress of those that do.
  pub compute_resolved_x_acyclic :
      (t : Template F)
      → IsWellFormed t
      → IsAcyclic t
      → CountsFit t
      → (resolved : Dict F) × (compute_resolved_x fl order t ≡ ok resolved) × Solves fl t resolved
  compute_resolved_x_acyclic t wf acyclic fit =
      elim (compute_resolved_x-Outcome fl order lawful t wf) [
        | inl solved ↦ solved
        | inr (inl (names, ran, stuck)) ↦ absurd (stuck_not-IsAcyclic t names stuck acyclic)
        | inr (inr (r, large, ran)) ↦ cc (fit r)
      ]

  -- When the call returns on a well-formed template, the role graph has no cycle, and the result
  -- has each role once, after the roles that feed it, at the x that the equations ask.
  pub compute_resolved_x-Solves :
      (t : Template F)
      → IsWellFormed t
      → (resolved : Dict F) → compute_resolved_x fl order t ≡ ok resolved
      → IsAcyclic t × Solves fl t resolved
  compute_resolved_x-Solves t wf other e = elim (compute_resolved_x-Outcome fl order lawful t wf) [
    | inl (resolved, ran, s) ↦
        let same : resolved ≡ other = cc in rw (← same) (Solves-IsAcyclic fl t resolved wf s, s)
    | inr (inl (names, ran, stuck)) ↦ cc
    | inr (inr (r, large, ran)) ↦ cc
  ]

  -- On a well-formed template whose role graph has a cycle, and whose counts all convert to
  -- floats, the call raises the cycle error and
  -- nothing else, it names some role, and each role that it names is fed by one that it names.
  pub compute_resolved_x-cycle :
      (t : Template F)
      → IsWellFormed t
      → ¬ IsAcyclic t
      → CountsFit t
      → (names : List String) × (compute_resolved_x fl order t ≡ err (value_error (cycle names)))
        × IsStuck t names
  compute_resolved_x-cycle t wf cyclic fit =
      elim (compute_resolved_x-Outcome fl order lawful t wf) [
        | inl (resolved, ran, s) ↦ absurd (cyclic (Solves-IsAcyclic fl t resolved wf s))
        | inr (inl report) ↦ report
        | inr (inr (r, large, ran)) ↦ cc (fit r)
      ]
