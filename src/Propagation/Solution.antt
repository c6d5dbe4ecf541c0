-- ===== src/Propagation/Solution.antt =====
-- What `_compute_resolved_x` has to return, said without the algorithm: the equations that the
-- x of each role satisfies, and the order in which they can be solved.
use cloud_native_emulator.Prelude.{
  ◌≡◌, String, true, List, [], ◌∷◌, ◌++◌, foldl, if◌then◌else◌, All,
}
use cloud_native_emulator.Prelude.Dict.{Dict, keys}
use cloud_native_emulator.Prelude.Float.{Float}
use cloud_native_emulator.Prelude.Sets.{contains, IsNodup}
use cloud_native_emulator.Template.{Role, Edge, InputX, Template}
use cloud_native_emulator.Propagation.{float_zero, source_x, egress}
use cloud_native_emulator.Propagation.Adjacent.{feeds, is_fed}

-- Each role of the list is fed only by roles of `seen` and by roles before it.
abbrev pub IsOrdered : {F : Type 0} → List Edge → List String → Dict F → Type 0
IsOrdered es seen [] = Unit
IsOrdered es seen ((r, x) ∷ rest) =
    ((u : String) → feeds es u r ≡ true → contains seen u ≡ true)
    × IsOrdered es (seen ++ (r ∷ [])) rest

module _ (fl : Float) where
  open fl use {F, add}

  module _ (roles : Dict (Role F)) (es : List Edge) where
    -- One more role of the list, whose traffic `a` receives if the graph has the edge.
    abbrev pub absorb : String → F → String × F → F
    absorb a total (u, x) = if feeds es u a then add total (egress fl roles u x) else total

    -- The traffic that reaches `a` from the roles of the list, added up from the left.
    abbrev pub inflow : String → Dict F → F
    inflow a = foldl (absorb a) (float_zero fl)

    -- The x of a role: its input if no other role feeds it, and otherwise the traffic from those
    -- that do.
    abbrev pub settled : InputX F → Dict F → String → F
    settled x resolved a = if is_fed es a then inflow a resolved else source_x fl x a

  -- A resolution of the template: each role once, in an order that follows the edges, and each x
  -- as the equations ask.
  pub record Solves (t : Template F) (resolved : Dict F) : Type 0 where
    pub distinct : IsNodup (keys resolved)
    pub complete : (a : String) → contains (keys resolved) a ≡ contains (keys t.roles) a
    pub ordered : IsOrdered t.edges [] resolved
    pub settles : All (λ e. e.1 ≡ settled t.roles t.edges t.x resolved e.0) resolved
