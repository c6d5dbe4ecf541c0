-- ===== src/Cluster/Refused.antt =====
-- A document that is refused changes nothing.
use cloud_native_emulator.Prelude.{◌≡◌, ◌⊎◌, inl, inr, String, Option, some}
use cloud_native_emulator.Prelude.Float.{Float}
use cloud_native_emulator.Prelude.Result.{ok}
use cloud_native_emulator.Json.{Json, Fields, object, no_fields, entries}
use cloud_native_emulator.Merge.Dots.{patched}
use cloud_native_emulator.Cluster.{Request, History, for_each}
use cloud_native_emulator.Cluster.Managed.{Info, get_managed, has_template, source_in, or_http}
use cloud_native_emulator.Cluster.Materialise.{
  Setting, Plan, make_plan, create_role, carry_out, materialise,
}
use cloud_native_emulator.Cluster.Phases.{
  IsCreate, IsLate, create_role-IsCreate, finish, finish-IsLate,
}
use cloud_native_emulator.Cluster.Sending.{
  Adds, Adds->>, Adds-lift->>=, Adds-for_each, Adds-weaken, IsRead,
}

module _ (fl : Float) (on : Setting fl) where
  open fl use {F}

  -- A request of a document that passes every check, and whose plan can be made.
  abbrev pub IsPlanned : Json F → String → Fields F → Request F → Type 0
  IsPlanned j source extra r =
      (p : Plan fl on) × (make_plan fl on j source extra ≡ ok p) × (IsCreate r ⊎ IsLate r)

  pub materialise-IsPlanned :
      (j : Json F) (source : String) (extra : Fields F)
      → Adds (IsPlanned j source extra) (materialise fl on j source extra)
  unfolding materialise carry_out
  materialise-IsPlanned j source extra =
      Adds-lift->>= (IsPlanned j source extra) (make_plan fl on j source extra) _ λ p e.
        Adds->> (IsPlanned j source extra)
          (for_each (create_role fl on p) (entries p.template.roles)) _
          (Adds-for_each (IsPlanned j source extra) (create_role fl on p) (entries p.template.roles)
            (λ role.
              Adds-weaken IsCreate (IsPlanned j source extra) (create_role fl on p role)
                (λ r c. (p, e, inl c)) (create_role-IsCreate fl on p role)))
          (Adds-weaken IsLate (IsPlanned j source extra) (finish fl on p) (λ r l. (p, e, inr l))
            (finish-IsLate fl on p))

  -- A request of `patch_template`, called at a moment: a read, or a request for the patch laid over
  -- the template that get_managed gives at that moment, with the source that it gives.
  abbrev pub IsPatching : String → Fields F → History F → Request F → Type 0
  IsPatching name patch h r =
      IsRead r
      ⊎ ((info : Option (Info F)) × (existing : Fields F) × ((get_managed on.server on.loads name
              h).0
            ≡ ok info)
          × (has_template fl on info ≡ some (object existing))
          × IsPlanned (object (patched name existing patch)) (or_http fl on (source_in fl on info))
              no_fields r)

  module _ (name : String) (patch : Fields F) (h : History F) (info : Option (Info F))
      (found : (get_managed on.server on.loads name h).0 ≡ ok info) where
    abbrev IsNext : Request F → Type 0
    IsNext = IsPatching name patch h
