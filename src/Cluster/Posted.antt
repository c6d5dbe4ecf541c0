-- ===== src/Cluster/Posted.antt =====
-- What `materialise` has done when it returns.
use cloud_native_emulator.Prelude.{◌≡◌, String, List, ◌∷◌, ◌++◌, All}
use cloud_native_emulator.Prelude.Float.{Float}
use cloud_native_emulator.Prelude.Result.{Result, ok}
use cloud_native_emulator.Json.{Json}
use cloud_native_emulator.Cluster.{Kind, all_of, Request, post_at, History}
use cloud_native_emulator.Cluster.Materialise.{Setting, Plan, role_documents}

module _ {F : Type 0} where
  -- The request was made.
  abbrev pub Sent : Request F → History F → Type 0
  Sent r h = (before : History F) × (after : History F) × (h ≡ after ++ (r ∷ before))

  -- The document was posted under its kind.
  abbrev pub Posted : Json F → History F → Type 0
  Posted j h = (kind : Kind) × Sent (post_at (all_of kind) j) h

module _ (fl : Float) (on : Setting fl) where
  open fl use {F}

  -- The role's documents could be made, and all of them were posted.
  abbrev pub IsCreated : Plan fl on → String × Json F → History F → Type 0
  IsCreated p (role, j) h =
      (docs : List (Json F)) × (role_documents fl on p role j ≡ ok docs)
      × All (λ doc. Posted doc h) docs
