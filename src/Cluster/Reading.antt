-- ===== src/Cluster/Reading.antt =====
-- `get_managed` only reads.
use cloud_native_emulator.Prelude.{String, Option, none, some, List, null}
use cloud_native_emulator.Json.{Json}
use cloud_native_emulator.Cluster.{deployment, config_map, labelled, get_at, Server}
use cloud_native_emulator.Cluster.Answers.{items_of}
use cloud_native_emulator.Cluster.Managed.{
  annotations_of, read_replicas, names_of, describe, get_managed,
}
use cloud_native_emulator.Cluster.Sending.{
  Adds, Adds-lift, Adds->>=, Adds-lift->>=, Adds-ask, Adds-branch, IsRead,
}

module _ {F : Type 0} (server : Server F) (loads : String → Option (Json F)) (name : String) where
  describe-IsRead : (items : List (Json F)) → Adds IsRead (describe server loads name items)
  unfolding describe
  describe-IsRead items = Adds-lift->>= IsRead (annotations_of none none items) _ λ found e.
      Adds-ask IsRead server (get_at (labelled deployment (some name))) _ tt λ before.
        Adds-lift->>= IsRead
          (read_replicas (server before (get_at (labelled deployment (some name))))) _
          λ replicas e'. Adds-lift->>= IsRead (names_of items) _ λ names e''. Adds-lift IsRead _

  pub get_managed-IsRead : Adds IsRead (get_managed server loads name)
  unfolding get_managed
  get_managed-IsRead =
      Adds-ask IsRead server (get_at (labelled config_map (some name))) _ tt λ before.
        Adds-branch IsRead _ _ _
          (Adds-lift->>= IsRead
            (items_of (server before (get_at (labelled config_map (some name)))).body) _
            λ items e. Adds-branch IsRead (null items) _ _ (Adds-lift IsRead _) (
              Adds->>= IsRead (describe server loads name items) _ (describe-IsRead items)
                (λ info. Adds-lift IsRead _)))
          (Adds-lift IsRead _)
