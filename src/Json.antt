-- ===== src/Json.antt =====
-- Parsed JSON documents, as Python's json module gives them: an object's keys are texts, in the
-- order of the document, each once.
use cloud_native_emulator.Prelude.{String, Bool, [], ◌∷◌}
use cloud_native_emulator.Prelude.Dict.{Dict}
use cloud_native_emulator.Prelude.Int.{ℤ}

mutual
  pub data Json (F : Type 0) : Type 0 where
    null : Json F
    boolean : Bool → Json F
    integer : ℤ → Json F
    real : F → Json F
    text : String → Json F
    array : Items F → Json F
    object : Fields F → Json F

  pub data Items (F : Type 0) : Type 0 where
    no_items : Items F
    item : Json F → Items F → Items F

  pub data Fields (F : Type 0) : Type 0 where
    no_fields : Fields F
    field : String → Json F → Fields F → Fields F

-- obj.items()
abbrev pub entries : {F : Type 0} → Fields F → Dict (Json F)
entries no_fields = []
entries (field k v rest) = (k, v) ∷ entries rest
