-- ===== src/Propagation/Invariant.antt =====
-- The loop invariant of `_compute_resolved_x`.
use cloud_native_emulator.Prelude.{◌≡◌, String, List, [], ◌++◌, ◌==◌, ◌&&◌, All}
use cloud_native_emulator.Prelude.Dict.{Dict, keys}
use cloud_native_emulator.Prelude.Float.{Float}
use cloud_native_emulator.Prelude.Sets.{contains, IsNodup}
use cloud_native_emulator.Template.{Role, Edge, InputX}
use cloud_native_emulator.Propagation.{Kahn, Adjacency}
use cloud_native_emulator.Propagation.Counting.{missing}
use cloud_native_emulator.Propagation.Solution.{IsOrdered, inflow, settled}

-- The order in which a Python set is iterated: its members, each once.
pub record IsSetOrder (order : List String → List String) : Type 0 where
  pub same : (s : List String) (a : String) → contains (order s) a ≡ contains s a
  pub once : (s : List String) → IsNodup s → IsNodup (order s)

module _ (fl : Float) where
  open fl use {F}

  module _ (roles : Dict (Role F)) (es : List Edge) (x : InputX F) (adj : Adjacency) where
    -- An entry of the queue: nothing that feeds it is outstanding, and its x is settled.
    abbrev pub Entry : Dict F → String × F → Type 0
    Entry done e = (missing (keys done) (adj.up e.0) ≡ 0) × (e.1 ≡ settled fl roles es x done e.0)

    pub record Inv (st : Kahn fl) : Type 0 where
      pub distinct : IsNodup (keys (st.done ++ st.todo))
      pub counts : (a : String) → st.remaining a ≡ missing (keys st.done) (adj.up a)
      pub totals : (a : String) → st.accum a ≡ inflow fl roles es a st.done
      pub queued :
          (a : String)
          → contains (keys (st.done ++ st.todo)) a
            ≡ (contains (keys roles) a && (st.remaining a == 0))
      pub valued : All (Entry st.done) (st.done ++ st.todo)
      pub ordered : IsOrdered es [] st.done
