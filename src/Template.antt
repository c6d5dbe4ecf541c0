-- ===== src/Template.antt =====
-- The role-model template that controller/materialiser.py passes between its functions: a dict
-- with a fixed set of keys, here a record. Numbers of the load formulas are floats.
use cloud_native_emulator.Prelude.{ℕ, ◌≤◌, ◌≡◌, true, String, Option, List, All}
use cloud_native_emulator.Prelude.Dict.{Dict, keys}
use cloud_native_emulator.Prelude.Sets.{contains, IsNodup}

-- One load formula, a * x + b.
pub record Axis (F : Type 0) : Type 0 where
  pub a : F
  pub b : F

pub record Role (F : Type 0) : Type 0 where
  pub count : ℕ
  pub cpu : Axis F
  pub ram : Axis F
  pub net : Axis F
  pub tier : Option String
  pub node : Option String

-- {"from": src, "to": dst}
pub record Edge : Type 0 where
  pub src : String
  pub dst : String

-- The template's `x`: one number for every source role, or one per source role.
pub data InputX (F : Type 0) : Type 0 where
  number : F → InputX F
  per_source : Dict F → InputX F

pub record Template (F : Type 0) : Type 0 where
  pub name : String
  pub x : InputX F
  pub roles : Dict (Role F)
  pub edges : List Edge

-- What `validate_template` establishes: a dict's keys are distinct, every edge joins two roles,
-- and every role has a pod.
pub record IsWellFormed {F : Type 0} (t : Template F) : Type 0 where
  pub distinct : IsNodup (keys t.roles)
  pub joined :
      All
        (λ e. (contains (keys t.roles) e.src ≡ true) × (contains (keys t.roles) e.dst ≡ true))
        t.edges
  pub counted : All (λ e. 1 ≤ e.1.count) t.roles
