-- ===== src/Shaping/Lines.antt =====
-- What the lines of a script say of a class and of an address.
use cloud_native_emulator.Prelude.{
  ℕ, ◌+◌, ◌*◌, ◌≤◌, ◌≡◌, ◌⊎◌, inl, inr, ltb, Bool-cases, refl, String, Option, none, some, List, [],
  ◌∷◌, ◌++◌, arith, if◌then◌else◌, ◌==◌, text_dec, ite,
}
use cloud_native_emulator.Prelude.Float.{Float}
use cloud_native_emulator.Shaping.{
  million, shown_us, digit_step, Rate, Command, add_class, add_delay, add_filter, Peer,
  delay_commands,
}

-- The rates that a script gives a class, in the order of its lines.
abbrev pub class_rates : List Command → ℕ → List Rate
class_rates [] c = []
class_rates (add_class d rate ∷ lines) c =
    if d == c then rate ∷ class_rates lines c else class_rates lines c
class_rates (line ∷ lines) c = class_rates lines c

-- The delays that a script gives a class.
abbrev pub class_delays : List Command → ℕ → List ℕ
class_delays [] c = []
class_delays (add_delay d handle us ∷ lines) c =
    if d == c then us ∷ class_delays lines c else class_delays lines c
class_delays (line ∷ lines) c = class_delays lines c

-- The handles of the netem children that a script gives a class, by their digits.
abbrev pub class_handles : List Command → ℕ → List ℕ
class_handles [] c = []
class_handles (add_delay d handle us ∷ lines) c =
    if d == c then handle ∷ class_handles lines c else class_handles lines c
class_handles (line ∷ lines) c = class_handles lines c

-- The classes to which a script sends the traffic for an address.
abbrev pub filters_to : List Command → String → List ℕ
filters_to [] a = []
filters_to (add_filter b d ∷ lines) a =
    ite (text_dec b a) (d ∷ filters_to lines a) (filters_to lines a)
filters_to (line ∷ lines) a = filters_to lines a

-- By how much the delay that tc is asked for may differ from the link's.
abbrev pub slack : ℕ → ℕ
slack us = if ltb us million then 0 else (if ltb us (10 * million) then 5 else 50)

-- What tc is asked for is the delay of a link: nothing where there is none or where it is zero, and
-- otherwise one delay, the link's within the slack.
abbrev pub IsDelay : Option ℕ → List ℕ → Type 0
IsDelay none delays = delays ≡ []
IsDelay (some us) delays =
    ((us ≡ 0) × (delays ≡ []))
    ⊎ ((d : ℕ) × (delays ≡ d ∷ []) × (d ≤ us + slack us) × (us ≤ d + slack us))

abbrev pub ips : {F : Type 0} → List (Peer F) → List String
ips [] = []
ips (p ∷ ps) = p.ip ∷ ips ps

module _ (fl : Float) where
  abbrev pub delay_list : Option ℕ → List ℕ
  delay_list none = []
  delay_list (some us) = if us == 0 then [] else shown_us fl us ∷ []

  shown_us-near : (us : ℕ) → (shown_us fl us ≤ us + slack us) × (us ≤ shown_us fl us + slack us)
  unfolding shown_us digit_step
  shown_us-near us = (ground arith, ground arith)

  pub delay_list-IsDelay : (d : Option ℕ) → IsDelay d (delay_list d)
  delay_list-IsDelay none = refl
  delay_list-IsDelay (some us) = elim (Bool-cases (us == 0)) [
    | inl zero_delay ↦ inl (ground arith, rw zero_delay refl)
    | inr positive ↦
        inr (shown_us fl us, rw positive refl, (shown_us-near us).0, (shown_us-near us).1)
  ]

  abbrev pub handle_list : ℕ → Option ℕ → List ℕ
  handle_list cid none = []
  handle_list cid (some us) = if us == 0 then [] else cid * 10 ∷ []

  module _ (cid : ℕ) (lines : List Command) where
    pub class_rates-delay :
        (d : Option ℕ) (c : ℕ)
        → class_rates (delay_commands fl cid d ++ lines) c ≡ class_rates lines c
    unfolding delay_commands
    class_rates-delay none c = refl
    class_rates-delay (some us) c = ground arith

    pub filters_to-delay :
        (d : Option ℕ) (a : String)
        → filters_to (delay_commands fl cid d ++ lines) a ≡ filters_to lines a
    unfolding delay_commands
    filters_to-delay none a = refl
    filters_to-delay (some us) a = ground arith

    pub class_delays-delay :
        (d : Option ℕ) (c : ℕ)
        → class_delays (delay_commands fl cid d ++ lines) c
          ≡ (if cid == c then delay_list d ++ class_delays lines c else class_delays lines c)
    unfolding delay_commands
    class_delays-delay none c = ground arith
    class_delays-delay (some us) c = ground arith

    pub class_delays-own :
        (d : Option ℕ)
        → class_delays lines cid ≡ []
        → class_delays (delay_commands fl cid d ++ lines) cid ≡ delay_list d
    unfolding delay_commands
    class_delays-own none none_else = none_else
    class_delays-own (some us) none_else = ground (arith, none_else)

    pub class_handles-delay :
        (d : Option ℕ) (c : ℕ)
        → class_handles (delay_commands fl cid d ++ lines) c
          ≡ (if cid == c then handle_list cid d ++ class_handles lines c else class_handles lines c)
    unfolding delay_commands
    class_handles-delay none c = ground arith
    class_handles-delay (some us) c = ground arith

    pub class_handles-own :
        (d : Option ℕ)
        → class_handles lines cid ≡ []
        → class_handles (delay_commands fl cid d ++ lines) cid ≡ handle_list cid d
    unfolding delay_commands
    class_handles-own none none_else = none_else
    class_handles-own (some us) none_else = ground (arith, none_else)
