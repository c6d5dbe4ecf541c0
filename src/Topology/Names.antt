-- ===== src/Topology/Names.antt =====
-- controller/materialiser.py, `_sanitize_name`. str.lower is read on the letters of ASCII: every
-- other character becomes part of a dash, as it does in Python but for the two characters beyond
-- ASCII whose lower case has a letter of ASCII (U+0130 and U+212A).
use Prim.Native.Char.{Char, code}
use cloud_native_emulator.Prelude.{
  ℕ, zero, suc, ◌-◌, ◌≡◌, refl, String, Bool, true, false, ◌&&◌, ◌||◌, if◌then◌else◌, leb, ◌==◌,
  List, [], ◌∷◌, all, codes, text_dec, Bool-cases, inl, inr, arith, subst, ap, sym,
}
use cloud_native_emulator.Links.{is_empty}
use cloud_native_emulator.Validation.{is_name_letter}

unfoldable pub letter_at : ℕ → String → Char → Char
letter_at n String.[] c = c
letter_at zero (String.◌∷◌ d s) c = d
letter_at (suc n) (String.◌∷◌ d s) c = letter_at n s c

-- The lower case of a letter of ASCII.
abbrev pub lower_char : Char → Char
unfolding letter_at
lower_char c =
    if leb 65 (code c) && leb (code c) 90
    then letter_at (code c - 65) "abcdefghijklmnopqrstuvwxyz" c
    else c

-- [a-z0-9-]
abbrev pub is_kept : ℕ → Bool
is_kept c = (leb b'a' c && leb c b'z') || (leb b'0' c && leb c b'9') || (c == b'-')

-- re.sub(r"[^a-z0-9-]+", "-", s.lower()); `run` says that a dash has been put for the characters
-- before.
unfoldable pub replace_runs : Bool → String → String
unfolding lower_char letter_at
replace_runs run String.[] = ""
replace_runs run (String.◌∷◌ c s) =
    let kept = replace_runs false s in
    let dropped = replace_runs true s in
    if is_kept (code (lower_char c))
    then String.◌∷◌ (lower_char c) kept
    else (if run then dropped else String.◌∷◌ (letter_at 0 "-" c) dropped)

-- s.lstrip("-")
unfoldable pub strip_left : String → String
strip_left String.[] = ""
strip_left (String.◌∷◌ c s) =
    let rest = strip_left s in if code c == b'-' then rest else String.◌∷◌ c s

-- s.rstrip("-")
unfoldable pub strip_right : String → String
strip_right String.[] = ""
strip_right (String.◌∷◌ c s) =
    let rest = strip_right s in if code c == b'-' && is_empty rest then "" else String.◌∷◌ c rest

-- out or "topology"
abbrev pub or_topology : String → String
or_topology s = if is_empty s then "topology" else s

-- `_sanitize_name`, of a text
unfoldable pub sanitize_name : String → String
unfolding replace_runs strip_left strip_right
sanitize_name s = or_topology (strip_right (strip_left (replace_runs false s)))

-- Only letters, digits and dashes.
abbrev pub IsKept : String → Type 0
unfolding codes
IsKept s = all is_kept (codes s) ≡ true

cons-IsKept : (c : Char) (s : String) → is_kept (code c) ≡ true → IsKept s → IsKept (String.◌∷◌ c s)
unfolding IsKept codes
cons-IsKept c s one rest = rw one rest

cons-IsKept-head : (c : Char) (s : String) → IsKept (String.◌∷◌ c s) → is_kept (code c) ≡ true
unfolding IsKept codes
cons-IsKept-head c s h = elim (Bool-cases (is_kept (code c))) [
  | inl kept ↦ kept
  | inr other ↦ let clash : false ≡ true = rw other at h in cc
]

cons-IsKept-tail : (c : Char) (s : String) → IsKept (String.◌∷◌ c s) → IsKept s
unfolding IsKept codes
cons-IsKept-tail c s h = rw (cons-IsKept-head c s h) at h

replace_runs-IsKept : (run : Bool) (s : String) → IsKept (replace_runs run s)
unfolding replace_runs IsKept codes
replace_runs-IsKept run String.[] = refl
replace_runs-IsKept run (String.◌∷◌ c s) = elim (Bool-cases (is_kept (code (lower_char c)))) [
  | inl kept ↦ rw (kept, kept) (replace_runs-IsKept false s)
  | inr other ↦ rw other (elim (Bool-cases run) [
    | inl going ↦ rw going (replace_runs-IsKept true s)
    | inr new ↦ rw new (replace_runs-IsKept true s)
  ])
]

strip_left-IsKept : (s : String) → IsKept s → IsKept (strip_left s)
unfolding strip_left
strip_left-IsKept String.[] h = h
strip_left-IsKept (String.◌∷◌ c s) h = elim (Bool-cases (code c == b'-')) [
  | inl dash ↦ rw dash (strip_left-IsKept s (cons-IsKept-tail c s h))
  | inr other ↦ rw other h
]

strip_right-IsKept : (s : String) → IsKept s → IsKept (strip_right s)
unfolding strip_right IsKept
strip_right-IsKept String.[] h = h
strip_right-IsKept (String.◌∷◌ c s) h =
    let rest = strip_right-IsKept s (cons-IsKept-tail c s h) in
    elim (Bool-cases (code c == b'-' && is_empty (strip_right s))) [
      | inl gone ↦ rw gone refl
      | inr kept ↦ rw kept (cons-IsKept c (strip_right s) (cons-IsKept-head c s h) rest)
    ]

kept_letters :
    (wide : ℕ → Bool) (cs : List ℕ) → all is_kept cs ≡ true → all (is_name_letter wide) cs ≡ true
kept_letters wide [] h = refl
kept_letters wide (c ∷ cs) h = ground (arith, h, kept_letters wide cs)

topology_named : is_empty "topology" ≡ false
unfolding text_dec
topology_named = refl

-- A name that is not empty, and of letters that `validate_template` accepts.
abbrev pub IsName : (ℕ → Bool) → String → Type 0
IsName wide s = (is_empty s ≡ false) × (all (is_name_letter wide) (codes s) ≡ true)

or_topology-IsName : (wide : ℕ → Bool) (s : String) → IsKept s → IsName wide (or_topology s)
unfolding codes IsKept
or_topology-IsName wide s kept = elim (Bool-cases (is_empty s)) [
  | inl none_left ↦ rw none_left (topology_named, refl)
  | inr some_left ↦
      subst (IsName wide) (ap (λ b. if b then "topology" else s) (sym some_left))
        (some_left, kept_letters wide (codes s) kept)
]

pub sanitize_name-IsName : (wide : ℕ → Bool) (s : String) → IsName wide (sanitize_name s)
unfolding sanitize_name
sanitize_name-IsName wide s =
    or_topology-IsName wide (strip_right (strip_left (replace_runs false s))) (
      strip_right-IsKept (strip_left (replace_runs false s))
        (strip_left-IsKept (replace_runs false s) (replace_runs-IsKept false s)))
