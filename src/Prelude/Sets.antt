-- ===== src/Prelude/Sets.antt =====
-- Python's `set` of texts: a list with each member once.
use Prim.Native.Nat.{suc, ◌≤◌}
use Prim.Native.String.{String}
use mathlib.Core.Path.{◌≡◌, refl, ap}
use mathlib.Core.Logic.{◌≢◌, ite, inl, inr}
use mathlib.Core.Bool.{Bool, true, false, ◌||◌, ◌&&◌}
use mathlib.Core.List.{List, [], ◌∷◌, ◌++◌}
use native.Mathlib.Omega.{arith}
use cloud_native_emulator.Prelude.Tests.{if◌then◌else◌, Bool-cases}
use cloud_native_emulator.Prelude.Lists.{length, select}
use cloud_native_emulator.Prelude.Text.{text_dec}
use cloud_native_emulator.Prelude.Sort.{insert_by, sort_by, sort}

-- a in xs
unfoldable pub contains : List String → String → Bool
contains [] a = false
contains (x ∷ xs) a = ite (text_dec x a) true (contains xs a)

-- s.add(a)
unfoldable pub add : List String → String → List String
add s a = if contains s a then s else s ++ (a ∷ [])

abbrev pub IsNodup : List String → Type 0
IsNodup [] = Unit
IsNodup (x ∷ xs) = (contains xs x ≡ false) × IsNodup xs

pub contains-append :
    (xs ys : List String) (a : String) → contains (xs ++ ys) a ≡ (contains xs a || contains ys a)
unfolding contains
contains-append [] ys a = refl
contains-append (x ∷ xs) ys a = ground (arith, contains-append xs ys a)

pub contains-add :
    (s : List String) (a b : String) → contains (add s a) b ≡ (contains s b || contains (a ∷ []) b)
unfolding contains add
contains-add s a b = ground (arith, contains-append s (a ∷ []) b)

pub contains_one : (a b : String) → contains (a ∷ []) b ≡ ite (text_dec a b) true false
unfolding contains
contains_one a b = refl

pub append-IsNodup :
    (xs ys : List String)
    → IsNodup xs
    → IsNodup ys
    → ((a : String) → contains xs a ≡ true → contains ys a ≡ false)
    → IsNodup (xs ++ ys)
unfolding contains
append-IsNodup [] ys hx hy h = hy
append-IsNodup (x ∷ xs) ys hx hy h = (
  ground (arith, contains-append xs ys x, h x),
  append-IsNodup xs ys hx.1 hy (λ a m. h a (ground arith)),
)

pub IsNodup-left : (xs ys : List String) → IsNodup (xs ++ ys) → IsNodup xs
IsNodup-left [] ys h = tt
IsNodup-left (x ∷ xs) ys h = (ground (arith, contains-append xs ys x), IsNodup-left xs ys h.1)

pub add-IsNodup : (s : List String) (a : String) → IsNodup s → IsNodup (add s a)
unfolding add contains
add-IsNodup s a h = elim (Bool-cases (contains s a)) [
  | inl old ↦ rw old h
  | inr new ↦ rw new (append-IsNodup s (a ∷ []) h (refl, tt) (λ b m. ground (arith, text_dec a b)))
]

pub contains-not-nil : (s : List String) (a : String) → contains s a ≡ true → s ≢ []
unfolding contains
contains-not-nil s a h e = cc (ap (λ (t : List String). contains t a) e)

erase : String → List String → List String
erase a [] = []
erase a (y ∷ ys) = ite (text_dec y a) ys (y ∷ erase a ys)

contains-erase_ne :
    (a b : String) (ys : List String)
    → a ≢ b
    → contains ys b ≡ true
    → contains (erase a ys) b ≡ true
unfolding contains erase
contains-erase_ne a b [] h m = m
contains-erase_ne a b (y ∷ ys) h m = ground (arith, contains-erase_ne a b ys h)

length-erase :
    (a : String) (ys : List String) → contains ys a ≡ true → suc (length (erase a ys)) ≡ length ys
unfolding contains erase
length-erase a [] m = cc
length-erase a (y ∷ ys) m = ground (arith, length-erase a ys)

-- Distinct members of `ys` are at most as many as `ys` has places.
pub length-le_of_subset :
    (xs ys : List String)
    → IsNodup xs
    → ((a : String) → contains xs a ≡ true → contains ys a ≡ true)
    → length xs ≤ length ys
unfolding contains
length-le_of_subset [] ys h sub = omega arith
length-le_of_subset (x ∷ xs) ys h sub = omega (
  arith,
  length-erase x ys (sub x (ground (arith, text_dec x x))),
  length-le_of_subset xs (erase x ys) h.1
      (λ a m. contains-erase_ne x a ys (λ e. cc (h.0, ap (contains xs) e)) (sub a (ground arith))),
)

-- Nothing stands twice, so not before its own place either.
pub IsNodup-middle :
    (xs ys : List String) (a : String) → IsNodup (xs ++ (a ∷ ys)) → contains xs a ≡ false
unfolding contains
IsNodup-middle [] ys a h = refl
IsNodup-middle (x ∷ xs) ys a h =
    ground
      (arith, contains-append xs (a ∷ ys) x, IsNodup-middle xs ys a h.1, text_dec x a, text_dec a a)

-- Distinct members of `ys`, as many as `ys` has places, are all of `ys`.
pub contains_of_length :
    (xs ys : List String)
    → IsNodup xs
    → ((a : String) → contains xs a ≡ true → contains ys a ≡ true)
    → length xs ≡ length ys
    → (a : String) → contains ys a ≡ true
    → contains xs a ≡ true
contains_of_length xs ys d sub same a m = elim (Bool-cases (contains xs a)) [
  | inl in_xs ↦ in_xs
  | inr out ↦ absurd (
      omega (
        arith,
        length-le_of_subset (a ∷ xs) ys (out, d)
            (unfold contains in
              λ b h. elim (text_dec a b) [ yes e ↦ rw (← e) m | no n ↦ sub b (ground arith) ]),
      ))
]

pub contains-select :
    (p : String → Bool) (xs : List String) (a : String)
    → contains (select p xs) a ≡ (contains xs a && p a)
unfolding contains
contains-select p [] a = refl
contains-select p (x ∷ xs) a = elim (text_dec x a) [
  | yes e ↦ rw e (ground (arith, contains-select p xs a, text_dec a a))
  | no n ↦ ground (arith, contains-select p xs a, text_dec x a)
]

pub nil_of_contains : (xs : List String) → ((a : String) → contains xs a ≡ false) → xs ≡ []
unfolding contains
nil_of_contains [] h = refl
nil_of_contains (x ∷ xs) h = ground (arith, h x, text_dec x x)

pub contains-insert :
    (x : String) (xs : List String) (a : String)
    → contains (insert_by (λ s. s) x xs) a ≡ (contains (x ∷ []) a || contains xs a)
unfolding contains insert_by
contains-insert x [] a = ground arith
contains-insert x (y ∷ ys) a = ground (arith, contains-insert x ys a, text_dec x a, text_dec y a)

pub contains-sort : (xs : List String) (a : String) → contains (sort xs) a ≡ contains xs a
unfolding contains sort_by sort
contains-sort [] a = refl
contains-sort (x ∷ xs) a = ground (arith, contains-insert x (sort xs) a, contains-sort xs a)
