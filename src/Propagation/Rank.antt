-- ===== src/Propagation/Rank.antt =====
-- A resolution's order is itself a measure that grows along the edges.
use cloud_native_emulator.Prelude.{
  ℕ, suc, ◌<◌, ◌≡◌, String, true, false, List, [], ◌∷◌, ◌++◌, arith, All, length, text_dec, ite,
}
use mathlib.Core.List.{append_assoc}
use cloud_native_emulator.Prelude.Dict.{Dict, keys}
use cloud_native_emulator.Prelude.Sets
use cloud_native_emulator.Prelude.Sets.{contains, IsNodup}
use cloud_native_emulator.Template.{Edge}
use cloud_native_emulator.Propagation.Adjacent.{feeds}
use cloud_native_emulator.Propagation.Solution.{IsOrdered}

-- The first place of a text in a list; past the end if it is not there.
unfoldable pub index_of : List String → String → ℕ
index_of [] a = 0
index_of (x ∷ xs) a = ite (text_dec x a) 0 (suc (index_of xs a))

index_of-left :
    (xs ys : List String) (a : String) → contains xs a ≡ true → index_of (xs ++ ys) a < length xs
unfolding index_of contains
index_of-left [] ys a m = cc
index_of-left (x ∷ xs) ys a m = ground (arith, index_of-left xs ys a, text_dec x a)

index_of-middle :
    (xs ys : List String) (a : String)
    → contains xs a ≡ false
    → index_of (xs ++ (a ∷ ys)) a ≡ length xs
unfolding index_of contains
index_of-middle [] ys a m = ground (arith, text_dec a a)
index_of-middle (x ∷ xs) ys a m = ground (arith, index_of-middle xs ys a, text_dec x a)

pub IsOrdered-rank :
    {F : Type 0} (es : List Edge) (seen : List String) (res : Dict F) (u r : String)
    → IsOrdered es seen res
    → IsNodup (seen ++ keys res)
    → contains (keys res) r ≡ true
    → feeds es u r ≡ true
    → index_of (seen ++ keys res) u < index_of (seen ++ keys res) r
unfolding contains
IsOrdered-rank es seen [] u r h d m edge = cc
IsOrdered-rank es seen ((q, y) ∷ res) u r h d m edge = elim (text_dec q r) [
  | yes same ↦
      let old = h.0 u (rw same edge) in
      let new = Sets.IsNodup-middle seen (keys res) q d in
      rw (← same) (
        omega
          (arith, index_of-left seen (q ∷ keys res) u old, index_of-middle seen (keys res) q new))
  | no other ↦
      rw append_assoc at
        (IsOrdered-rank es (seen ++ (q ∷ [])) res u r h.1 (rw append_assoc d) (ground arith) edge)
]

pub feeds_closed :
    (roles : List String) (es : List Edge) (u a : String)
    → All (λ e. (contains roles e.src ≡ true) × (contains roles e.dst ≡ true)) es
    → feeds es u a ≡ true
    → contains roles a ≡ true
unfolding feeds
feeds_closed roles [] u a h m = cc
feeds_closed roles (e ∷ es) u a h m =
    ground (arith, feeds_closed roles es u a h.1, text_dec e.src u, text_dec e.dst a)
