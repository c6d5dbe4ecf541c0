-- ===== src/Prelude/Sort.antt =====
-- Python's `sorted` over texts. Equal elements keep their order, as there.
use Prim.Native.String.{String}
use mathlib.Core.List.{List, [], ◌∷◌}
use cloud_native_emulator.Prelude.Tests.{if◌then◌else◌}
use cloud_native_emulator.Prelude.Text.{text_le}

module _ {ℓ} {A : Type ℓ} (key : A → String) where
  unfoldable pub insert_by : A → List A → List A
  unfolding text_le
  insert_by a [] = a ∷ []
  insert_by a (b ∷ bs) = if text_le (key a) (key b) then a ∷ b ∷ bs else b ∷ insert_by a bs

  -- sorted(xs, key=key)
  unfoldable pub sort_by : List A → List A
  unfolding insert_by
  sort_by [] = []
  sort_by (a ∷ as') = insert_by a (sort_by as')

-- sorted(xs)
unfoldable pub sort : List String → List String
unfolding sort_by
sort = sort_by (λ s. s)
