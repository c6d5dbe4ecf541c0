-- ===== src/Cluster/Returning.antt =====
-- What a computation returns, whatever the server answers.
use cloud_native_emulator.Prelude.{◌≡◌, refl}
use cloud_native_emulator.Prelude.Result.{Result, ok, err}
use cloud_native_emulator.Cluster.{Request, History, Calls, ◌>>=◌, then_call, lift}
use cloud_native_emulator.Cluster.Sending.{Adds, then_call-Extends}

module _ {F : Type 0} where
  -- Each value that a computation returns is Q.
  abbrev pub Returns : {V : Type 0} → (V → Type 0) → Calls F V → Type 0
  Returns Q m = (h : History F) (v : _) → (m h).0 ≡ ok v → Q v

  pub Returns-lift :
      {V : Type 0} (Q : V → Type 0) (r : Result V)
      → ((v : V) → r ≡ ok v → Q v)
      → Returns Q (lift {F = F} r)
  unfolding lift
  Returns-lift Q r f h v e = f v e

  then_call-Returns :
      {V W : Type 0} (P : V → Type 0) (Q : W → Type 0) (f : V → Calls F W)
      (r : Result V × History F) (w : W)
      → ((v : V) → r.0 ≡ ok v → P v)
      → ((v : V) → P v → Returns Q (f v))
      → (then_call f r).0 ≡ ok w
      → Q w
  then_call-Returns P Q f (ok v, k) w p g e = g v (p v refl) k w e
  then_call-Returns P Q f (err why, k) w p g e = cc

  pub Returns->>= :
      {V W : Type 0} (P : V → Type 0) (Q : W → Type 0) (m : Calls F V) (f : V → Calls F W)
      → Returns P m
      → ((v : V) → P v → Returns Q (f v))
      → Returns Q (m >>= f)
  unfolding ◌>>=◌
  Returns->>= P Q m f p g h w e = then_call-Returns P Q f (m h) w (p h) g e

  -- What the second computation adds may rest on what the first returned.
  pub Adds-Returns :
      {V W : Type 0} (R : Request F → Type 0) (P : V → Type 0) (m : Calls F V) (f : V → Calls F W)
      → Adds R m
      → Returns P m
      → ((v : V) → P v → Adds R (f v))
      → Adds R (m >>= f)
  unfolding ◌>>=◌
  Adds-Returns R P m f a p g h = then_call-Extends R f h (m h) (a h) (λ v e. g v (p h v e))
