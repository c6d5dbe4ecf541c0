-- ===== src/Cluster/Sending.antt =====
-- Which requests a computation makes, whatever the server answers.
use cloud_native_emulator.Prelude.{
  ◌≡◌, refl, ap, ◌∙◌, sym, Bool, true, false, List, [], ◌∷◌, ◌++◌, All, All-append, All-map_of,
}
use cloud_native_emulator.Prelude.Result.{Result, ok, err}
use cloud_native_emulator.Cluster.{
  Request, get_at, Response, History, Server, Calls, ◌>>=◌, ◌>>◌, then_call, branch, lift, send,
  done, for_each,
}
use cloud_native_emulator.Cluster.Answers.{rescue, rescue_with}

pub append_assoc : {A : Type 0} (xs ys zs : List A) → (xs ++ ys) ++ zs ≡ xs ++ (ys ++ zs)
append_assoc [] ys zs = refl
append_assoc (x ∷ xs) ys zs = λ i. x ∷ append_assoc xs ys zs i

module _ {F : Type 0} (P : Request F → Type 0) where
  -- `after` is `before` with requests added, all of which are P.
  abbrev pub Extends : History F → History F → Type 0
  Extends before after = (new : History F) × (after ≡ new ++ before) × All P new

  pub Extends-refl : (h : History F) → Extends h h
  Extends-refl h = ([], refl, tt)

  pub Extends-trans : (h k l : History F) → Extends h k → Extends k l → Extends h l
  Extends-trans h k l (new, e, p) (more, e', p') = (
    more ++ new,
    e' ∙ ap (λ (x : History F). more ++ x) e ∙ sym (append_assoc more new h),
    All-append P more new p' p,
  )

  -- All requests that a computation adds are P.
  abbrev pub Adds : {V : Type 0} → Calls F V → Type 0
  Adds m = (h : History F) → Extends h (m h).1

  pub Adds-lift : {V : Type 0} (r : Result V) → Adds (lift {F = F} r)
  unfolding lift
  Adds-lift r h = Extends-refl h

  pub Adds-send : (server : Server F) (r : Request F) → P r → Adds (send server r)
  unfolding send
  Adds-send server r p h = (r ∷ [], refl, (p, tt))

  pub then_call-Extends :
      {V W : Type 0} (f : V → Calls F W) (h : History F) (r : Result V × History F)
      → Extends h r.1
      → ((v : V) → r.0 ≡ ok v → Adds (f v))
      → Extends h (then_call f r).1
  then_call-Extends f h (ok v, k) e g = Extends-trans h k (f v k).1 e (g v refl k)
  then_call-Extends f h (err why, k) e g = e

  pub Adds->>= :
      {V W : Type 0} (m : Calls F V) (f : V → Calls F W)
      → Adds m
      → ((v : V) → Adds (f v))
      → Adds (m >>= f)
  unfolding ◌>>=◌
  Adds->>= m f a g h = then_call-Extends f h (m h) (a h) (λ v e. g v)

  -- A value that is computed without a request is known to be the one that was computed.
  pub Adds-lift->>= :
      {V W : Type 0} (r : Result V) (f : V → Calls F W)
      → ((v : V) → r ≡ ok v → Adds (f v))
      → Adds (lift r >>= f)
  unfolding ◌>>=◌ lift
  Adds-lift->>= r f g h = then_call-Extends f h (r, h) (Extends-refl h) g

  pub Adds->> :
      {W : Type 0} (m : Calls F (Unit {0})) (n : Calls F W) → Adds m → Adds n → Adds (m >> n)
  unfolding ◌>>◌
  Adds->> m n a b h = then_call-Extends (λ u. n) h (m h) (a h) (λ u e. b)

  pub Adds-for_each :
      {V : Type 0} (f : V → Calls F (Unit {0})) (vs : List V)
      → ((v : V) → Adds (f v))
      → Adds (for_each f vs)
  unfolding for_each ◌>>◌ done
  Adds-for_each f [] g h = Extends-refl h
  Adds-for_each f (v ∷ vs) g h =
      then_call-Extends (λ u. for_each f vs) h (f v h) (g v h) (λ u e. Adds-for_each f vs g)

  pub Adds-branch :
      {V : Type 0} (b : Bool) (m n : Calls F V) → Adds m → Adds n → Adds (branch b m n)
  unfolding branch
  Adds-branch true m n a c = a
  Adds-branch false m n a c = c

  rescue_with-Extends :
      {V : Type 0} (v : V) (h : History F) (r : Result V × History F)
      → Extends h r.1
      → Extends h (rescue_with v r).1
  rescue_with-Extends v h (ok w, k) e = e
  rescue_with-Extends v h (err why, k) e = e

  pub Adds-rescue : {V : Type 0} (v : V) (m : Calls F V) → Adds m → Adds (rescue v m)
  unfolding rescue
  Adds-rescue v m a h = rescue_with-Extends v h (m h) (a h)

  pub Adds-done : Adds (done {F = F})
  unfolding done
  Adds-done h = Extends-refl h

  -- The answer to a request is the server's, at the requests made until then.
  pub Adds-ask :
      {W : Type 0} (server : Server F) (r : Request F) (f : Response F → Calls F W)
      → P r
      → ((before : History F) → Adds (f (server before r)))
      → Adds (send server r >>= f)
  unfolding ◌>>=◌ send
  Adds-ask server r f p g h =
      Extends-trans h (r ∷ h) (f (server h r) (r ∷ h)).1 (r ∷ [], refl, (p, tt)) (g h (r ∷ h))

-- A weaker claim on the requests.
pub Adds-weaken :
    {F V : Type 0} (P Q : Request F → Type 0) (m : Calls F V)
    → ((r : Request F) → P r → Q r)
    → Adds P m
    → Adds Q m
Adds-weaken P Q m f a h = let (new, e, p) = a h in (new, e, All-map_of P Q new f p)

-- A request that changes nothing.
abbrev pub IsRead : {F : Type 0} → Request F → Type 0
IsRead (get_at a) = Unit
IsRead r = ⊥

-- How a computation ran.
module _ {F : Type 0} where
  pub >>=-ran :
      {V W : Type 0} (m : Calls F V) (f : V → Calls F W) (h k : History F) (v : V)
      → m h ≡ (ok v, k)
      → (m >>= f) h ≡ f v k
  unfolding ◌>>=◌
  >>=-ran m f h k v e = rw e refl

  pub then_call-inv :
      {V W : Type 0} (f : V → Calls F W) (r : Result V × History F) (w : W) (l : History F)
      → then_call f r ≡ (ok w, l)
      → (v : V) × (r ≡ (ok v, r.1)) × (f v r.1 ≡ (ok w, l))
  then_call-inv f (ok v, k) w l e = (v, refl, e)
  then_call-inv {W = W} f (err why, k) w l e = cc (ap (λ (p : Result W × History F). p.0) e)

  -- A computation that returned had a first part that returned.
  pub >>=-returned :
      {V W : Type 0} (m : Calls F V) (f : V → Calls F W) (h : History F) (w : W) (l : History F)
      → (m >>= f) h ≡ (ok w, l)
      → (v : V) × (m h ≡ (ok v, (m h).1)) × (f v (m h).1 ≡ (ok w, l))
  unfolding ◌>>=◌
  >>=-returned m f h w l e = then_call-inv f (m h) w l e

  pub >>-returned :
      {W : Type 0} (m : Calls F (Unit {0})) (n : Calls F W) (h : History F) (w : W) (l : History F)
      → (m >> n) h ≡ (ok w, l)
      → (m h ≡ (ok tt, (m h).1)) × (n (m h).1 ≡ (ok w, l))
  unfolding ◌>>◌
  >>-returned m n h w l e =
      let (u, first, rest) = then_call-inv (λ u. n) (m h) w l e in (first, rest)

  rescue_with-returns :
      {V : Type 0} (v : V) (r : Result V × History F)
      → (w : V) × (rescue_with v r ≡ (ok w, (rescue_with v r).1))
  rescue_with-returns v (ok w, k) = (w, refl)
  rescue_with-returns v (err why, k) = (v, refl)

  -- `except Exception` lets nothing pass.
  pub rescue-returns :
      {V : Type 0} (v : V) (m : Calls F V) (h : History F)
      → (w : V) × (rescue v m h ≡ (ok w, (rescue v m h).1))
  unfolding rescue
  rescue-returns v m h = rescue_with-returns v (m h)
