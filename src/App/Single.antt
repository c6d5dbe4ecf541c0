-- ===== src/App/Single.antt =====
-- At most one template is materialised at a time.
use cloud_native_emulator.Prelude.{
  ◌≤◌, ◌≡◌, ◌≢◌, refl, String, true, false, All, Option, none, List, [], ◌∷◌, foldl, arith, length,
  text_dec,
}
use cloud_native_emulator.Prelude.Sets
use cloud_native_emulator.Prelude.Sets.{contains}
use cloud_native_emulator.App.{
  Server, done, not_found, conflict, Create, Request, post, patch, delete, is_conflict,
  single_template_name, create_template, patch_template, delete_template, handle,
}

-- At most one template.
abbrev pub IsSingle : Server → Type 0
IsSingle s = length s.managed ≤ 1

-- The API answers list_managed, if the request is a POST.
abbrev pub IsListed : Request → Type 0
IsListed (post c) = c.is_listed ≡ true
IsListed r = Unit

module _ (running : Option String) where
  abbrev at : List String → Server
  at managed = record { managed = managed; running = running }

  handle-at-IsSingle :
      (managed : List String) (r : Request)
      → length managed ≤ 1
      → IsListed r
      → IsSingle (handle (at managed) r)
  unfolding handle create_template patch_template delete_template is_conflict single_template_name
      Sets.add contains
  handle-at-IsSingle [] (post c) h listed = ground arith
  handle-at-IsSingle (n ∷ []) (post c) h listed = ground (arith, listed, text_dec n c.name)
  handle-at-IsSingle (n ∷ m ∷ rest) (post c) h listed = absurd (omega (arith, h))
  handle-at-IsSingle [] (patch seen outcome) h listed = ground arith
  handle-at-IsSingle (n ∷ []) (patch seen outcome) h listed = ground arith
  handle-at-IsSingle (n ∷ m ∷ rest) (patch seen outcome) h listed = absurd (omega (arith, h))
  handle-at-IsSingle [] (delete seen is_gone) h listed = ground arith
  handle-at-IsSingle (n ∷ []) (delete seen is_gone) h listed = ground (arith, text_dec n n)
  handle-at-IsSingle (n ∷ m ∷ rest) (delete seen is_gone) h listed = absurd (omega (arith, h))

-- From a cluster where at most one template has ConfigMaps, whatever requests come: if the API
-- answers list_managed for each POST (for a PATCH or a DELETE it may fail), at most one template
-- has ConfigMaps in the end, however the other calls end, failed and partial ones included.
pub requests-IsSingle :
    (rs : List Request) (s : Server) → All IsListed rs → IsSingle s → IsSingle (foldl handle s rs)
requests-IsSingle [] s listed h = h
requests-IsSingle (r ∷ rs) s (one, listed) h =
    requests-IsSingle rs (handle s r) listed (handle-at-IsSingle s.running s.managed r h one)

-- A POST for which the list cannot be read is not a conflict, and leaves two templates.
unlisted_post_adds :
    (n : String) (running : Option String) (c : Create)
    → c.is_valid ≡ true
    → c.is_listed ≡ false
    → c.raises_error ≡ false
    → c.name ≢ n
    → (create_template c (record { managed = n ∷ []; running = running })).0.managed
      ≡ n ∷ c.name ∷ []
unfolding create_template is_conflict Sets.add contains
unlisted_post_adds n running c valid unlisted returns other =
    ground (arith, text_dec n c.name, text_dec c.name n, valid, unlisted, returns, other)

-- While a template is materialised, a valid POST of another name is a conflict and changes
-- nothing; and a DELETE that takes everything away leaves no template and no running scenario,
-- so that a second one finds nothing.
pub other_post_conflicts :
    (n : String) (running : Option String) (c : Create)
    → c.is_valid ≡ true
    → c.is_listed ≡ true
    → c.name ≢ n
    → let s : Server = record { managed = n ∷ []; running = running } in
      let gone : Server = record { managed = []; running = none } in
      (create_template c s ≡ (s, conflict))
      × (delete_template true true s ≡ (gone, done))
      × (delete_template true true gone ≡ (gone, not_found))
unfolding create_template delete_template is_conflict single_template_name
other_post_conflicts n running c valid listed other =
    (ground (arith, text_dec n c.name, valid, listed, other), ground (arith, text_dec n n), refl)
