-- ===== src/Validation/Parts.antt =====
-- What the checks of the roles and of the edges find.
use cloud_native_emulator.Prelude.{
  ℕ, ◌≤◌, ◌≡◌, refl, ap, ◌∙◌, sym, String, true, false, Option, none, some, List, [], ◌∷◌, arith,
  All,
}
use cloud_native_emulator.Prelude.Dict.{Dict, keys}
use cloud_native_emulator.Prelude.Float.{Float}
use cloud_native_emulator.Prelude.Int.{pos, negsuc}
use cloud_native_emulator.Prelude.Result.{ok, err, >>=-eq-ok, >>-eq-ok, ok_inj, ok_subst, Error}
use cloud_native_emulator.Prelude.Sets.{contains}
use cloud_native_emulator.Json
use cloud_native_emulator.Json.{Json, Items, Fields, entries}
use cloud_native_emulator.Merge.{get}
use cloud_native_emulator.Template.{Role, Edge}
use cloud_native_emulator.Validation.{
  positive_int, count_found, check_fields, check_role, read_axis, check_roles, endpoint, known,
  check_edge, check_edges, read_role, read_roles,
}

abbrev tail : List String → List String
tail [] = []
tail (x ∷ xs) = xs

abbrev pub IsJoined : List String → Edge → Type 0
IsJoined roles e = (contains roles e.src ≡ true) × (contains roles e.dst ≡ true)

count_found-le :
    (r : String) (o : Option ℕ) (n : ℕ)
    → ((m : ℕ) → o ≡ some m → 1 ≤ m)
    → count_found r o ≡ ok n
    → 1 ≤ n
count_found-le r none n f h = cc
count_found-le r (some m) n f h = ok_subst (λ k. 1 ≤ k) h (f m refl)

module _ {F : Type 0} where
  pub positive_int-le : (j : Option (Json F)) (n : ℕ) → positive_int j ≡ some n → 1 ≤ n
  positive_int-le none n h = cc
  positive_int-le (some (Json.integer (pos m))) n h = ground arith
  positive_int-le (some (Json.integer (negsuc m))) n h = cc
  positive_int-le (some (Json.boolean true)) n h = ground arith
  positive_int-le (some (Json.boolean false)) n h = cc
  positive_int-le (some Json.null) n h = cc
  positive_int-le (some (Json.real v)) n h = cc
  positive_int-le (some (Json.text s)) n h = cc
  positive_int-le (some (Json.array xs)) n h = cc
  positive_int-le (some (Json.object d)) n h = cc

  check_role-le : (r : String) (j : Json F) (n : ℕ) → check_role r j ≡ ok n → 1 ≤ n
  unfolding check_role
  check_role-le r (Json.object d) n h =
      let (m, one, after) = >>=-eq-ok (count_found r (positive_int (get "count" d))) _ h in
      let last = >>-eq-ok (check_fields r d) (ok m) after in
      count_found-le r (positive_int (get "count" d)) n (positive_int-le (get "count" d))
        (one ∙ last)
  check_role-le r j n h = cc

  pub check_roles-keys :
      (ds : Dict (Json F)) (counts : Dict ℕ)
      → check_roles ds ≡ ok counts
      → (keys counts ≡ keys ds) × All (λ e. 1 ≤ e.1) counts
  unfolding check_roles
  check_roles-keys [] counts h =
      ok_subst (λ (c : Dict ℕ). (keys c ≡ []) × All (λ e. 1 ≤ e.1) c) h (refl, tt)
  check_roles-keys ((r, j) ∷ rest) counts h =
      let (n, one, after) = >>=-eq-ok (check_role r j) _ h in
      let (ns, more, last) = >>=-eq-ok (check_roles rest) _ after in
      let (same, counted) = check_roles-keys rest ns more in
      ok_subst (λ (c : Dict ℕ). (keys c ≡ r ∷ keys rest) × All (λ e. 1 ≤ e.1) c) last
        (ap (λ (k : List String). r ∷ k) same, (check_role-le r j n one, counted))

  endpoint-known :
      (roles : List String) (j : Option (Json F)) (why : Error) (o : Option String) (s : String)
      → endpoint roles j ≡ ok o
      → known o (err why) ≡ ok s
      → contains roles s ≡ true
  endpoint-known roles j why none s h k = cc
  endpoint-known roles none why (some a) s h k = cc
  endpoint-known roles (some (Json.text b)) why (some a) s h k = ground (arith, h, k)
  endpoint-known roles (some j) why (some a) s h k = cc

  check_edge-IsJoined :
      (roles : List String) (j : Json F) (e : Edge) → check_edge roles j ≡ ok e → IsJoined roles e
  unfolding check_edge
  check_edge-IsJoined roles (Json.object d) e h =
      let (o, a, after) = >>=-eq-ok (endpoint roles (get "from" d)) _ h in
      let (src, b, then_to) = >>=-eq-ok (known o _) _ after in
      let (p, a', after') = >>=-eq-ok (endpoint roles (get "to" d)) _ then_to in
      let (dst, b', last) = >>=-eq-ok (known p _) _ after' in
      ok_subst (IsJoined roles) last (
        endpoint-known roles (get "from" d) _ o src a b,
        endpoint-known roles (get "to" d) _ p dst a' b',
      )
  check_edge-IsJoined roles j e h = cc

  pub check_edges-IsJoined :
      (roles : List String) (xs : Items F) (es : List Edge)
      → check_edges roles xs ≡ ok es
      → All (IsJoined roles) es
  unfolding check_edges
  check_edges-IsJoined roles Json.no_items es h = ok_subst (All (IsJoined roles)) h tt
  check_edges-IsJoined roles (Json.item j rest) es h =
      let (e, one, after) = >>=-eq-ok (check_edge roles j) _ h in
      let (more, others, last) = >>=-eq-ok (check_edges roles rest) _ after in
      ok_subst (All (IsJoined roles)) last
        (check_edge-IsJoined roles j e one, check_edges-IsJoined roles rest more others)

module _ (fl : Float) where
  open fl use {F}

  read_role-count :
      (n : ℕ) (j : Json F) (role : Role F) → read_role fl n j ≡ ok role → role.count ≡ n
  unfolding read_role
  read_role-count n (Json.object d) role h =
      let (net, a, last) = >>=-eq-ok (read_axis fl (get "net" d)) _ h in
      sym (ap (λ (r : Role F). r.count) (ok_inj last))
  read_role-count n j role h = cc

  pub read_roles-keys :
      (counts : Dict ℕ) (ds : Dict (Json F)) (roles : Dict (Role F))
      → read_roles fl counts ds ≡ ok roles
      → keys counts ≡ keys ds
      → All (λ e. 1 ≤ e.1) counts
      → (keys roles ≡ keys ds) × All (λ e. 1 ≤ e.1.count) roles
  unfolding read_roles
  read_roles-keys [] [] roles h same counted =
      ok_subst (λ (rs : Dict (Role F)). (keys rs ≡ []) × All (λ e. 1 ≤ e.1.count) rs) h (refl, tt)
  read_roles-keys [] (d ∷ ds) roles h same counted = cc same
  read_roles-keys (c ∷ cs) [] roles h same counted = cc same
  read_roles-keys ((s, n) ∷ cs) ((r, j) ∷ ds) roles h same counted =
      let (role, one, after) = >>=-eq-ok (read_role fl n j) _ h in
      let (more, others, last) = >>=-eq-ok (read_roles fl cs ds) _ after in
      let (names, counts) = read_roles-keys cs ds more others (ap tail same) counted.1 in
      ok_subst (λ (rs : Dict (Role F)). (keys rs ≡ r ∷ keys ds) × All (λ e. 1 ≤ e.1.count) rs) last
        (
          ap (λ (k : List String). r ∷ k) names,
          (rw (read_role-count n j role one) counted.0, counts),
        )
