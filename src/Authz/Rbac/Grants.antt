-- ===== src/Authz/Rbac/Grants.antt =====
-- What RBAC grants, and that the built-in roles grant no batch.
use flow_first.Base.{
  String, true, false, Option, some, List, [], ◌∷◌, ◌==◌, ◌≡◌, refl, ◌↔◌, ◌≢◌, any, any-Member,
  Member-any, Member, ◌⊎◌, Option-cases, arith, eq_iff, eq_refl, sym, Bool-cases, inl, inr, ap, ◌∙◌,
}
use flow_first.Base.Text.{is_empty, concat, split_last, has_char}
use flow_first.Base.Text.Laws.{split_last-concat_colon}
use flow_first.Base.Dict.{Dict, get, get_or}
use flow_first.Authz.Identity.{or_empty}
use flow_first.Authz.Glob.{fnmatchcase}
use flow_first.Authz.Glob.Plain.{is_plain, fnmatchcase-eq}
use flow_first.Authz.Rbac.{
  builtin_roles, publisher_permissions, reader_permissions, admin_permissions, operator_permissions,
  permission_grants, role_grants, decide_roles, rbac_check,
}

module _ (roles identity_roles : Dict (List String)) (identity action resource : String) where
  abbrev assigned : List String
  assigned = get_or identity_roles identity []

  -- The permission is the resource and the action with a colon between them; or what stands behind its last
  -- colon is the action, and what stands before it a pattern that matches the resource.
  abbrev pub Covers : String → Type 0
  Covers perm =
      (perm ≡ concat (resource ∷ ":" ∷ action ∷ []))
      ⊎ ((pattern_text : String) × (split_last b':' perm ≡ some (pattern_text, action))
          × (fnmatchcase resource pattern_text ≡ true))

  permission_grants-Covers :
      (perm : String) → permission_grants action resource perm ≡ true → Covers perm
  unfolding permission_grants
  permission_grants-Covers perm h =
      elim (Bool-cases (perm == concat (resource ∷ ":" ∷ action ∷ []))) [
        | inl whole ↦ inl ((eq_iff perm _).0 whole)
        | inr other ↦ elim (Option-cases (split_last b':' perm)) [
          | inl no_colon ↦ absurd (ground arith)
          | inr ((res_pat, act), parts) ↦
              let same : act == action ≡ true = ground arith in
              inr (
                res_pat,
                parts ∙ ap (λ (a : String). some (res_pat, a)) ((eq_iff act action).0 same),
                ground arith,
              )
        ]
      ]

  Covers-permission_grants :
      (perm : String) → Covers perm → permission_grants action resource perm ≡ true
  unfolding permission_grants
  Covers-permission_grants perm (inl whole) = rw ((eq_iff perm _).1 whole) refl
  Covers-permission_grants perm (inr (res_pat, parts, matches)) = ground (arith, eq_refl action)

  -- some role that the identity has holds a permission that covers the action on the resource
  abbrev pub Granted : Type 0
  Granted =
      (role : String) × Member role assigned
      × (perm : String) × Member perm (get_or roles role [])
      × Covers perm

  decide-Granted :
      (names : List String)
      → any (role_grants roles action resource) names ≡ true
      → (role : String) × Member role names
        × (perm : String) × Member perm (get_or roles role [])
        × Covers perm
  unfolding role_grants
  decide-Granted names h =
      let (role, m, g) = any-Member (role_grants roles action resource) names h in
      let (perm, n, p) = any-Member (permission_grants action resource) (get_or roles role []) g in
      (role, m, perm, n, permission_grants-Covers perm p)

  Granted-decide :
      (names : List String) (role perm : String)
      → Member role names
      → Member perm (get_or roles role [])
      → Covers perm
      → any (role_grants roles action resource) names ≡ true
  unfolding role_grants
  Granted-decide names role perm m n p =
      Member-any (role_grants roles action resource) role names m (
        Member-any (permission_grants action resource) perm (get_or roles role []) n
          (Covers-permission_grants perm p))

  decide_roles-any :
      (names : List String)
      → decide_roles roles action resource names ≡ some true
      → any (role_grants roles action resource) names ≡ true
  decide_roles-any [] h = cc
  decide_roles-any (n ∷ names) h = ground arith

  any-decide_roles :
      (names : List String)
      → any (role_grants roles action resource) names ≡ true
      → decide_roles roles action resource names ≡ some true
  unfolding any
  any-decide_roles [] h = cc
  any-decide_roles (n ∷ names) h = rw h

  -- RBAC grants an action on a resource to an identity exactly when one of its roles has a permission that is
  -- the resource and the action with a colon between them, or whose part behind the last colon is the
  -- action and whose part before it is a pattern that matches the resource.
  pub rbac_check-Granted :
      is_empty identity ≡ false
      → (rbac_check (some identity) action resource roles identity_roles ≡ some true) ↔ Granted
  unfolding rbac_check
  rbac_check-Granted given = (
    λ h. decide-Granted assigned (decide_roles-any assigned (ground arith)),
    λ (role, m, perm, n, p).
        rw (given, rbac_check)
          (any-decide_roles assigned (Granted-decide assigned role perm m n p)),
  )

-- A permission for a resource with no special character and an action with no colon grants that action on
-- that resource, and no other action without a colon and no other resource.
pub permission_grants-plain :
    (res act action resource : String)
    → is_plain res ≡ true
    → has_char b':' act ≡ false
    → has_char b':' action ≡ false
    → (permission_grants action resource (concat (res ∷ ":" ∷ act ∷ [])) ≡ true)
      ↔ ((resource ≡ res) × (action ≡ act))
unfolding permission_grants
permission_grants-plain res act action resource plain no_colon no_colon' = (
  λ h. elim (Bool-cases (concat (res ∷ ":" ∷ act ∷ []) == concat (resource ∷ ":" ∷ action ∷ []))) [
    | inl same ↦
        let e = ap (split_last b':') ((eq_iff _ _).0 same) in
        let f : some (res, act) ≡ some (resource, action) =
          sym (split_last-concat_colon res act no_colon)
          ∙ e
          ∙ split_last-concat_colon resource action no_colon' in
        (ground arith, ground arith)
    | inr differ ↦ ground (
      arith,
      split_last-concat_colon res act no_colon,
      eq_iff act action,
      fnmatchcase-eq resource res plain,
    )
  ],
  λ (p, q). rw (p, q) (ground (arith, eq_refl (concat (res ∷ ":" ∷ act ∷ [])))),
)

publisher-no_batch : any (permission_grants "publish" "flow:*") publisher_permissions ≡ false
unfolding any permission_grants split_last fnmatchcase
publisher-no_batch = refl

reader-no_batch : any (permission_grants "publish" "flow:*") reader_permissions ≡ false
unfolding any permission_grants split_last fnmatchcase
reader-no_batch = refl

admin-no_batch : any (permission_grants "publish" "flow:*") admin_permissions ≡ false
unfolding any permission_grants split_last fnmatchcase
admin-no_batch = refl

operator-no_batch : any (permission_grants "publish" "flow:*") operator_permissions ≡ false
unfolding any permission_grants split_last fnmatchcase
operator-no_batch = refl

nothing-no_batch : any (permission_grants "publish" "flow:*") [] ≡ false
unfolding any
nothing-no_batch = refl

builtin_roles-no_batch : (role : String) → role_grants builtin_roles "publish" "flow:*" role ≡ false
unfolding role_grants get
builtin_roles-no_batch role = ground (
  arith, publisher-no_batch, reader-no_batch, admin-no_batch, operator-no_batch, nothing-no_batch,
)

builtin_names-no_batch :
    (names : List String) → any (role_grants builtin_roles "publish" "flow:*") names ≡ false
unfolding any
builtin_names-no_batch [] = refl
builtin_names-no_batch (n ∷ names) =
    ground (arith, builtin_roles-no_batch n, builtin_names-no_batch names)

decide_roles-no_batch :
    (names : List String) → decide_roles builtin_roles "publish" "flow:*" names ≢ some true
decide_roles-no_batch [] h = cc
decide_roles-no_batch (n ∷ names) h = ground (arith, builtin_names-no_batch (n ∷ names))

-- With the built-in roles alone, RBAC grants nobody the publishing to `flow:*` that the batch endpoint
-- asks for, whatever roles the identity has.
pub rbac_check-no_batch :
    (identity : Option String) (identity_roles : Dict (List String))
    → rbac_check identity "publish" "flow:*" builtin_roles identity_roles ≢ some true
unfolding rbac_check
rbac_check-no_batch identity identity_roles h =
    decide_roles-no_batch (get_or identity_roles (or_empty identity) []) (ground arith)
