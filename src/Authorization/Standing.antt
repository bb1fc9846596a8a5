-- ===== src/Authorization/Standing.antt =====
-- What Can answers after any assignments and revocations.
use bazusop.Base.{
  String, Bool, true, false, List, [], ◌∷◌, Option, none, some, Result, ok, err, Time, ◌≡◌, ◌⊎◌,
  ◌↔◌, inl, inr, refl, ap, sym, ◌∙◌, contains_nul, arith, string_comparable, ==_false, ==_refl,
  ==_cases, ◌==◌, ◌&&◌, if◌then◌else◌, All,
}
use bazusop.Base.Assoc.{lookup, lookup-insert, lookup-delete, option_map}
use bazusop.Authorization.{Permission, SiteRole, SiteMembership, Error, MemoryStore}
use bazusop.Authorization.Store.{
  membership_key, role_of, role_for_user_at_site, continued, assign_role, revoke_role, empty_store,
}
use bazusop.Authorization.Keys.{membership_key-injective}
use bazusop.Authorization.Service.{Service, by_role, decide, can, assign, revoke}
use bazusop.Authorization.Grants.{Grants, permission_allows_role-Grants}

-- An assignment (of a role to a user at a site of an organization) or a revocation.
pub data Change : Type 0 where
  assigns : String → String → String → SiteRole → Result Error String → Time → Change
  revokes : String → String → Change

abbrev pub user_of : Change → String
user_of (assigns user organization site role new_id now) = user
user_of (revokes user site) = user

abbrev pub apply : Change → MemoryStore → MemoryStore
apply (assigns user organization site role new_id now) s =
    (assign user organization site role new_id now s).0
apply (revokes user site) s = (revoke user site s).0

unfoldable pub run : List Change → MemoryStore → MemoryStore
run [] s = s
run (c ∷ cs) s = run cs (apply c s)

-- The role of a user at a site after a change, if `before` was the role ahead of it. An assignment whose
-- identifier cannot be drawn changes nothing.
abbrev pub standing_after : Change → String → String → Option SiteRole → Option SiteRole
standing_after (assigns u organization t role (ok id) now) user site before =
    if u == user && t == site then some role else before
standing_after (assigns u organization t role (err e) now) user site before = before
standing_after (revokes u t) user site before = if u == user && t == site then none else before

unfoldable pub standing : List Change → String → String → Option SiteRole → Option SiteRole
standing [] user site before = before
standing (c ∷ cs) user site before = standing cs user site (standing_after c user site before)

-- The role that the store has.
abbrev role_at : MemoryStore → String → String → Option SiteRole
role_at s user site = option_map (λ m. m.role) (lookup (membership_key user site) s.memberships)

same_key :
    (u t user site : String)
    → contains_nul u ≡ false
    → contains_nul user ≡ false
    → (membership_key u t == membership_key user site) ≡ (u == user && t == site)
same_key u t user site cu cuser = elim (==_cases u user) [
  | inl (a, e) ↦ elim (==_cases t site) [
    | inl (b, e') ↦ rw (a, b, e, e') (==_refl (membership_key user site))
    | inr (b, n) ↦
        rw (a, b)
          (==_false (membership_key u t) (membership_key user site)
            (λ k. n (membership_key-injective u user t site cu cuser k).1))
  ]
  | inr (a, n) ↦ rw a (
      ==_false (membership_key u t) (membership_key user site)
        (λ k. n (membership_key-injective u user t site cu cuser k).0))
]

role-continued : (m : SiteMembership) (o : Option SiteMembership) → (continued m o).role ≡ m.role
role-continued m none = refl
role-continued m (some existing) = refl

chosen :
    {A B : Type 0} (f : A → B) (b : Bool) (x : A) (y : Option A)
    → option_map f (if b then some x else y) ≡ (if b then some (f x) else option_map f y)
chosen f true x y = refl
chosen f false x y = refl

dropped :
    {A B : Type 0} (f : A → B) (b : Bool) (y : Option A)
    → option_map f (if b then none else y) ≡ (if b then none else option_map f y)
dropped f true y = refl
dropped f false y = refl

role_at-apply :
    (c : Change) (s : MemoryStore) (user site : String)
    → contains_nul (user_of c) ≡ false
    → contains_nul user ≡ false
    → role_at (apply c s) user site ≡ standing_after c user site (role_at s user site)
unfolding assign assign_role revoke revoke_role
role_at-apply (assigns u organization t role (err e) now) s user site cu cuser = refl
role_at-apply (assigns u organization t role (ok id) now) s user site cu cuser =
    let m : SiteMembership = record {
      id = id;
      user_id = u;
      organization_id = organization;
      site_id = t;
      role = role;
      created_at = now;
    } in
    let old = lookup (membership_key u t) s.memberships in
    rw
      (
        lookup-insert s.memberships (membership_key u t) (continued m old)
            (membership_key user site),
        same_key u t user site cu cuser,
        chosen (λ (x : SiteMembership). x.role) (u == user && t == site) (continued m old)
            (lookup (membership_key user site) s.memberships),
        role-continued m old,
      )
      refl
role_at-apply (revokes u t) s user site cu cuser =
    rw
      (
        lookup-delete s.memberships (membership_key u t) (membership_key user site),
        same_key u t user site cu cuser,
        dropped (λ (x : SiteMembership). x.role) (u == user && t == site)
            (lookup (membership_key user site) s.memberships),
      )
      refl

role_at-run :
    (cs : List Change) (s : MemoryStore) (user site : String)
    → All (λ (c : Change). contains_nul (user_of c) ≡ false) cs
    → contains_nul user ≡ false
    → role_at (run cs s) user site ≡ standing cs user site (role_at s user site)
unfolding run standing
role_at-run [] s user site h cuser = refl
role_at-run (c ∷ cs) s user site h cuser =
    role_at-run cs (apply c s) user site h.1 cuser
    ∙ ap (λ r. standing cs user site r) (role_at-apply c s user site h.0 cuser)

-- The grounds for access, by what was assigned and revoked: the platform's administrator, or else a role at
-- the site that grants the permission.
abbrev pub MayDo : Service → List Change → String → Permission → String → Type 0
MayDo sv cs user p site =
    (sv.platform_admin user ≡ ok true)
    ⊎ ((sv.platform_admin user ≡ ok false)
        × ((role : SiteRole) × (standing cs user site none ≡ some role) × Grants p role))

granted :
    (p : Permission) (o : Option SiteMembership)
    → (by_role p (role_of o) ≡ ok true)
      ↔ ((role : SiteRole) × (option_map (λ m. m.role) o ≡ some role) × Grants p role)
granted p none = (λ h. absurd (let b = h in cc), λ (role, e, g). absurd (let b = e in cc))
granted p (some m) = (
  λ h. (m.role, refl, (permission_allows_role-Grants p m.role).0 (ground arith)),
  λ (role, e, g).
      let same : m.role ≡ role = cc in
      let t = (permission_allows_role-Grants p role).1 g in rw (same, t) refl,
)

-- After any assignments and revocations, from an empty store, and as long as no user's identifier has a
-- NUL, Can says yes exactly to the platform's administrators and to users whose role at the site, by the
-- last change that concerns them there, grants the permission.
pub can-run :
    (sv : Service) (cs : List Change) (user : String) (p : Permission) (site : String)
    → All (λ (c : Change). contains_nul (user_of c) ≡ false) cs
    → contains_nul user ≡ false
    → (can sv (run cs empty_store) user p site ≡ ok true) ↔ MayDo sv cs user p site
unfolding can role_for_user_at_site lookup
can-run sv cs user p site clean cuser =
    let o = lookup (membership_key user site) (run cs empty_store).memberships in
    let here : option_map (λ m. m.role) o ≡ standing cs user site none =
      role_at-run cs empty_store user site clean cuser in
    rw (sym here) (decided (sv.platform_admin user) o refl)
  where
    decided :
        (r : Result Error Bool) (o : Option SiteMembership)
        → sv.platform_admin user ≡ r
        → (decide p (role_of o) (sv.platform_admin user) ≡ ok true) ↔ (
            (sv.platform_admin user ≡ ok true)
            ⊎ ((sv.platform_admin user ≡ ok false)
                × ((role : SiteRole) × (option_map (λ m. m.role) o ≡ some role) × Grants p role)))
    decided (err e) o a = (
      λ h. absurd (let b = rw a at h in cc),
      λ g. elim g [ inl t ↦ absurd (let b = t in cc) | inr t ↦ absurd (let b = t.0 in cc) ],
    )
    decided (ok true) o a = (λ h. inl a, λ g. rw a refl)
    decided (ok false) o a = (
      λ h. inr (a, (granted p o).0 (let b = rw a at h in b)),
      λ g. elim g [ inl t ↦ absurd (let b = t in cc) | inr t ↦ rw a ((granted p o).1 t.1) ],
    )
