-- ===== src/Authorization/Store.antt =====
-- The methods of authorization.MemoryStore.
use bazusop.Base.{
  String, List, [], Option, none, some, Result, ok, err, ◌==◌, string_comparable, filter,
}
use bazusop.Base.Assoc.{lookup, insert, delete, values}
use bazusop.Authorization.{SiteRole, SiteMembership, Error, membership_not_found, MemoryStore}

unfoldable pub append : String → String → String
append String.[] t = t
append (String.◌∷◌ c s) t = String.◌∷◌ c (append s t)

unfoldable pub membership_key : String → String → String
unfolding append
membership_key user site = append user (append "\0" site)

abbrev pub empty_store : MemoryStore
empty_store = record { memberships = [] }

-- The membership that replaces `existing`.
abbrev pub continued : SiteMembership → Option SiteMembership → SiteMembership
continued m none = m
continued m (some existing) = record m { id = existing.id; created_at = existing.created_at }

unfoldable pub assign_role : MemoryStore → SiteMembership → MemoryStore × Result Error (Unit {0})
assign_role s m =
    let key = membership_key m.user_id m.site_id in
    (
      record s { memberships = insert key (continued m (lookup key s.memberships)) s.memberships },
      ok tt,
    )

unfoldable pub revoke_role : MemoryStore → String → String → MemoryStore × Result Error (Unit {0})
revoke_role s user site =
    (record s { memberships = delete (membership_key user site) s.memberships }, ok tt)

abbrev pub role_of : Option SiteMembership → Result Error SiteRole
role_of none = err membership_not_found
role_of (some m) = ok m.role

unfoldable pub role_for_user_at_site : MemoryStore → String → String → Result Error SiteRole
role_for_user_at_site s user site = role_of (lookup (membership_key user site) s.memberships)

unfoldable pub memberships_for_user : MemoryStore → String → List SiteMembership
memberships_for_user s user = filter (λ m. m.user_id == user) (values s.memberships)
