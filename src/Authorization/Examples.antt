-- ===== src/Authorization/Examples.antt =====
-- A platform's administrator, and a user whose role at a site changes.
use bazusop.Base.{
  false, true, ◌≡◌, ◌↔◌, refl, inl, inr, ok, List, [], ◌∷◌, ◌==◌, string_comparable, contains_nul,
}
use bazusop.Authorization.Matrix.{site_role_operator, site_role_viewer}
use bazusop.Authorization.Store.{empty_store}
use bazusop.Authorization.Service.{Service, can}
use bazusop.Authorization.Standing.{Change, assigns, revokes, run, standing, MayDo, can-run}

abbrev toy : Service
toy = record { platform_admin = λ user. ok (user == "root") }

abbrev changes : List Change
changes =
    assigns "olga" "acme" "izmir" site_role_viewer (ok "m1") 5
    ∷ revokes "olga" "izmir"
    ∷ assigns "olga" "acme" "izmir" site_role_operator (ok "m2") 6
    ∷ revokes "olga" "bursa"
    ∷ []

no_nul : contains_nul "olga" ≡ false
unfolding contains_nul
no_nul = refl

can-run_example :
    (can toy (run changes empty_store) "olga" "create_jobs" "izmir" ≡ ok true)
    ↔ MayDo toy changes "olga" "create_jobs" "izmir"
can-run_example =
    can-run toy changes "olga" "create_jobs" "izmir" (no_nul, (no_nul, (no_nul, (no_nul, tt))))
      no_nul

-- Both sides hold there.
may : MayDo toy changes "olga" "create_jobs" "izmir"
unfolding standing
may = inr (refl, (site_role_operator, refl, inr (inl (inl refl, inr refl))))
