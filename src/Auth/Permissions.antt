-- ===== src/Auth/Permissions.antt =====
-- What `allows` and `normalizeRoles` say of the roles that a credential names.
use go_rocketmq_dashboard.Base.{
  Bool, false, ◌||◌, List, [], ◌∷◌, ◌++◌, if◌then◌else◌, ◌==◌, text_eq, contains, any, arith, ◌≡◌,
  refl, sym, ◌∙◌,
}
use go_rocketmq_dashboard.Base.Sort.{sort_stable, any-sort_stable}
use go_rocketmq_dashboard.Base.Text.{Text, text, text_less, trim_space, to_lower}
use go_rocketmq_dashboard.Auth.{
  Permission, topic_write, runtime_config, audit_read, collect_roles, normalize_roles,
  some_role_allows, allows,
}

-- The role that a permission is for.
pub role_of : Permission → Text
role_of topic_write = text "operator"
role_of runtime_config = text "config-admin"
role_of audit_read = text "auditor"

-- Some role of the list, cleaned, is the given one.
abbrev pub names_role : Text → List Text → Bool
names_role role = any (λ r. to_lower (trim_space r) == role)

contains-append :
    (xs ys : List Text) (a : Text) → contains (xs ++ ys) a ≡ (contains xs a || contains ys a)
contains-append [] ys a = refl
contains-append (x ∷ xs) ys a = ground (arith, contains-append xs ys a)

contains-any : (xs : List Text) (a : Text) → contains xs a ≡ any (λ x. x == a) xs
contains-any [] a = refl
contains-any (x ∷ xs) a = ground (arith, contains-any xs a)

contains-collect_roles :
    (roles kept : List Text) (role : Text)
    → (role == []) ≡ false
    → contains (collect_roles kept roles) role ≡ (contains kept role || names_role role roles)
unfolding collect_roles
contains-collect_roles [] kept role h = ground arith
contains-collect_roles (r ∷ roles) kept role h =
    let clean = to_lower (trim_space r) in
    contains-collect_roles roles
      (if clean == [] || contains kept clean then kept else kept ++ clean ∷ []) role h
    ∙ ground (arith, contains-append kept (clean ∷ []) role)

contains-normalize_roles :
    (roles : List Text) (role : Text)
    → (role == []) ≡ false
    → contains (normalize_roles roles) role ≡ names_role role roles
unfolding normalize_roles
contains-normalize_roles roles role h =
    contains-any (sort_stable text_less (collect_roles [] roles)) role
    ∙ any-sort_stable text_less (λ x. x == role) (collect_roles [] roles)
    ∙ (sym (contains-any (collect_roles [] roles) role) ∙ contains-collect_roles roles [] role h)

some_role_allows-contains :
    (roles : List Text) (permission : Permission)
    → some_role_allows roles permission
      ≡ (contains roles (text "admin") || contains roles (role_of permission))
unfolding some_role_allows role_of
some_role_allows-contains [] topic_write = refl
some_role_allows-contains [] _ = refl
some_role_allows-contains (r ∷ roles) topic_write =
    ground (arith, some_role_allows-contains roles topic_write)
some_role_allows-contains (r ∷ roles) runtime_config =
    ground (arith, some_role_allows-contains roles runtime_config)
some_role_allows-contains (r ∷ roles) audit_read =
    ground (arith, some_role_allows-contains roles audit_read)

admin-ne-nil : (text "admin" == []) ≡ false
unfolding text_eq
admin-ne-nil = refl

role_of-ne-nil : (permission : Permission) → (role_of permission == []) ≡ false
unfolding role_of text_eq
role_of-ne-nil topic_write = refl
role_of-ne-nil runtime_config = refl
role_of-ne-nil audit_read = refl

-- A credential's principal may do what `admin` or the permission's own role allows, and nothing
-- else: whether it does depends only on whether the configured list names one of the two, up to
-- spaces at its ends and ASCII case, wherever and however often.
pub allows-normalize_roles :
    (subject : Text) (roles : List Text) (permission : Permission)
    → allows (record { subject = subject; roles = normalize_roles roles }) permission
      ≡ (names_role (text "admin") roles || names_role (role_of permission) roles)
unfolding allows
allows-normalize_roles subject roles permission =
    some_role_allows-contains (normalize_roles roles) permission
    ∙ cc (
      contains-normalize_roles roles (text "admin") admin-ne-nil,
      contains-normalize_roles roles (role_of permission) (role_of-ne-nil permission),
    )
