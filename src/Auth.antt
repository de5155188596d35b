-- ===== src/Auth.antt =====
-- internal/server/auth_audit.go, the first half: principals, their permissions, and the static
-- bearer tokens that authenticate them. Reading the credential file is left out.
pub mod Credentials
pub mod Permissions
use go_rocketmq_dashboard.Base.{
  ℕ, Bool, true, false, not, ◌&&◌, ◌||◌, Option, none, some, List, [], ◌∷◌, ◌++◌, if◌then◌else◌,
  ◌==◌, text_eq, contains, drop, is_nil,
}
use go_rocketmq_dashboard.Base.Dict
use go_rocketmq_dashboard.Base.Dict.{Dict}
use go_rocketmq_dashboard.Base.Sort.{sort_stable}
use go_rocketmq_dashboard.Base.Text.{Text, text, text_less, trim_space, to_lower, has_prefix}

pub data Permission : Type 0 where
  topic_write runtime_config audit_read : Permission

pub record Principal : Type 0 where
  pub subject : Text
  pub roles : List Text

pub record TokenCredential : Type 0 where
  pub token : Text
  pub subject : Text
  pub roles : List Text

-- The implementations of `Authenticator`.
pub data Authenticator : Type 0 where
  deny_authenticator : Authenticator
  token_authenticator : Dict Text Principal → Authenticator

-- The errors, a constructor for each message.
pub data AuthError : Type 0 where
  no_credentials_configured bearer_required token_invalid : AuthError
  token_and_subject_required token_repeated : AuthError
  roles_missing : Text → AuthError

pub data AuthResult (A : Type 0) : Type 0 where
  ok : A → AuthResult A
  err : AuthError → AuthResult A

-- The loop of `normalizeRoles`; the roles kept so far are also the set of those seen.
unfoldable pub collect_roles : List Text → List Text → List Text
collect_roles kept [] = kept
collect_roles kept (r ∷ roles) =
    let role = to_lower (trim_space r) in
    collect_roles (if role == [] || contains kept role then kept else kept ++ role ∷ []) roles

unfoldable pub normalize_roles : List Text → List Text
unfolding collect_roles
normalize_roles roles = sort_stable text_less (collect_roles [] roles)

-- One round of the loop of `NewTokenAuthenticator`.
unfoldable pub add_credential :
    Dict Text Principal → TokenCredential → AuthResult (Dict Text Principal)
add_credential tokens c =
    let token = trim_space c.token in
    let subject = trim_space c.subject in
    let roles = normalize_roles c.roles in
    if token == [] || subject == []
    then err token_and_subject_required
    else elim (Dict.lookup token tokens) [
      | some _ ↦ err token_repeated
      | none ↦
          if is_nil roles
          then err (roles_missing subject)
          else ok (Dict.insert token (record { subject = subject; roles = roles }) tokens)
    ]

unfoldable pub and_then {ℓ} :
    {A : Type 0} {B : Type ℓ} → AuthResult A → (A → B) → (AuthError → B) → B
and_then (ok a) f g = f a
and_then (err e) f g = g e

unfoldable pub add_credentials :
    Dict Text Principal → List TokenCredential → AuthResult (Dict Text Principal)
unfolding and_then
add_credentials tokens [] = ok tokens
add_credentials tokens (c ∷ credentials) =
    and_then (add_credential tokens c) (λ more. add_credentials more credentials) (λ e. err e)

unfoldable pub authenticator_of_tokens : Dict Text Principal → Authenticator
authenticator_of_tokens [] = deny_authenticator
authenticator_of_tokens (entry ∷ tokens) = token_authenticator (entry ∷ tokens)

unfoldable pub new_token_authenticator : List TokenCredential → AuthResult Authenticator
unfolding and_then authenticator_of_tokens
new_token_authenticator credentials =
    and_then (add_credentials [] credentials) (λ tokens. ok (authenticator_of_tokens tokens))
      (λ e. err e)

principal_or_invalid : Option Principal → AuthResult Principal
principal_or_invalid none = err token_invalid
principal_or_invalid (some p) = ok p

-- `Authenticate`, on the value of the `Authorization` header. The lower-case letters of the prefix
-- are those of ASCII letters only, so its seven bytes are seven code points.
pub authenticate : Authenticator → Text → AuthResult Principal
unfolding principal_or_invalid
authenticate deny_authenticator header = err no_credentials_configured
authenticate (token_authenticator tokens) header =
    let authorization = trim_space header in
    if not (has_prefix (to_lower authorization) (text "bearer "))
    then err bearer_required
    else principal_or_invalid (Dict.lookup (trim_space (drop 7 authorization)) tokens)

role_allows : Text → Permission → Bool
role_allows role topic_write = role == text "operator"
role_allows role runtime_config = role == text "config-admin"
role_allows role audit_read = role == text "auditor"

-- The loop of `allows` over the roles.
some_role_allows : List Text → Permission → Bool
unfolding role_allows
some_role_allows [] permission = false
some_role_allows (role ∷ roles) permission =
    role == text "admin" || role_allows role permission || some_role_allows roles permission

pub allows : Principal → Permission → Bool
unfolding some_role_allows
allows p permission = some_role_allows p.roles permission
