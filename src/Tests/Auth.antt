-- ===== src/Tests/Auth.antt =====
-- Credentials and tokens at concrete inputs.
use go_rocketmq_dashboard.Base.Sort.{sort_stable}
use go_rocketmq_dashboard.Base.Dict
use go_rocketmq_dashboard.Base.{◌≡◌, refl, ◌||◌, List, [], ◌∷◌, ◌++◌, All, text_eq, nat_eq}
use go_rocketmq_dashboard.Base.Text.{text, trim_space, trim_left, trim_right, is_space, to_lower}
use go_rocketmq_dashboard.Auth.{
  audit_read, TokenCredential, Authenticator, token_authenticator, ok, new_token_authenticator,
  authenticate, allows, normalize_roles, add_credentials, add_credential,
}
use go_rocketmq_dashboard.Auth.Permissions.{names_role, role_of, allows-normalize_roles}
use go_rocketmq_dashboard.Auth.Credentials.{
  principal_of, Issued, authenticate_issued, authenticate_only-Issued,
}

abbrev credentials : List TokenCredential
credentials =
    record { token = text " t1 "; subject = text "ann"; roles = text "Operator" ∷ [] }
    ∷ record {
      token = text "t2";
      subject = text "bob";
      roles = text "auditor" ∷ text "auditor " ∷ [];
    }
    ∷ []

abbrev authenticator : Authenticator
authenticator = token_authenticator (
    (
      text "t1",
      principal_of
          (record { token = text " t1 "; subject = text "ann"; roles = text "Operator" ∷ [] }),
    )
    ∷ (
      text "t2",
      principal_of (record {
        token = text "t2";
        subject = text "bob";
        roles = text "auditor" ∷ text "auditor " ∷ [];
      }),
    )
    ∷ [])

credentials_accepted : new_token_authenticator credentials ≡ ok authenticator
unfolding new_token_authenticator add_credentials add_credential text_eq trim_space trim_right
    trim_left is_space nat_eq Dict.lookup normalize_roles sort_stable to_lower Dict.insert
    principal_of
credentials_accepted = refl

authenticate_issued_example :
    All
      (λ c. authenticate authenticator (text "Bearer " ++ trim_space c.token) ≡ ok (principal_of c))
      credentials
authenticate_issued_example = authenticate_issued credentials authenticator credentials_accepted

ann_logs_in :
    authenticate authenticator (text "Bearer t1")
    ≡ ok (
        principal_of
          (record { token = text " t1 "; subject = text "ann"; roles = text "Operator" ∷ [] }))
unfolding trim_space trim_right trim_left is_space nat_eq
ann_logs_in = authenticate_issued_example.0

authenticate_only-Issued_example : Issued credentials (text "t1") (
    principal_of
      (record { token = text " t1 "; subject = text "ann"; roles = text "Operator" ∷ [] }))
unfolding trim_space trim_right trim_left is_space nat_eq
authenticate_only-Issued_example =
    authenticate_only-Issued credentials authenticator (text "Bearer t1") _ credentials_accepted
      ann_logs_in

allows-normalize_roles_example :
    allows
      (record {
        subject = text "ann";
        roles = normalize_roles (text " Auditor" ∷ text "operator" ∷ []);
      })
      audit_read
    ≡ (names_role (text "admin") (text " Auditor" ∷ text "operator" ∷ [])
        || names_role (role_of audit_read) (text " Auditor" ∷ text "operator" ∷ []))
allows-normalize_roles_example =
    allows-normalize_roles (text "ann") (text " Auditor" ∷ text "operator" ∷ []) audit_read
