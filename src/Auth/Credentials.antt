-- ===== src/Auth/Credentials.antt =====
-- The tokens that `NewTokenAuthenticator` accepts are the tokens that `Authenticate` accepts.
use go_rocketmq_dashboard.Base.{
  none, some, List, [], ◌∷◌, ◌++◌, ==_refl, text_eq, nat_eq, drop, arith, ◌≡◌, ◌≢◌, refl, ap, ◌⊎◌,
  inl, inr, All,
}
use go_rocketmq_dashboard.Base.Dict
use go_rocketmq_dashboard.Base.Dict.{Dict, lookup-insert}
use go_rocketmq_dashboard.Base.Text.{
  Text, text, trim_space, trim_left, is_space, trim_space_idem, trim_right-append,
  trim_right-trim_space, to_lower, lower, has_prefix,
}
use go_rocketmq_dashboard.Auth.{
  Principal, TokenCredential, Authenticator, token_authenticator, AuthResult, ok, err,
  normalize_roles, add_credential, add_credentials, and_then, authenticator_of_tokens,
  new_token_authenticator, principal_or_invalid, authenticate,
}

-- The principal that a credential stands for.
unfoldable pub principal_of : TokenCredential → Principal
principal_of c = record { subject = trim_space c.subject; roles = normalize_roles c.roles }

-- Some credential of the list has this token and stands for this principal.
abbrev pub Issued : List TokenCredential → Text → Principal → Type 0
Issued [] token p = ⊥
Issued (c ∷ credentials) token p =
    ((trim_space c.token ≡ token) × (p ≡ principal_of c)) ⊎ Issued credentials token p

-- A credential that is accepted is new, has a token, and is entered under it.
add_credential_ok :
    (m m' : Dict Text Principal) (c : TokenCredential)
    → add_credential m c ≡ ok m'
    → (Dict.lookup (trim_space c.token) m ≡ none)
      × (trim_space c.token ≢ [])
      × (m' ≡ Dict.insert (trim_space c.token) (principal_of c) m)
unfolding add_credential principal_of
add_credential_ok m m' c h = (ground arith, ground arith, ground arith)

and_then_ok :
    {A : Type 0} {B : Type 0} (r : AuthResult A) (f : A → AuthResult B) {b : B}
    → and_then r f (λ e. err e) ≡ ok b
    → (a : A) × (r ≡ ok a) × (f a ≡ ok b)
unfolding and_then
and_then_ok (ok a) f h = (a, refl, h)
and_then_ok (err e) f h = cc

-- What is entered once stays.
add_credentials_keeps :
    (m m' : Dict Text Principal) (cs : List TokenCredential) (token : Text) (p : Principal)
    → add_credentials m cs ≡ ok m'
    → Dict.lookup token m ≡ some p
    → Dict.lookup token m' ≡ some p
unfolding add_credentials
add_credentials_keeps m m' [] token p h e = ground arith
add_credentials_keeps m m' (c ∷ cs) token p h e =
    let (m1, first, rest) = and_then_ok (add_credential m c) (λ more. add_credentials more cs) h in
    let (fresh, _, entered) = add_credential_ok m m1 c first in
    add_credentials_keeps m1 m' cs token p rest
      (ground (arith, lookup-insert (trim_space c.token) token (principal_of c) m))

add_credentials-All :
    (m m' : Dict Text Principal) (cs : List TokenCredential)
    → add_credentials m cs ≡ ok m'
    → All
        (λ c.
          (trim_space c.token ≢ []) × (Dict.lookup (trim_space c.token) m' ≡ some (principal_of c)))
        cs
unfolding add_credentials
add_credentials-All m m' [] h = tt
add_credentials-All m m' (c ∷ cs) h =
    let (m1, first, rest) = and_then_ok (add_credential m c) (λ more. add_credentials more cs) h in
    let (fresh, solid, entered) = add_credential_ok m m1 c first in
    (
      (
        solid,
        add_credentials_keeps m1 m' cs (trim_space c.token) (principal_of c) rest (
            ground (
              arith,
              lookup-insert (trim_space c.token) (trim_space c.token) (principal_of c) m,
              ==_refl (trim_space c.token),
            )),
      ),
      add_credentials-All m1 m' cs rest,
    )

add_credentials_only :
    (m m' : Dict Text Principal) (cs : List TokenCredential) (token : Text) (p : Principal)
    → add_credentials m cs ≡ ok m'
    → Dict.lookup token m' ≡ some p
    → (Dict.lookup token m ≡ some p) ⊎ Issued cs token p
unfolding add_credentials
add_credentials_only m m' [] token p h e = inl (ground arith)
add_credentials_only m m' (c ∷ cs) token p h e =
    let (m1, first, rest) = and_then_ok (add_credential m c) (λ more. add_credentials more cs) h in
    let (fresh, solid, entered) = add_credential_ok m m1 c first in
    elim (add_credentials_only m1 m' cs token p rest e) [
      | inr issued ↦ inr (inr issued)
      | inl before ↦ ground (arith, lookup-insert (trim_space c.token) token (principal_of c) m)
    ]

bearer : Text → Text
bearer token = text "Bearer " ++ token

module _ (token : Text) (solid : trim_space token ≢ []) where
  trim_space-bearer : trim_space (bearer (trim_space token)) ≡ bearer (trim_space token)
  unfolding bearer trim_space trim_left is_space nat_eq
  trim_space-bearer =
      trim_right-append (text "Bearer ") (trim_space token) solid (trim_right-trim_space token)

  authenticate-bearer :
      (tokens : Dict Text Principal)
      → authenticate (token_authenticator tokens) (bearer (trim_space token))
        ≡ principal_or_invalid (Dict.lookup (trim_space token) tokens)
  unfolding authenticate
  authenticate-bearer tokens =
      rw trim_space-bearer (unfold bearer to_lower lower has_prefix nat_eq in rw trim_space_idem)

authenticator_ok :
    (cs : List TokenCredential) {a : Authenticator}
    → new_token_authenticator cs ≡ ok a
    → (tokens : Dict Text Principal) × (add_credentials [] cs ≡ ok tokens)
      × (authenticator_of_tokens tokens ≡ a)
unfolding new_token_authenticator
authenticator_ok cs h =
    let (tokens, e, f) =
      and_then_ok (add_credentials [] cs) (λ tokens. ok (authenticator_of_tokens tokens)) h in
    (tokens, e, ground arith)

found_token :
    (tokens : Dict Text Principal) (token : Text) (p : Principal)
    → trim_space token ≢ []
    → Dict.lookup (trim_space token) tokens ≡ some p
    → authenticate (authenticator_of_tokens tokens) (bearer (trim_space token)) ≡ ok p
unfolding authenticator_of_tokens Dict.lookup principal_or_invalid
found_token [] token p solid e = cc
found_token (entry ∷ tokens) token p solid e =
    rw (authenticate-bearer token solid (entry ∷ tokens)) (ap principal_or_invalid e)

authenticate-All :
    (a : Authenticator)
    → (tokens : Dict Text Principal) (cs : List TokenCredential)
    → authenticator_of_tokens tokens ≡ a
    → All
        (λ c.
          (trim_space c.token ≢ [])
          × (Dict.lookup (trim_space c.token) tokens ≡ some (principal_of c)))
        cs
    → All (λ c. authenticate a (text "Bearer " ++ trim_space c.token) ≡ ok (principal_of c)) cs
unfolding bearer
authenticate-All a tokens [] e h = tt
authenticate-All a tokens (c ∷ cs) e ((solid, found), h) = (
  rw (← e) (found_token tokens c.token (principal_of c) solid found),
  authenticate-All a tokens cs e h,
)

-- Every credential of an accepted list logs in: its token as a bearer token gives the principal
-- with its subject and its cleaned roles.
pub authenticate_issued :
    (credentials : List TokenCredential) (a : Authenticator)
    → new_token_authenticator credentials ≡ ok a
    → All
        (λ c. authenticate a (text "Bearer " ++ trim_space c.token) ≡ ok (principal_of c))
        credentials
authenticate_issued credentials a h =
    let (tokens, e, f) = authenticator_ok credentials h in
    authenticate-All a tokens credentials f (add_credentials-All [] tokens credentials e)

authenticate_found :
    (tokens : Dict Text Principal) (header : Text) (p : Principal)
    → authenticate (authenticator_of_tokens tokens) header ≡ ok p
    → Dict.lookup (trim_space (drop 7 (trim_space header))) tokens ≡ some p
unfolding authenticate authenticator_of_tokens principal_or_invalid
authenticate_found [] header p h = cc
authenticate_found (entry ∷ tokens) header p h = ground arith

-- Nobody else logs in: a header that is accepted carries, behind its scheme, the token of a
-- credential of the list, and gives that credential's principal.
pub authenticate_only-Issued :
    (credentials : List TokenCredential) (a : Authenticator) (header : Text) (p : Principal)
    → new_token_authenticator credentials ≡ ok a
    → authenticate a header ≡ ok p
    → Issued credentials (trim_space (drop 7 (trim_space header))) p
authenticate_only-Issued credentials a header p h k =
    let (tokens, e, f) = authenticator_ok credentials h in
    elim (add_credentials_only [] tokens credentials _ p e
      (authenticate_found tokens header p (rw f k))) [
        | inl none_before ↦ absurd (unfold Dict.lookup in cc)
        | inr issued ↦ issued
      ]
