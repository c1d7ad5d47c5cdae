-- ===== src/Auth/Tests.antt =====
-- Sign-ins on a database in memory, with a payload text that spells its fields out in three letters.
use opencode_rc.Common.{
  ℕ, zero, suc, ◌+◌, ◌/◌, ◌<◌, ◌≤◌, Bool, true, false, ltb, Text, text, text_eq, every, is_space,
  starts_with, drop, length, take, [], ◌∷◌, ◌++◌, List, Option, none, some, ◌≡◌, ◌≢◌, ◌⊎◌, inl, inr,
  sym, refl, ap, arith, if◌then◌else◌,
}
use opencode_rc.Json.{Json, obj, str, Fields, field, end}
use opencode_rc.Redis.{run}
use opencode_rc.Redis.Memory.{Memory, memory, empty}
use opencode_rc.Tokens.{AccessClaims, create_chain, key_chain, key_rt}
use opencode_rc.Tokens.Examples.{refresh_json, code_json, hash, ann}
use mathlib.Core.Option.{some-injective}
use opencode_rc.Tokens.Rotate.{Knows}
use opencode_rc.Tokens.SignIn.{create_chain-IsFresh}
use opencode_rc.Auth.Signed.{IsSigned}
use opencode_rc.Auth.AccessToken.{verify_code_verifier, sign_access_token}
use opencode_rc.Auth.Origins.{Url, UrlParser, path_base, validate_return_to}
use opencode_rc.Auth.Routes.{
  AuthRequest, Reply, error, token_response, to_app, admitted, unauthorized, auth_middleware,
  bearer_token, string_field, read_protocol,
}
use opencode_rc.Auth.Provider.{Provider, SignInConfig, Visit, Fetched, answered}
use opencode_rc.Auth.Proofs.SignIn.{exchange_once, Brings, carried, post}
use opencode_rc.Auth.Proofs.Refresh.{logout_refuses, Carries, refresh, logout}
use opencode_rc.Auth.Proofs.Admission.{admit_signed, admit_sound, in_header, in_query}
use opencode_rc.Auth.Proofs.ReturnTo.{validate_return_to_sound, IsOwnPath, IsAllowed}
use opencode_rc.Auth.Proofs.Provider.{callback_sound, callback, HandsOut}
use opencode_rc.Auth.Proofs.App.{app_token_sound, IsAppSignIn}
use opencode_rc.Auth.Spelled.{spelled}

abbrev ann_claims : AccessClaims
ann_claims = record { uid = b'a' ∷ []; email = b'e' ∷ []; name = b'n' ∷ []; sid = none }

abbrev secret : Text
secret = b's' ∷ []

abbrev code : Text
code = b'x' ∷ []

abbrev first : Text
first = b'1' ∷ []

-- A PKCE verifier, which this hash leaves as it is.
abbrev as_ : ℕ → Text
as_ zero = []
as_ (suc n) = b'a' ∷ as_ n

abbrev verifier : Text
verifier = as_ 43

-- A request with two fields in its body.
abbrev request : (name value name' value' : Text) → AuthRequest
request name value name' value' = record {
  authorization = none;
  upgrade = none;
  access_token = none;
  protocol = some (b'1' ∷ []);
  body = some (obj (field name (str value) (field name' (str value') end)));
}

abbrev with_verifier : Text → AuthRequest
with_verifier v = request (text "code") code (text "code_verifier") v

verifier-Brings :
    Brings spelled secret 60 hash refresh_json code_json 3600 60 memory code
      (with_verifier verifier)
unfolding read_protocol string_field text text_eq every opencode_rc.Auth.Routes.digits_value
    opencode_rc.Json.get_of
verifier-Brings = record { speaks = omega arith; brings = refl }

other-Brings :
    Brings spelled secret 60 hash refresh_json code_json 3600 60 memory code
      (with_verifier (b'b' ∷ []))
unfolding read_protocol string_field text text_eq every opencode_rc.Auth.Routes.digits_value
    opencode_rc.Json.get_of
other-Brings = record { speaks = omega arith; brings = refl }

abbrev in_browser : Memory
in_browser =
    carried spelled secret 60 hash refresh_json code_json 3600 60 memory code ann_claims verifier
      empty 10

abbrev posted : AuthRequest → Memory → Reply × Memory
posted req db =
    post spelled secret 60 hash refresh_json code_json 3600 60 memory (b'c' ∷ []) first 5000 req db

exchange_once_example :
    ((posted (with_verifier verifier) in_browser).0
      ≡ token_response
          (sign_access_token spelled (record ann_claims { sid = some (b'c' ∷ []) }) secret 60 5000)
          first
          60)
    × ((posted (with_verifier (b'b' ∷ [])) (posted (with_verifier verifier) in_browser).1).0
        ≡ error 400 "invalid_grant")
unfolding verify_code_verifier opencode_rc.Auth.AccessToken.is_code_verifier string_field
    opencode_rc.Json.get_of opencode_rc.Json.get text text_eq every
exchange_once_example =
    exchange_once spelled secret 60 hash refresh_json code_json 3600 60 memory code ann_claims
      verifier empty 10 (omega arith) (b'c' ∷ []) first 5000 (with_verifier verifier)
      verifier-Brings (b'c' ∷ []) first 5000 (with_verifier (b'b' ∷ [])) other-Brings

-- The database behind a sign-in.
abbrev signed_in : Memory
signed_in =
    (run memory (create_chain hash refresh_json code_json 3600 60 ann.chain first ann_claims)
      empty).1

abbrev with_token : AuthRequest
with_token = request (text "refresh_token") first [] []

first-Carries :
    Carries spelled secret 60 hash refresh_json code_json 3600 60 memory first with_token
unfolding read_protocol string_field text text_eq every opencode_rc.Auth.Routes.digits_value
    opencode_rc.Json.get_of
first-Carries = record { speaks = omega arith; carries = refl }

first_known : Knows memory hash refresh_json code_json 3600 60 first ann signed_in
first_known =
    (create_chain-IsFresh memory hash refresh_json code_json 3600 60 ann.chain first ann_claims
      empty (omega arith) refl refl).1.known

abbrev out : Memory
out = (logout spelled secret 60 hash refresh_json code_json 3600 60 memory with_token signed_in).1

logout_refuses_example :
    refresh spelled secret 60 hash refresh_json code_json 3600 60 memory
      (b'2' ∷ [])
      5000
      with_token
      out
    ≡ (error 401 "invalid_grant", out)
logout_refuses_example =
    logout_refuses spelled secret 60 hash refresh_json code_json 3600 60 memory first first
      (b'2' ∷ []) ann ann 5000 with_token with_token signed_in first-Carries.carries first_known
      first-Carries first_known refl

abbrev access : Text
access = sign_access_token spelled (record ann_claims { sid = some (b'c' ∷ []) }) secret 60 5000

abbrev with_access : AuthRequest
with_access = record (request [] [] [] []) { authorization = some (text "Bearer " ++ access) }

admit_signed_example :
    auth_middleware spelled secret 60 with_access 7000
    ≡ admitted (b'a' ∷ []) (record ann_claims { sid = some (b'c' ∷ []) }) access
admit_signed_example =
    admit_signed spelled secret 60 (record ann_claims { sid = some (b'c' ∷ []) }) 5000 7000
      with_access (in_header refl)

abbrev socket_access : AuthRequest
socket_access = record (request [] [] [] []) {
  upgrade = some (text "WebSocket");
  access_token = some access;
}

-- The same on a WebSocket.
admitted_socket :
    auth_middleware spelled secret 60 socket_access 7000
    ≡ admitted (b'a' ∷ []) (record ann_claims { sid = some (b'c' ∷ []) }) access
unfolding opencode_rc.Common.lower text opencode_rc.Common.starts_with
admitted_socket =
    admit_signed spelled secret 60 (record ann_claims { sid = some (b'c' ∷ []) }) 5000 7000
      socket_access (in_query refl refl refl)

admit_sound_example :
    (bearer_token with_access ≡ some access)
    × (ann_claims.uid ≡ ann_claims.uid)
    × IsSigned spelled secret access 7000 (record ann_claims { sid = some (b'c' ∷ []) })
admit_sound_example =
    admit_sound spelled secret 60 with_access 7000 (b'a' ∷ [])
      (record ann_claims { sid = some (b'c' ∷ []) }) access admit_signed_example

-- A parser of paths alone, with `a` as the only host.
abbrev path_url : Text → Url
path_url v = record {
  protocol = [];
  host = [];
  origin = path_base;
  pathname = b'/' ∷ drop 1 v;
  search = [];
}

path_slash :
    (v : Text) (u : Url)
    → some (path_url v) ≡ some u
    → text_eq u.origin path_base ≡ true
    → starts_with u.pathname (text "/") ≡ true
unfolding text starts_with
path_slash v u e h =
    ap (λ (x : Url). starts_with x.pathname (text "/")) (sym (some-injective (path_url v) u e))

no_search :
    (v : Text) (u : Url)
    → some (path_url v) ≡ some u
    → (u.search ≡ []) ⊎ (starts_with u.search (text "?") ≡ true)
no_search v u e = inl (ap (λ (x : Url). x.search) (sym (some-injective (path_url v) u e)))

abbrev paths : UrlParser
paths = record {
  parse = λ v. none;
  parse_path = λ v. some (path_url v);
  pathname_slash = path_slash;
  search_shape = no_search;
}

abbrev any_origin : Text → Bool
any_origin o = true

validate_return_to_sound_example :
    IsOwnPath paths any_origin (text "/a") ⊎ IsAllowed paths any_origin (text "/a")
unfolding validate_return_to text opencode_rc.Auth.Origins.has_unsafe_chars opencode_rc.Common.any
    opencode_rc.Auth.Origins.return_checked starts_with opencode_rc.Auth.Origins.without_fragment
    opencode_rc.Common.split opencode_rc.Auth.Origins.return_path text_eq
validate_return_to_sound_example =
    validate_return_to_sound paths any_origin (some (text "/a")) (text "/a") refl

-- A provider that knows one user.
abbrev id_claims : Fields
id_claims = field (text "sub") (str (b'a' ∷ [])) (field (text "nonce") (str (b'n' ∷ [])) end)

abbrev provider : Provider
provider = record {
  token_endpoint = λ client_id code redirect_uri verifier secret.
      answered (some (obj (field (text "id_token") (str (b't' ∷ [])) end)));
  verify_token = λ token client_id. some id_claims;
  num_truthy = λ s. true;
  encode_uri_component = λ s. s;
}

abbrev config : SignInConfig
config = record {
  oidc_client_id = b'w' ∷ [];
  oidc_client_secret = none;
  oidc_redirect_uri = [];
  oidc_user_claim = text "sub";
  oidc_app_client_id = some (b'm' ∷ []);
}

abbrev visit : Visit
visit = record {
  state_cookie = some (b's' ∷ []);
  return_cookie = none;
  challenge_cookie = some verifier;
  state = some (b's' ∷ []);
  code = some (b'k' ∷ []);
  return_to = none;
  code_challenge = none;
}

abbrev location : Text
location = text "/#code=x"

callback_sound_example :
    HandsOut config provider paths any_origin spelled secret 60 hash refresh_json code_json 3600 60
      memory code visit empty
      (callback config provider paths any_origin spelled secret 60 hash refresh_json code_json 3600
        60 memory code visit empty).1
      location
unfolding text opencode_rc.Auth.Provider.get_callback opencode_rc.Auth.Provider.store_code
    opencode_rc.Auth.Provider.callback_user opencode_rc.Auth.Provider.need
    opencode_rc.Auth.Provider.require opencode_rc.Auth.Provider.◌>>=◌
    opencode_rc.Auth.Provider.browser_id_token opencode_rc.Auth.Provider.browser_claims
    opencode_rc.Auth.Provider.json_truthy opencode_rc.Auth.Provider.user_from_id_token
    opencode_rc.Auth.Provider.user_from validate_return_to
    opencode_rc.Auth.AccessToken.is_code_challenge every text_eq opencode_rc.Json.get_of
    opencode_rc.Json.get opencode_rc.Tokens.create_code run
callback_sound_example =
    callback_sound config provider paths any_origin spelled secret 60 hash refresh_json code_json
      3600 60 memory code visit empty location refl

abbrev app_request : AuthRequest
app_request = record {
  authorization = none;
  upgrade = none;
  access_token = none;
  protocol = some (b'1' ∷ []);
  body = some (
      obj (
        field (text "code") (str code) (
          field (text "code_verifier") (str verifier)
            (field (text "nonce") (str (b'n' ∷ [])) end))));
}

abbrev app_claims : AccessClaims
app_claims = record { uid = b'a' ∷ []; email = []; name = []; sid = some (b'c' ∷ []) }

app_token_sound_example :
    (0 < read_protocol app_request.protocol)
    × (claims : AccessClaims) × IsAppSignIn config provider paths any_origin app_request.body claims
    × (sign_access_token spelled app_claims secret 60 5000
        ≡ sign_access_token spelled (record claims { sid = some (b'c' ∷ []) }) secret 60 5000)
    × (first ≡ first)
unfolding text opencode_rc.Auth.Provider.post_app_token opencode_rc.Auth.Provider.open_session
    opencode_rc.Auth.Provider.app_user opencode_rc.Auth.Provider.need
    opencode_rc.Auth.Provider.require opencode_rc.Auth.Provider.◌>>=◌
    opencode_rc.Auth.Provider.app_id_token opencode_rc.Auth.Provider.user_from_id_token
    opencode_rc.Auth.Provider.user_from opencode_rc.Auth.Routes.require_client_protocol
    read_protocol opencode_rc.Auth.Routes.digits_value opencode_rc.Auth.Routes.respond_tokens
    string_field every text_eq opencode_rc.Json.get_of opencode_rc.Json.get create_chain
    opencode_rc.Tokens.issue_token run
app_token_sound_example =
    app_token_sound config provider paths any_origin spelled secret 60 hash refresh_json code_json
      3600 60 memory (b'c' ∷ []) first (sign_access_token spelled app_claims secret 60 5000) first
      5000 60 app_request empty refl
