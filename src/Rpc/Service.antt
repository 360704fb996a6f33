-- ===== src/Rpc/Service.antt =====
-- src/rpc.rs: the HTTP layers around the methods. The check of the token by tower_http and the
-- values of headers are parameters; what the layers log is left out.
use mathlib.Core.Option.{some-injective}
use simb.Prelude.{
  ℕ, ◌≡◌, ◌≢◌, refl, sym, ◌∙◌, inl, inr, Option, some, Bool, true, Bool-cases, Str, text, ◌++◌,
  if◌then◌else◌,
}
use simb.Prelude.Result.{Result}
use simb.BlockTree.Types.{BlockTree}
use simb.Rpc.{RpcServer, ErrorObject, mock_auth_token}
use simb.Rpc.Server.{Reply, call}

pub record Http : Type 1 where
  pub HeaderValue : Type 0
  pub parse_header : Str → Option HeaderValue
  -- Whether `ValidateRequestHeaderLayer::bearer` of a token lets a request pass that has such a
  -- header AUTHORIZATION, or none.
  pub bearer : Str → Option HeaderValue → Bool

-- The header has to be exactly the text `Bearer` and the token.
pub record BearerLaws (http : Http) : Type 0 where
  pub passes :
      (token : Str) (value : http.HeaderValue)
      → http.parse_header (text "Bearer " ++ token) ≡ some value
      → http.bearer token (some value) ≡ true
  pub exact :
      (token : Str) (value : http.HeaderValue)
      → http.bearer token (some value) ≡ true
      → http.parse_header (text "Bearer " ++ token) ≡ some value

-- The status 401, the error of the timeout, or what the method comes back with.
pub data Response : Type 0 where
  unauthorized : Response
  elapsed : Response
  replied : Reply → Response

-- The token is checked first. Whether the method ends within the two seconds is an argument.
unfoldable pub service :
    (http : Http) {tree : BlockTree}
    → RpcServer tree
    → Option http.HeaderValue
    → Bool
    → Str
    → Result ErrorObject Str
    → ℕ
    → Response
service http s authorization in_time name one random =
    if http.bearer mock_auth_token authorization
    then if in_time then replied (call s name one random) else elapsed
    else unauthorized

module _ {http : Http} (laws : BearerLaws http) {value : http.HeaderValue}
    (parsed : http.parse_header (text "Bearer " ++ mock_auth_token) ≡ some value) {tree : BlockTree}
    (s : RpcServer tree) (name : Str) (one : Result ErrorObject Str) (random : ℕ) where
  pub service-call :
      service http s (some value) true name one random ≡ replied (call s name one random)
  unfolding service
  service-call = rw (laws.passes mock_auth_token value parsed, service) refl

  pub service-other :
      (other : http.HeaderValue) (in_time : Bool)
      → other ≢ value
      → service http s (some other) in_time name one random ≡ unauthorized
  unfolding service
  service-other other in_time differs =
      elim (Bool-cases (http.bearer mock_auth_token (some other))) [
        | inl passed ↦
            absurd (
              differs (some-injective _ _ (sym (laws.exact mock_auth_token other passed) ∙ parsed)))
        | inr stopped ↦ rw (stopped, service) refl
      ]
