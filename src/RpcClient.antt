-- ===== src/RpcClient.antt =====
-- examples/rpc_client.rs: a client of the RPC server. The values of headers, the HTTP client of
-- jsonrpsee and the values of serde_json are parameters; `none` stands for an error.
pub mod Asking
use simb.Prelude.{List, [], ◌∷◌, ◌++◌, Option, Str, text}
use simb.Prelude.Result.{ok, expect}
use simb.Prelude.Exec.{Exec, pure, reads, ◌>>=◌}
use simb.Rpc.{mock_auth_token}
use simb.Rpc.Service.{Http}

pub record HttpClient (http : Http) : Type 1 where
  pub Value : Type 0
  pub Client : Type 0
  -- A client of an address that sends the header AUTHORIZATION.
  pub build : http.HeaderValue → Str → Option Client
  pub request : Client → Str → List Str → Option Value

module _ (http : Http) (lib : HttpClient http) where
  -- The state is what was logged.
  abbrev pub Logs : Type 0 → Type 0
  Logs A = Exec (List lib.Value) ⊥ A

  abbrev pub log : lib.Value → Logs (Unit {0})
  log response logged = (ok tt, logged ++ response ∷ [])

  -- One request with one parameter, whose response is logged.
  unfoldable pub ask : lib.Client → Str → Str → Logs (Unit {0})
  ask client method param = do
    response ← reads (λ logged. expect (lib.request client method (param ∷ [])))
    log response

  unfoldable pub main : Logs (Unit {0})
  unfolding ask
  main = do
    authorization ← reads (λ logged. expect (http.parse_header (text "Bearer " ++ mock_auth_token)))
    client ←
        reads (λ logged. expect (lib.build authorization (text "http://" ++ text "0.0.0.0:55858")))
    by_number ← ask client (text "eth_getBlockByNumber") (text "0x0")
    by_hash ←
        ask client (text "eth_getBlockByHash")
          (text "0136a0fb5d86d2175d74062cb38324f88cc4437df6145d84140b906e092d94a51")
    ask client (text "eth_getBalances") (text "0x000000000000000000000000000000000000dead")
