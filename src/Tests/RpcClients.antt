-- ===== src/Tests/RpcClients.antt =====
-- The example client, connected to a server on the chain in memory.
use mathlib.Core.Option.{some-injective}
use simb.Prelude.{
  ap, str_eq_sound, ◌≡◌, ◌⊎◌, ◌++◌, inl, inr, refl, sym, [], ◌∷◌, none, some, true, false, arith,
  Str, str_eq, str_eq_iff, text,
}
use simb.Prelude.Result.{ok, panic}
use simb.Prelude.BTreeMap
use simb.Prelude.Order.{str_cmp}
use simb.BlockTree.Refinement.{chain_contract}
use simb.Rpc.{BlockObject, block_object}
use simb.Rpc.Service.{Http, BearerLaws, service}
use simb.RpcClient.{HttpClient, main}
use simb.RpcClient.Asking.{Connected, response_value, client_panics}
use simb.Tests.Memory.{memory_laws}
use simb.Tests.Chains.{view, rows-Shows}
use simb.Tests.Servers.{server}

-- A value is a block or a text.
-- The value of a header is its text.
abbrev http : Http
http = record {
  HeaderValue = Str;
  parse_header = some;
  bearer = λ token authorization. elim authorization [
    | none ↦ false
    | some value ↦ str_eq value (text "Bearer " ++ token)
  ];
}

abbrev laws : BearerLaws http
laws = record {
  passes =
      λ token value e. (str_eq_iff value (text "Bearer " ++ token)).1 (sym (some-injective _ _ e));
  exact = λ token value e. ap some (sym (str_eq_sound value (text "Bearer " ++ token) e));
}

-- A client is the header that it sends; a value is a block or a text.
abbrev lib : HttpClient http
lib = record {
  Value = BlockObject ⊎ Str;
  Client = Str;
  build = λ authorization uri. some authorization;
  request = λ client method params. elim params [
    | [] ↦ none
    | param ∷ more ↦
        response_value inl inr (service http server (some client) true method (ok param) 7)
  ];
}

abbrev connected : (authorization : Str) → Connected lib authorization authorization server 7
connected authorization = record {
  block_value = inl;
  text_value = inr;
  request_lem = λ method param. refl;
}

client_panics_example :
    (main http lib [] ≡ (panic, inl (block_object (view.block 0)) ∷ []))
    × (lib.request (text "Bearer you") (text "eth_getBalance") (text "0x0" ∷ []) ≡ none)
unfolding BTreeMap.get str_cmp
client_panics_example =
    client_panics laws (chain_contract memory_laws) (connected (text "Bearer mock_auth_token")) view
      rows-Shows refl (text "Bearer you") (text "Bearer you") (text "eth_getBalance") (text "0x0")
      refl (connected (text "Bearer you")) (λ e. ground arith)
