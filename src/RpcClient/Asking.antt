-- ===== src/RpcClient/Asking.antt =====
-- examples/rpc_client.rs and src/rpc.rs: what the client gets from the server.
use simb.Prelude.{
  ℕ, ◌≡◌, ◌≢◌, refl, ap, sym, ◌∙◌, List, [], ◌∷◌, Option, none, some, Option-cases, inl, inr, Bool,
  Str, str_eq, text, arith, true,
}
use simb.Prelude.Result.{Result, ok, err, panic}
use simb.Interface.{Header}
use simb.BlockTree.Types.{BlockTree}
use simb.BlockTree.View.{View, found, lookup, lookup_hash}
use simb.BlockTree.Contract.{Contract}
use simb.Rpc.{
  eth_get_block_by_number, RpcServer, BlockObject, ErrorObject, block_object, hex_text, answer,
}
use simb.Rpc.Hex.{hex}
use simb.Rpc.Blocks.{eth_get_block_lem}
use simb.Rpc.Server.{Reply, block_reply, text_reply, method_not_found, call, call-number, call-hash}
use simb.Rpc.Service.{
  Http, BearerLaws, Response, replied, elapsed, unauthorized, service, service-call, service-other,
}
use simb.RpcClient.{HttpClient, main, ask}

abbrev pub result_value : {A V : Type 0} → (A → V) → Result ErrorObject A → Option V
result_value value (ok a) = some (value a)
result_value value (err e) = none
result_value value panic = none

abbrev pub reply_value : {V : Type 0} → (BlockObject → V) → (Str → V) → Reply → Option V
reply_value block_value text_value (block_reply r) = result_value block_value r
reply_value block_value text_value (text_reply r) = result_value text_value r
reply_value block_value text_value method_not_found = none

abbrev pub response_value : {V : Type 0} → (BlockObject → V) → (Str → V) → Response → Option V
response_value block_value text_value (replied r) = reply_value block_value text_value r
response_value block_value text_value elapsed = none
response_value block_value text_value unauthorized = none

-- A client that is connected to a server and sends a header AUTHORIZATION gets what the service
-- answers, in time; an error, a call that does not return, a method that is not registered and a
-- request that is not authorized are errors to it.
pub record Connected {http : Http} {tree : BlockTree} (lib : HttpClient http)
    (authorization : http.HeaderValue) (client : lib.Client) (s : RpcServer tree) (random : ℕ)
    : Type 0 where
  pub block_value : BlockObject → lib.Value
  pub text_value : Str → lib.Value
  pub request_lem :
      (method param : Str)
      → lib.request client method (param ∷ [])
        ≡ response_value block_value text_value
            (service http s (some authorization) true method (ok param) random)

abbrev pub asked_hash : Str
asked_hash = text "0136a0fb5d86d2175d74062cb38324f88cc4437df6145d84140b906e092d94a51"

zero_text : hex_text 0 ≡ text "0x0"
unfolding hex
zero_text = refl

call-balances :
    {tree : BlockTree} (s : RpcServer tree) (param : Str) (random : ℕ)
    → call s (text "eth_getBalances") (ok param) random ≡ method_not_found
unfolding call str_eq
call-balances s param random = refl

module _ {http : Http} {lib : HttpClient http} (laws : BearerLaws http) {tree : BlockTree}
    {checks : Bool} (contract : Contract tree checks) {authorization : http.HeaderValue}
    {client : lib.Client} {s : RpcServer tree} {random : ℕ}
    (connected : Connected lib authorization client s random) (v : View)
    (shown : contract.Shows s.chain v)
    (parsed : http.parse_header (text "Bearer mock_auth_token") ≡ some authorization) where
  -- A request with the token of the server comes to its methods.
  passed :
      (method param : Str)
      → lib.request client method (param ∷ [])
        ≡ reply_value connected.block_value connected.text_value (call s method (ok param) random)
  passed method param =
      connected.request_lem method param
      ∙ ap (response_value connected.block_value connected.text_value)
          (service-call laws parsed s method (ok param) random)

  -- The value of the header that a search found.
  abbrev pub value_of : Option Header → Option lib.Value
  value_of none = none
  value_of (some h) = some (connected.block_value (block_object h))

  answered :
      (o : Option Header) (message : Str)
      → result_value connected.block_value (answer (found o) message) ≡ value_of o
  unfolding answer
  answered none message = refl
  answered (some h) message = refl

  asked_for_hash :
      (hash : Str)
      → lib.request client (text "eth_getBlockByHash") (hash ∷ []) ≡ value_of (lookup_hash v hash)
  asked_for_hash hash =
      let (_, _, by_hash) = eth_get_block_lem contract s.chain v 0 hash shown (omega arith) in
      passed (text "eth_getBlockByHash") hash
      ∙ rw (call-hash s (ok hash) random) (rw by_hash (answered (lookup_hash v hash) _))

  asked_for_zero :
      lib.request client (text "eth_getBlockByNumber") (text "0x0" ∷ [])
      ≡ value_of (some (v.block 0))
  asked_for_zero =
      let (by_number, _, _) = eth_get_block_lem contract s.chain v 0 [] shown (omega arith) in
      let there : lookup v 0 ≡ some (v.block 0) = ground arith in
      passed (text "eth_getBlockByNumber") (text "0x0")
      ∙ rw (call-number s (ok (text "0x0")) random) (
          rw (ap (λ t. eth_get_block_by_number tree s.chain (ok t)) (sym zero_text) ∙ by_number)
            (answered (lookup v 0) _ ∙ ap value_of there))

  asked_for_balances :
      (param : Str) → lib.request client (text "eth_getBalances") (param ∷ []) ≡ none
  asked_for_balances param =
      passed (text "eth_getBalances") param ∙ rw (call-balances s param random) refl

  -- The responses that come before the panic.
  abbrev pub responses : List lib.Value
  responses = connected.block_value (block_object (v.block 0)) ∷ elim (lookup_hash v asked_hash) [
    | none ↦ []
    | some h ↦ connected.block_value (block_object h) ∷ []
  ]

  run :
      lib.build authorization (text "http://0.0.0.0:55858") ≡ some client
      → main http lib [] ≡ (panic, responses)
  unfolding main ask
  run built = elim (Option-cases (lookup_hash v asked_hash)) [
    | inl missing ↦
        rw (parsed, main)
          (rw (built, main)
            (rw (asked_for_zero, main)
              (rw (asked_for_hash asked_hash, main) (rw (missing, main) refl))))
    | inr (h, e) ↦
        rw (parsed, main)
          (rw (built, main)
            (rw (asked_for_zero, main)
              (rw (asked_for_hash asked_hash, main)
                (rw
                  (e, asked_for_balances (text "0x000000000000000000000000000000000000dead"), main)
                  refl))))
  ]

  refused :
      (other : http.HeaderValue) (client' : lib.Client)
      → Connected lib other client' s random
      → other ≢ authorization
      → (method param : Str) → lib.request client' method (param ∷ []) ≡ none
  refused other client' connected' differs method param =
      connected'.request_lem method param
      ∙ ap (response_value connected'.block_value connected'.text_value)
          (service-other laws parsed s method (ok param) random other true differs)

  -- The example client of a server whose chain shows a view, connected to it with the token and
  -- answered in time, logs the block with number 0, and the one with the hash that it asks for if
  -- the chain has it; then it panics, whatever the chain holds: at the missing block, or at its
  -- last request, whose method no server has. A client that sends another authorization to it gets
  -- nothing but errors.
  pub client_panics :
      (other : http.HeaderValue) (client' : lib.Client) (method param : Str)
      → lib.build authorization (text "http://0.0.0.0:55858") ≡ some client
      → Connected lib other client' s random
      → other ≢ authorization
      → (main http lib [] ≡ (panic, responses)) × (lib.request client' method (param ∷ []) ≡ none)
  client_panics other client' method param built connected' differs =
      (run built, refused other client' connected' differs method param)
