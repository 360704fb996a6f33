-- ===== src/Rpc/Mined.antt =====
-- src/blocktree.rs and src/rpc.rs joined: a server answers from the chain that a miner adds to.
use simb.Prelude.{ℕ, ◌+◌, ◌<◌, ◌≡◌, ◌≢◌, refl, sym, ap, ◌∙◌, ◌++◌, [], none, Bool, Str, text, arith}
use simb.Prelude.Result.{ok, err}
use simb.Interface.{Header}
use simb.External.{System, Bytes, u64_mod}
use simb.BlockTree.Types.{BlockTree}
use simb.BlockTree.View.{View, found, lookup, lookup_hash, put}
use simb.BlockTree.Contract.{Contract}
use simb.BlockTree.Mining.{mine_block, mined_header}
use simb.BlockTree.Mined.{mine_block_lem}
use simb.BlockTree.Added.{lookup-put, lookup_hash-put}
use simb.Rpc.{RpcServer, hex_text, block_object, answer, internal_error_code}
use simb.Rpc.Blocks.{eth_get_block_lem}
use simb.Rpc.Server.{call, block_reply, call-number, call-hash}

lookup-above : (v : View) → lookup v (v.tip + 1) ≡ none
lookup-above v = ground arith

lookup-put_next :
    (v : View) (h : Header) (n : ℕ)
    → h.number ≡ v.tip + 1
    → n ≢ v.tip + 1
    → lookup (put v h) n ≡ lookup v n
unfolding put
lookup-put_next v h n next other = ground arith

found-put : (v : View) (h : Header) (n : ℕ) → h.number ≡ n → found (lookup (put v h) n) ≡ ok h
found-put v h n next = ap (λ k. found (lookup (put v h) k)) (sym next) ∙ lookup-put v h

module _ {tree : BlockTree} {checks : Bool} (contract : Contract tree checks) (s : RpcServer tree)
    (v : View) (shown : contract.Shows s.chain v) (random : ℕ) where
  served_number :
      (n : ℕ)
      → n < u64_mod
      → call s (text "eth_getBlockByNumber") (ok (hex_text n)) random
        ≡ block_reply (answer (found (lookup v n)) (text "Block not found at " ++ hex_text n))
  served_number n fits =
      let (by_number, _, _) = eth_get_block_lem contract s.chain v n [] shown fits in
      call-number s (ok (hex_text n)) random ∙ ap block_reply by_number

  served_hash :
      (hash : Str)
      → call s (text "eth_getBlockByHash") (ok hash) random
        ≡ block_reply
            (answer (found (lookup_hash v hash)) (text "Block not found with hash: " ++ hash))
  served_hash hash =
      let (_, _, by_hash) = eth_get_block_lem contract s.chain v 0 hash shown (omega arith) in
      call-hash s (ok hash) random ∙ ap block_reply by_hash

module _ (sys : System) {tree : BlockTree} (contract : Contract tree sys.overflow_checks)
    (s : RpcServer tree) (v : View) (now : ℕ) (random_bytes : Bytes) (random : ℕ) where
  abbrev pub next_header : Header
  next_header = mined_header sys tree (v.block v.tip) (v.tip + 1) now random_bytes random

  -- The server once its chain, which the miner has too, has the next block.
  abbrev pub after_mining : RpcServer tree
  after_mining = record s {
    chain = (mine_block sys tree {E = ⊥} now random_bytes random s.chain).1;
  }

  -- Before a block is mined, on a chain that shows a view, a server of the chain answers that there
  -- is none with the next number; after it, the server gives the mined block by its number and by
  -- its hash, and answers for every other u64 number as before. The tip must be three or more below
  -- the number of u64 values.
  pub mined_served :
      (n draw : ℕ)
      → contract.Shows s.chain v
      → v.tip + 2 < u64_mod
      → n < u64_mod
      → n ≢ v.tip + 1
      → let number = hex_text (v.tip + 1) in
        (call s (text "eth_getBlockByNumber") (ok number) draw
          ≡ block_reply (
              err (record {
                code = internal_error_code;
                message = text "Block not found at " ++ number;
              })))
        × (call after_mining (text "eth_getBlockByNumber") (ok number) draw
            ≡ block_reply (ok (block_object next_header)))
        × (call after_mining (text "eth_getBlockByHash") (ok next_header.hash) draw
            ≡ block_reply (ok (block_object next_header)))
        × (call after_mining (text "eth_getBlockByNumber") (ok (hex_text n)) draw
            ≡ call s (text "eth_getBlockByNumber") (ok (hex_text n)) draw)
  unfolding answer
  mined_served n draw shown fits low other =
      let (_, next, _, shown') =
        mine_block_lem sys tree contract s.chain v now random_bytes random {E = ⊥} shown fits in
      let up : v.tip + 1 < u64_mod = omega arith in
      (
        served_number contract s v shown draw (v.tip + 1) up ∙ rw (lookup-above v) refl,
        served_number contract after_mining (put v next_header) shown' draw (v.tip + 1) up
            ∙ ap (λ r. block_reply (answer r (text "Block not found at " ++ hex_text (v.tip + 1))))
                (found-put v next_header (v.tip + 1) next),
        served_hash contract after_mining (put v next_header) shown' draw next_header.hash
            ∙ ap
                (λ r.
                  block_reply (answer r (text "Block not found with hash: " ++ next_header.hash)))
                (lookup_hash-put v next_header),
        served_number contract after_mining (put v next_header) shown' draw n low
            ∙ ap (λ o. block_reply (answer (found o) (text "Block not found at " ++ hex_text n)))
                (lookup-put_next v next_header n next other)
            ∙ sym (served_number contract s v shown draw n low),
      )
