-- ===== src/Manager/Serving.antt =====
-- src/net/chain.rs: the headers that a node serves, by the view of its chain.
use simb.Prelude.{
  ℕ, zero, suc, ◌+◌, ◌-◌, ◌≤◌, ◌≡◌, refl, min, Bool, arith, leb, Bool-cases, inl, inr,
}
use simb.Prelude.Result.{ok}
use simb.Interface.{HeadersRequest}
use simb.External.{add_u64}
use simb.BlockTree.Types.{BlockTree}
use simb.BlockTree.View.{View}
use simb.BlockTree.Contract.{Contract}
use simb.SyncHeader.Requests.{blocks}
use simb.Manager.{collect, handle_get_block_headers_request}

module _ {tree : BlockTree} {checks : Bool} (contract : Contract tree checks) (chain : tree.Self)
    (v : View) where
  collect_lem :
      (rounds number : ℕ)
      → contract.Shows chain v
      → collect tree checks chain rounds number
        ≡ ok (blocks v.block number (min rounds (v.tip + 1 - number)))
  unfolding collect blocks
  collect_lem zero number shown =
      let e : min 0 (v.tip + 1 - number) ≡ 0 = omega arith in rw (e, blocks) refl
  collect_lem (suc rounds) number shown = elim (Bool-cases (leb number v.tip)) [
    | inl e ↦
        let numbering = contract.Shows-IsNumbered chain v shown in
        let low : number ≤ v.tip = ground arith in
        let count : min (suc rounds) (v.tip + 1 - number)
            ≡ suc (min rounds (v.tip + 1 - (number + 1))) =
          omega arith in
        let next : add_u64 {E = ⊥} checks (v.block number).number 1 ≡ ok (number + 1) =
          ground (arith, numbering.numbered number, numbering.fits) in
        rw (contract.get_lem chain v number shown, e, collect)
          (rw (next, count, blocks) (rw (collect_lem rounds (number + 1) shown) refl))
    | inr e ↦
        let count : min (suc rounds) (v.tip + 1 - number) ≡ 0 = ground arith in
        rw (contract.get_lem chain v number shown, e, collect) (rw (count, blocks) refl)
  ]

  -- Over a chain that shows a view a node answers a request for headers with those of its chain
  -- from the first number on, in order and none left out: as many as were asked for, or as there
  -- are up to the tip. It never panics.
  pub handle_get_block_headers_request_lem :
      (request : HeadersRequest)
      → contract.Shows chain v
      → handle_get_block_headers_request tree checks chain request
        ≡ ok (
            blocks v.block request.start_block
              (min request.limit (v.tip + 1 - request.start_block)))
  unfolding handle_get_block_headers_request
  handle_get_block_headers_request_lem request shown =
      collect_lem request.limit request.start_block shown
