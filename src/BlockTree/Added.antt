-- ===== src/BlockTree/Added.antt =====
-- src/blocktree.rs: what a call of `Chain::try_add_block_header` answers and leaves behind.
use simb.Prelude.{
  ℕ, ◌+◌, ◌-◌, ◌≤◌, ◌<◌, ◌≡◌, ◌≢◌, ap, ◌∙◌, ◌⊎◌, inl, inr, ◌↔◌, Bool, arith, ltb, str_eq_iff,
  str_eq_refl, if◌then◌else◌,
}
use simb.Prelude.Result.{ok, err, panic}
use simb.Interface.{Header, header_eq_iff}
use simb.External.{System, Laws, u64_mod}
use simb.BlockTree.Types.{
  Error, invalid, block_header_not_found, database_error, AddedBlockResult, extend_tip,
  already_in_chain,
}
use simb.BlockTree.Reads.{genesis, get_header_by_block_number, get_header_by_hash, tip}
use simb.BlockTree.Chain.{try_add_block_header}
use simb.BlockTree.Shown.{Shows, get_lem, get_hash_lem, tip_lem}
use simb.BlockTree.Refinement.{
  Agrees, passed, refused, crashed, try_add-Ended, genesis_number, check-number,
}
use simb.BlockTree.View.{View, found, lookup, lookup_hash, check, put, put_checked}

-- A header may be stored if it is the genesis header, or if its number is at most one above the
-- tip and the header below it has the hash that it names as its parent.
abbrev pub IsAdjacent : Header → View → Header → Type 0
IsAdjacent genesis v h =
    (h ≡ genesis)
    ⊎ ((1 ≤ h.number) × (h.number ≤ v.tip + 1) × ((v.block (h.number - 1)).hash ≡ h.parent_hash))

pub check-IsAdjacent :
    (g : Header) (checks : Bool) (v : View) (h : Header)
    → (check g checks v h ≡ ok tt) ↔ IsAdjacent g v h
unfolding check
check-IsAdjacent g checks v h =
    ground (arith, header_eq_iff h g, str_eq_iff (v.block (h.number - 1)).hash h.parent_hash)

-- What a stored header shows.
pub lookup-put : (v : View) (h : Header) → found (lookup (put v h) h.number) ≡ ok h
unfolding put
lookup-put v h = ground arith

pub lookup_hash-put : (v : View) (h : Header) → found (lookup_hash (put v h) h.hash) ≡ ok h
unfolding put
lookup_hash-put v h = ground (arith, str_eq_refl h.hash)

pub lookup-put_ne :
    (v : View) (h : Header) (n : ℕ)
    → n ≤ v.tip
    → h.number ≢ n
    → found (lookup (put v h) n) ≡ ok (v.block n)
unfolding put
lookup-put_ne v h n low ne = ground arith

module _ {sys : System} (laws : Laws sys) (db : sys.Db) (v : View) (h : Header) where
  abbrev after : sys.Db
  after = (try_add_block_header sys h db).1

  -- The call answers with a result, and the database shows the view with the header put in it.
  abbrev pub IsStored : Type 0
  IsStored =
      ((r : AddedBlockResult) × ((try_add_block_header sys h db).0 ≡ ok r))
      × Shows laws after (put v h)

  -- Over a database that shows a view a header is stored, so that the call answers with a result
  -- and the database shows the view with the header put in it, exactly if it is adjacent: it is the
  -- genesis header, or its number is at most one above the tip and the header below it has the hash
  -- that it names. In any other case the database stays as it was. The number of the header must be
  -- below the last u64.
  pub accepts_iff :
      Shows laws db v
      → h.number + 1 < u64_mod
      → (IsStored ↔ IsAdjacent (genesis sys) v h) × (IsAdjacent (genesis sys) v h ⊎ (after ≡ db))
  accepts_iff shown fits = elim (try_add-Ended laws db v h shown fits) [
    | passed e agrees ↦
        let adjacent = (check-IsAdjacent _ _ v h).0 e in
        ((λ _. adjacent, λ _. ((_, agrees.0), agrees.1)), inl adjacent)
    | refused x e same ↦ (
      (
        λ ((r, p), _). cc (p, ap (λ t. t.0) same),
        λ a. cc (e, (check-IsAdjacent _ sys.overflow_checks v h).1 a),
      ),
      inr (ap (λ t. t.1) same),
    )
    | crashed e same ↦ (
      (
        λ ((r, p), _). cc (p, ap (λ t. t.0) same),
        λ a. cc (e, (check-IsAdjacent _ sys.overflow_checks v h).1 a),
      ),
      inr (ap (λ t. t.1) same),
    )
  ]

  -- So an adjacent header is stored.
  pub adjacent-Agrees :
      Shows laws db v
      → h.number + 1 < u64_mod
      → IsAdjacent (genesis sys) v h
      → Agrees laws db v h (try_add_block_header sys h db) (put_checked (ok tt) v h)
  adjacent-Agrees shown fits adjacent = elim (try_add-Ended laws db v h shown fits) [
    | passed e agrees ↦ agrees
    | refused x e same ↦ cc (e, (check-IsAdjacent _ sys.overflow_checks v h).1 adjacent)
    | crashed e same ↦ cc (e, (check-IsAdjacent _ sys.overflow_checks v h).1 adjacent)
  ]

  -- Why a header was not stored, by the error.
  abbrev pub Reason : Error → Type 0
  Reason invalid =
      (1 ≤ h.number) × (h.number ≤ v.tip + 1) × ((v.block (h.number - 1)).hash ≢ h.parent_hash)
  Reason block_header_not_found = (h.number ≡ 0) ⊎ (v.tip + 1 < h.number)
  Reason (database_error e) = ⊥

  check-Reason :
      (g : Header) (checks : Bool) (e : Error) → check g checks v h ≡ err e → (h ≢ g) × Reason e
  unfolding check
  check-Reason g checks invalid p =
      ground (arith, header_eq_iff h g, str_eq_iff (v.block (h.number - 1)).hash h.parent_hash)
  check-Reason g checks block_header_not_found p = ground (arith, header_eq_iff h g)
  check-Reason g checks (database_error x) p = ground arith

  -- Over a database that shows a view an error leaves the database as it was and says what is wrong
  -- with the header: `Invalid`, that its parent is stored and has another hash than it names;
  -- `BlockHeaderNotFound`, that its number is 0 or more than one above the tip. It is never a
  -- database error, nor about the genesis header. The number must be below the last u64.
  pub refuses_lem :
      Shows laws db v
      → h.number + 1 < u64_mod
      → (e : Error) → (try_add_block_header sys h db).0 ≡ err e
      → ((try_add_block_header sys h db).1 ≡ db) × (h ≢ genesis sys) × Reason e
  refuses_lem shown fits e p = elim (try_add-Ended laws db v h shown fits) [
    | passed _ agrees ↦ cc (p, agrees.0)
    | refused x q same ↦
        let (ne, why) =
          check-Reason (genesis sys) sys.overflow_checks e (cc (q, p, ap (λ t. t.0) same)) in
        (ap (λ t. t.1) same, ne, why)
    | crashed _ same ↦ cc (p, ap (λ t. t.0) same)
  ]

  zero_check :
      (g : Header) (checks : Bool)
      → h.number ≡ 0
      → h ≢ g
      → check g checks v h ≡ (if checks then panic else err block_header_not_found)
  unfolding check
  zero_check g checks zero ne = ground (arith, header_eq_iff h g)

  -- Over a database that shows a view a header with number 0 other than the genesis header makes a
  -- build panic that checks for overflow; in another build its parent is not found. The database
  -- stays as it was.
  pub zero_number_lem :
      Shows laws db v
      → h.number ≡ 0
      → h ≢ genesis sys
      → try_add_block_header sys h db
        ≡ ((if sys.overflow_checks then panic else err block_header_not_found), db)
  zero_number_lem shown zero ne = elim (try_add-Ended laws db v h shown (omega arith)) [
    | passed e agrees ↦ ground (arith, zero_check (genesis sys) sys.overflow_checks zero ne)
    | refused x e same ↦ ground (arith, zero_check (genesis sys) sys.overflow_checks zero ne)
    | crashed e same ↦ ground (arith, zero_check (genesis sys) sys.overflow_checks zero ne)
  ]

  -- Over a database that shows a view a header that was stored is found by its number and by its
  -- hash. The number must be below the last u64.
  pub stored_found :
      Shows laws db v
      → h.number + 1 < u64_mod
      → (r : AddedBlockResult) → (try_add_block_header sys h db).0 ≡ ok r
      → (get_header_by_block_number sys after h.number ≡ ok h)
        × (get_header_by_hash sys after h.hash ≡ ok h)
  stored_found shown fits r p = elim (try_add-Ended laws db v h shown fits) [
    | passed e agrees ↦ (
      get_lem laws after (put v h) agrees.1 h.number ∙ lookup-put v h,
      get_hash_lem laws after (put v h) agrees.1 h.hash ∙ lookup_hash-put v h,
    )
    | refused x q same ↦ cc (p, ap (λ t. t.0) same)
    | crashed _ same ↦ cc (p, ap (λ t. t.0) same)
  ]

  -- What each result says of the tip.
  abbrev pub TipMoves : AddedBlockResult → Type 0
  TipMoves extend_tip = (h.number ≡ v.tip + 1) × (tip sys after ≡ ok h)
  TipMoves already_in_chain =
      (h.number ≤ v.tip) × ((t : Header) × (tip sys after ≡ ok t) × (t.number ≡ v.tip))

  put-TipMoves :
      Shows laws db v
      → h.number ≤ v.tip + 1
      → tip sys after ≡ ok ((put v h).block (put v h).tip)
      → (r : AddedBlockResult) → r ≡ (if ltb v.tip h.number then extend_tip else already_in_chain)
      → TipMoves r
  unfolding put
  put-TipMoves shown next new_tip extend_tip e = ground arith
  put-TipMoves shown next new_tip already_in_chain e =
      (ground arith, (_, new_tip, ground (arith, shown.numbering.numbered v.tip)))

  -- Over a database that shows a view the result `ExtendTip` says that the header is one above the
  -- tip and is the new tip, and `AlreadyInChain` that it is not above the tip and that the tip
  -- keeps its number. The number of the header must be below the last u64.
  pub result-TipMoves :
      Shows laws db v
      → h.number + 1 < u64_mod
      → (r : AddedBlockResult) → (try_add_block_header sys h db).0 ≡ ok r
      → TipMoves r
  result-TipMoves shown fits r p = elim (try_add-Ended laws db v h shown fits) [
    | passed e agrees ↦
        put-TipMoves shown
          (check-number (genesis sys) sys.overflow_checks v h (genesis_number sys) e)
          (tip_lem laws after (put v h) agrees.1) r (ground (arith, agrees.0))
    | refused x q same ↦ cc (p, ap (λ t. t.0) same)
    | crashed _ same ↦ cc (p, ap (λ t. t.0) same)
  ]
