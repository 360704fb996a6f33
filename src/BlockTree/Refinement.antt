-- ===== src/BlockTree/Refinement.antt =====
-- src/blocktree.rs: the contract of a block tree, filled for `Chain`.
use simb.Prelude.{
  ℕ, ◌+◌, ◌≤◌, ◌<◌, ◌≡◌, refl, sym, ap, ◌∙◌, Bool, some, max, arith, Str, ◌==◌, str_eq,
  if◌then◌else◌,
}
use simb.Prelude.Result.{
  Result, ok, err, panic, and_then, map_err-and_then, and_then_assoc, and_then-map_err,
}
use simb.Interface.{Header, header_eq_iff}
use simb.External.{System, Laws, RedbError, u64_mod}
use simb.BlockTree.Types.{Error, AddedBlockResult, from_redb}
use simb.BlockTree.Reads.{from_db, genesis}
use simb.BlockTree.Chain.{write_header, try_add_block_header, chain}
use simb.BlockTree.Contract.{Contract}
use simb.BlockTree.Shown.{Shows, get_lem, get_hash_lem, tip_lem, check_lem}
use simb.BlockTree.View.{View, check, put, put_checked, add}

-- The same for the four calls of a write.
four_steps :
    {A B C D : Type 0} (m : Result RedbError A) (f : A → Result RedbError B)
    (g : B → Result RedbError C) (k : C → Result RedbError D)
    → and_then
        (from_db m)
        (λ a. and_then (from_db (f a)) λ b. and_then (from_db (g b)) λ c. from_db (k c))
      ≡ from_db (and_then m λ a. and_then (f a) λ b. and_then (g b) k)
four_steps (ok a) f g k =
    and_then-map_err from_redb (f a) g (λ c. from_db (k c))
    ∙ sym (map_err-and_then from_redb (and_then (f a) g) k)
    ∙ ap from_db (and_then_assoc (f a) g k)
four_steps (err e) f g k = refl
four_steps panic f g k = refl

-- What a committed write leaves: both rows, and every other row as it was.
pub record Wrote {sys : System} (laws : Laws sys) (db db' : sys.Db) (h : Header) : Type 0 where
  pub up : laws.IsUp db'
  pub rows :
      (m : ℕ)
      → laws.header_rows db' m
        ≡ (if h.number == m then some (sys.encode_header h) else laws.header_rows db m)
  pub hashes :
      (t : Str)
      → laws.hash_rows db' t ≡ (if str_eq h.hash t then some h.number else laws.hash_rows db t)

module _ {sys : System} (laws : Laws sys) (db : sys.Db) (h : Header) where
  pub write_header_lem :
      laws.IsOpen db → (db' : sys.Db) × (write_header sys h db ≡ (ok tt, db')) × Wrote laws db db' h
  unfolding write_header
  write_header_lem o =
      let (db', e, up, rows, hashes) =
        laws.write_rows_lem db h.number (sys.encode_header h) h.hash o in
      (
        db',
        rw
            (four_steps (sys.begin_write db)
              (λ txn. sys.header_insert txn h.number (sys.encode_header h))
              (λ txn. sys.hash_insert txn h.hash h.number) sys.commit)
            (rw e refl),
        record { up = up; rows = rows; hashes = hashes },
      )

module _ {sys : System} (laws : Laws sys) (db db' : sys.Db) (v : View) (h : Header) where
  pub put-Shows :
      Shows laws db v
      → h.number + 1 < u64_mod
      → h.number ≤ v.tip + 1
      → Wrote laws db db' h
      → Shows laws db' (put v h)
  unfolding put
  put-Shows shown fits next wrote = record {
    up = wrote.up;
    rows = λ n. ground (arith, wrote.rows n, shown.rows n);
    hashes = λ s. ground (arith, wrote.hashes s, shown.hashes s);
    numbering = record {
      numbered = λ n le. ground (arith, shown.numbering.numbered n);
      fits = ground (arith, shown.numbering.fits);
    };
  }

-- A header that passes the check extends the stored range by one number at most.
pub check-number :
    (g : Header) (checks : Bool) (v : View) (h : Header)
    → g.number ≡ 0
    → check g checks v h ≡ ok tt
    → h.number ≤ v.tip + 1
unfolding check
check-number g checks v h zero passed = ground (arith, header_eq_iff h g)

tip-put : (v : View) (h : Header) → (put v h).tip ≡ max v.tip h.number
unfolding put
tip-put v h = refl

pub genesis_number : (sys : System) → (genesis sys).number ≡ 0
unfolding genesis
genesis_number sys = refl

module _ {sys : System} (laws : Laws sys) (db : sys.Db) (v : View) (h : Header) where
  -- The result and the view of the new state agree with the function on views.
  abbrev pub Agrees :
      Result Error AddedBlockResult × sys.Db → Result Error AddedBlockResult × View → Type 0
  Agrees actual expected = (actual.0 ≡ expected.0) × Shows laws actual.1 expected.1

  stored :
      Shows laws db v
      → h.number + 1 < u64_mod
      → check (genesis sys) sys.overflow_checks v h ≡ ok tt
      → Agrees (try_add_block_header sys h db) (put_checked (ok tt) v h)
  unfolding try_add_block_header
  stored shown fits passed =
      let (db', written, wrote) = write_header_lem laws db h (laws.IsUp-IsOpen db shown.up) in
      let next = check-number (genesis sys) sys.overflow_checks v h (genesis_number sys) passed in
      let shown' = put-Shows laws db db' v h shown fits next wrote in
      rw (check_lem laws db v shown h fits, passed)
        (rw (tip_lem laws db v shown, written)
          (rw (tip_lem laws db' (put v h) shown') (
            ground (
              arith,
              shown.numbering.numbered v.tip,
              shown'.numbering.numbered (put v h).tip,
              tip-put v h,
            ),
            shown',
          )))

  -- The three ends of a call, by the result of the check.
  pub data Ended (actual : Result Error AddedBlockResult × sys.Db) : Type 0 where
    passed :
        check (genesis sys) sys.overflow_checks v h ≡ ok tt
        → Agrees actual (put_checked (ok tt) v h)
        → Ended actual
    refused :
        (e : Error)
        → check (genesis sys) sys.overflow_checks v h ≡ err e
        → actual ≡ (err e, db)
        → Ended actual
    crashed :
        check (genesis sys) sys.overflow_checks v h ≡ panic → actual ≡ (panic, db) → Ended actual

  pub try_add-Ended :
      Shows laws db v → h.number + 1 < u64_mod → Ended (try_add_block_header sys h db)
  unfolding try_add_block_header
  try_add-Ended shown fits = go (check (genesis sys) sys.overflow_checks v h) refl
    where
      go :
          (r : Result Error (Unit {0}))
          → check (genesis sys) sys.overflow_checks v h ≡ r
          → Ended (try_add_block_header sys h db)
      go (ok tt) e = passed e (stored shown fits e)
      go (err x) e = refused x e (rw (check_lem laws db v shown h fits, e) refl)
      go panic e = crashed e (rw (check_lem laws db v shown h fits, e) refl)

  -- Over a database that shows a view, `Chain::try_add_block_header` answers what the function
  -- `add` answers on the view, and leaves a database that shows the view that `add` leaves, on
  -- every branch: a header stored or stored again, each error, the panic. The number of the header
  -- must be below the last u64.
  pub add_lem :
      Shows laws db v
      → h.number + 1 < u64_mod
      → Agrees (try_add_block_header sys h db) (add (genesis sys) sys.overflow_checks v h)
  unfolding add
  add_lem shown fits = elim (try_add-Ended shown fits) [
    | passed e agrees ↦ rw (e, add) agrees
    | refused x e same ↦ rw (e, same) (refl, shown)
    | crashed e same ↦ rw (e, same) (refl, shown)
  ]

-- `Chain` keeps the contract of a block tree.
abbrev pub chain_contract : {sys : System} → Laws sys → Contract (chain sys) sys.overflow_checks
chain_contract {sys} laws = record {
  Shows = Shows laws;
  Shows-IsNumbered = λ db v shown. shown.numbering;
  genesis_number = genesis_number sys;
  get_lem = λ db v n shown. get_lem laws db v shown n;
  get_hash_lem = λ db v hash shown. get_hash_lem laws db v shown hash;
  tip_lem = tip_lem laws;
  add_lem = λ db v h shown fits. add_lem laws db v h shown fits;
}
