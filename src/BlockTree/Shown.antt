-- ===== src/BlockTree/Shown.antt =====
-- src/blocktree.rs: what it is for a database to show a view, and the reads of `Chain` then.
use simb.Prelude.{
  ℕ, ◌+◌, ◌-◌, ◌<◌, ◌≡◌, refl, ◌∙◌, inl, inr, Option, none, some, arith, Str, leb, if◌then◌else◌,
  Bool-cases, Option-cases,
}
use simb.Prelude.Result.{Result, ok, err, panic, and_then, and_then-map_err}
use simb.Interface.{Header}
use simb.External.{System, Laws, Bytes, IsLast, RedbError, u64_mod}
use simb.BlockTree.Types.{Error, from_redb}
use simb.BlockTree.Reads.{
  from_db, genesis, get_header_by_block_number, get_header_by_hash, tip,
  validate_adjacent_block_header,
}
use simb.BlockTree.View.{View, IsNumbered, found, lookup, lookup_hash, check}

-- The database shows a view.
pub record Shows {sys : System} (laws : Laws sys) (db : sys.Db) (v : View) : Type 0 where
  pub up : laws.IsUp db
  pub rows :
      (n : ℕ)
      → laws.header_rows db n ≡ (if leb n v.tip then some (sys.encode_header (v.block n)) else none)
  pub hashes : (s : Str) → laws.hash_rows db s ≡ v.number_of s
  pub numbering : IsNumbered v

-- The conversions of a read's three calls are one conversion of the whole read.
three_steps :
    {A B C D : Type 0} (m : Result RedbError A) (f : A → Result RedbError B)
    (g : B → Result RedbError C) (k : C → Result Error D)
    → and_then (from_db m) (λ a. and_then (from_db (f a)) λ b. and_then (from_db (g b)) k)
      ≡ and_then (from_db (and_then m λ a. and_then (f a) g)) k
three_steps (ok a) f g k = and_then-map_err from_redb (f a) g k
three_steps (err e) f g k = refl
three_steps panic f g k = refl

module _ {sys : System} (laws : Laws sys) (db : sys.Db) (v : View) (shown : Shows laws db v) where
  pub get_lem : (n : ℕ) → get_header_by_block_number sys db n ≡ found (lookup v n)
  unfolding get_header_by_block_number
  get_lem n =
      three_steps (sys.begin_read db) sys.open_header_table (λ t. sys.header_get t n) _
      ∙ (rw (laws.read_header_lem db n shown.up, shown.rows n)
          (elim (Bool-cases (leb n v.tip)) [
            | inl e ↦ rw e (rw (laws.decode-encode (v.block n)) refl)
            | inr e ↦ rw e refl
          ]))

  pub get_hash_lem : (s : Str) → get_header_by_hash sys db s ≡ found (lookup_hash v s)
  unfolding get_header_by_hash
  get_hash_lem s =
      three_steps (sys.begin_read db) sys.open_hash_table (λ t. sys.hash_get t s) _
      ∙ (rw (laws.read_hash_lem db s shown.up, shown.hashes s)
          (elim (Option-cases (v.number_of s)) [
            | inl e ↦ rw (e, lookup_hash) refl
            | inr (n, e) ↦ rw (e, lookup_hash) (get_lem n)
          ]))

  last_row :
      (o : Option (ℕ × Bytes))
      → IsLast (laws.header_rows db) o
      → o ≡ some (v.tip, sys.encode_header (v.block v.tip))
  last_row none l = ground (arith, l v.tip, shown.rows v.tip)
  last_row (some (n, row)) l = ground (arith, l.1 v.tip, shown.rows n, shown.rows v.tip)

  pub tip_lem : tip sys db ≡ ok (v.block v.tip)
  unfolding tip
  tip_lem =
      let (o, read, l) = laws.read_last_lem db shown.up in
      three_steps (sys.begin_read db) sys.open_header_table sys.header_last _
      ∙ (rw (read, last_row o l) (rw (laws.decode-encode (v.block v.tip)) refl))

  pub check_lem :
      (h : Header)
      → h.number + 1 < u64_mod
      → validate_adjacent_block_header sys db h ≡ check (genesis sys) sys.overflow_checks v h
  unfolding validate_adjacent_block_header check
  check_lem h fits = ground (
    arith,
    get_lem (h.number - 1),
    get_lem (h.number + u64_mod - 1),
    shown.numbering.numbered (h.number - 1),
    shown.numbering.fits,
  )

  -- Over a database that shows a view each read of the chain answers by the view: a header by its
  -- number up to the tip, a header by an indexed hash, and the header at the tip; anything else is
  -- not found.
  pub reads_lem :
      (n : ℕ) (s : Str)
      → (get_header_by_block_number sys db n ≡ found (lookup v n))
        × (get_header_by_hash sys db s ≡ found (lookup_hash v s))
        × (tip sys db ≡ ok (v.block v.tip))
  reads_lem n s = (get_lem n, get_hash_lem s, tip_lem)
