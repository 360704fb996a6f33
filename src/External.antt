-- ===== src/External.antt =====
-- What src/blocktree.rs calls and does not contain: the database (redb), the header codec
-- (alloy_rlp), the hash (serde_json, sha2, hex), the timer (tokio), and how the build treats
-- integer overflow.
use simb.Prelude.{
  ℕ, ◌-◌, ◌+◌, ◌<◌, ◌^◌, ◌%◌, ◌≤◌, ◌≡◌, Bool, true, false, List, Option, none, some, Str, ltb, leb,
  ◌==◌, str_eq, if◌then◌else◌,
}
use simb.Prelude.Result.{Result, ok, panic, and_then}
use simb.Interface.{Header}

abbrev pub Bytes : Type 0
Bytes = List ℕ

-- The four error types of redb that the program converts, each with its text.
pub data RedbError : Type 0 where
  transaction_error storage_error commit_error table_error : Str → RedbError

pub record System : Type 1 where
  -- redb: a database file, its transactions, and the two tables HEADER and HASH.
  pub Db : Type 0
  pub ReadTxn : Type 0
  pub HeaderTable : Type 0
  pub HashTable : Type 0
  pub WriteTxn : Type 0
  pub begin_read : Db → Result RedbError ReadTxn
  pub open_header_table : ReadTxn → Result RedbError HeaderTable
  pub header_get : HeaderTable → ℕ → Result RedbError (Option Bytes)
  pub header_last : HeaderTable → Result RedbError (Option (ℕ × Bytes))
  pub open_hash_table : ReadTxn → Result RedbError HashTable
  pub hash_get : HashTable → Str → Result RedbError (Option ℕ)
  pub begin_write : Db → Result RedbError WriteTxn
  -- The table is opened for writing, and a row is inserted.
  pub header_insert : WriteTxn → ℕ → Bytes → Result RedbError WriteTxn
  pub hash_insert : WriteTxn → Str → ℕ → Result RedbError WriteTxn
  pub commit : WriteTxn → Result RedbError Db
  -- alloy_rlp, as derived for `Header`.
  pub encode_header : Header → Bytes
  pub decode_header : Bytes → Option Header
  -- serde_json: the text of the object that `calculate_hash` builds, from its six values.
  pub hash_json : ℕ → Str → Str → Str → ℕ → ℕ → Bytes
  pub sha256 : Bytes → Bytes
  pub hex : Bytes → Str
  -- tokio: whether `time::interval` makes a timer of so many seconds, and does not panic.
  pub interval : ℕ → Bool
  -- Whether the build stops at an integer overflow (a debug build) or wraps (a release build).
  pub overflow_checks : Bool

abbrev pub u64_mod : ℕ
u64_mod = 2 ^ 64

-- a + b and a - b on u64.
abbrev pub add_u64 : {E : Type 0} → Bool → ℕ → ℕ → Result E ℕ
add_u64 checks a b =
    if ltb (a + b) u64_mod then ok (a + b) else if checks then panic else ok ((a + b) % u64_mod)

abbrev pub sub_u64 : {E : Type 0} → Bool → ℕ → ℕ → Result E ℕ
sub_u64 checks a b = if leb b a then ok (a - b) else if checks then panic else ok (a + u64_mod - b)

-- The calls of redb, in the order in which the program makes them for one access.
module _ (sys : System) where
  open sys use {
    Db, begin_read, open_header_table, header_get, header_last, open_hash_table, hash_get,
    begin_write, header_insert, hash_insert, commit,
  }

  abbrev pub read_header : Db → ℕ → Result RedbError (Option Bytes)
  read_header db n =
      and_then (begin_read db) λ txn. and_then (open_header_table txn) λ table. header_get table n

  abbrev pub read_last : Db → Result RedbError (Option (ℕ × Bytes))
  read_last db =
      and_then (begin_read db) λ txn. and_then (open_header_table txn) λ table. header_last table

  abbrev pub read_hash : Db → Str → Result RedbError (Option ℕ)
  read_hash db s =
      and_then (begin_read db) λ txn. and_then (open_hash_table txn) λ table. hash_get table s

  abbrev pub write_rows : Db → ℕ → Bytes → Str → Result RedbError Db
  write_rows db n row s = and_then (begin_write db) λ txn.
      and_then (header_insert txn n row)
        λ txn'. and_then (hash_insert txn' s n) λ txn''. commit txn''

-- `o` is the row with the greatest key, if there is a row.
abbrev pub IsLast : (ℕ → Option Bytes) → Option (ℕ × Bytes) → Type 0
IsLast rows none = (n : ℕ) → rows n ≡ none
IsLast rows (some (n, row)) = (rows n ≡ some row) × ((m : ℕ) → n < m → rows m ≡ none)

-- What the documentation of redb and alloy_rlp promises of a database that works: reads show the
-- committed rows, a committed transaction changes the rows that it wrote and no other, and what
-- was encoded can be decoded; and that of tokio: a timer has any period but zero.
pub record Laws (sys : System) : Type 1 where
  -- The file can be written; its two tables exist too.
  pub IsOpen : sys.Db → Type 0
  pub IsUp : sys.Db → Type 0
  pub IsUp-IsOpen : (db : sys.Db) → IsUp db → IsOpen db
  pub header_rows : sys.Db → ℕ → Option Bytes
  pub hash_rows : sys.Db → Str → Option ℕ
  pub read_header_lem :
      (db : sys.Db) (n : ℕ) → IsUp db → read_header sys db n ≡ ok (header_rows db n)
  pub read_hash_lem : (db : sys.Db) (s : Str) → IsUp db → read_hash sys db s ≡ ok (hash_rows db s)
  pub read_last_lem :
      (db : sys.Db)
      → IsUp db
      → (o : Option (ℕ × Bytes)) × (read_last sys db ≡ ok o) × IsLast (header_rows db) o
  pub write_rows_lem :
      (db : sys.Db) (n : ℕ) (row : Bytes) (s : Str)
      → IsOpen db
      → (db' : sys.Db) × (write_rows sys db n row s ≡ ok db')
        × IsUp db'
        × ((m : ℕ) → header_rows db' m ≡ (if n == m then some row else header_rows db m))
        × ((t : Str) → hash_rows db' t ≡ (if str_eq s t then some n else hash_rows db t))
  pub decode-encode : (h : Header) → sys.decode_header (sys.encode_header h) ≡ some h
  pub interval-zero : sys.interval 0 ≡ false
  pub interval-positive : (itv : ℕ) → 1 ≤ itv → sys.interval itv ≡ true
