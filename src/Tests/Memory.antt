-- ===== src/Tests/Memory.antt =====
-- A database in memory and a header codec that meet the laws of External.antt, so that the
-- theorems can be applied to concrete chains.
use simb.Prelude.{
  ltb, ◌≤◌, ℕ, zero, suc, ◌≡◌, refl, ap, inl, inr, true, List, [], ◌∷◌, ◌++◌, Option, none, some,
  arith, Str, str_eq, str_eq_iff, ◌==◌, length, if◌then◌else◌, Option-cases,
}
use simb.Prelude.Result.{ok}
use simb.Prelude.BTreeMap
use simb.Prelude.BTreeMap.{BTreeMap, IsSorted, get-put, put-IsSorted, last_found, last_none}
use simb.Prelude.Order.{str_ord, ℕ_ord, str_cmp-eq}
use simb.Interface.{Header}
use simb.External.{System, Laws, Bytes, IsLast}

abbrev pub take : ℕ → List ℕ → List ℕ
take zero xs = []
take (suc n) [] = []
take (suc n) (x ∷ xs) = x ∷ take n xs

abbrev pub drop : ℕ → List ℕ → List ℕ
drop zero xs = xs
drop (suc n) [] = []
drop (suc n) (x ∷ xs) = drop n xs

take-append : (xs ys : List ℕ) → take (length xs) (xs ++ ys) ≡ xs
take-append [] ys = refl
take-append (x ∷ xs) ys = ap (λ r. x ∷ r) (take-append xs ys)

drop-append : (xs ys : List ℕ) → drop (length xs) (xs ++ ys) ≡ ys
drop-append [] ys = refl
drop-append (x ∷ xs) ys = drop-append xs ys

abbrev pub encode : Header → Bytes
encode h =
    h.number
    ∷ h.timestamp
    ∷ h.nonce
    ∷ length h.parent_hash
    ∷ length h.state_root
    ∷ (h.parent_hash ++ (h.state_root ++ h.hash))

abbrev pub decode : Bytes → Option Header
decode (number ∷ timestamp ∷ nonce ∷ p ∷ s ∷ rest) = some (record {
  number = number;
  parent_hash = take p rest;
  state_root = take s (drop p rest);
  timestamp = timestamp;
  nonce = nonce;
  hash = drop s (drop p rest);
})
decode _ = none

pub decode-encode : (h : Header) → decode (encode h) ≡ some h
decode-encode h = rw (take-append h.parent_hash (h.state_root ++ h.hash)) (
    rw (drop-append h.parent_hash (h.state_root ++ h.hash))
      (rw (take-append h.state_root h.hash) (rw (drop-append h.state_root h.hash) refl)))

pub record Rows : Type 0 where
  pub headers : BTreeMap ℕ Bytes
  pub hashes : BTreeMap Str ℕ

abbrev pub last_row : Rows → Option (ℕ × Bytes)
last_row db = BTreeMap.last_key_value db.headers

-- The hash is a stub that tells the numbers and nonces of headers apart.
abbrev pub memory : System
memory = record {
  Db = Rows;
  ReadTxn = Rows;
  HeaderTable = Rows;
  HashTable = Rows;
  WriteTxn = Rows;
  begin_read = λ db. ok db;
  open_header_table = λ db. ok db;
  header_get = λ db n. ok (BTreeMap.get n db.headers);
  header_last = λ db. ok (last_row db);
  open_hash_table = λ db. ok db;
  hash_get = λ db s. ok (BTreeMap.get s db.hashes);
  begin_write = λ db. ok db;
  header_insert = λ db n row. ok (record db { headers = BTreeMap.put n row db.headers });
  hash_insert = λ db s n. ok (record db { hashes = BTreeMap.put s n db.hashes });
  commit = λ db. ok db;
  encode_header = encode;
  decode_header = decode;
  hash_json = λ number parent block_data state timestamp nonce. number ∷ nonce ∷ [];
  sha256 = λ bytes. bytes;
  hex = λ bytes. bytes;
  interval = λ itv. ltb 0 itv;
  overflow_checks = true;
}

pub last_row_law :
    (db : Rows) → IsSorted db.headers → IsLast (λ n. BTreeMap.get n db.headers) (last_row db)
last_row_law db s = elim (Option-cases (last_row db)) [
  | inl e ↦ rw e (λ n. last_none db.headers e n)
  | inr (row, e) ↦
      let (here, above) = last_found db.headers s e in rw e (here, λ m h. above m (ground arith))
]

pub headers-put :
    (db : Rows) (n m : ℕ) (row : Bytes)
    → BTreeMap.get m (BTreeMap.put n row db.headers)
      ≡ (if n == m then some row else BTreeMap.get m db.headers)
headers-put db n m row = ground (arith, get-put n m row db.headers)

pub hashes-put :
    (db : Rows) (s t : Str) (n : ℕ)
    → BTreeMap.get t (BTreeMap.put s n db.hashes)
      ≡ (if str_eq s t then some n else BTreeMap.get t db.hashes)
hashes-put db s t n = ground (arith, get-put s t n db.hashes, str_cmp-eq s t, str_eq_iff s t)

pub positive-ltb : (itv : ℕ) → 1 ≤ itv → ltb 0 itv ≡ true
positive-ltb itv positive = ground arith

abbrev pub memory_laws : Laws memory
memory_laws = record {
  IsOpen = λ db. IsSorted db.headers;
  IsUp = λ db. IsSorted db.headers;
  IsUp-IsOpen = λ db up. up;
  header_rows = λ db n. BTreeMap.get n db.headers;
  hash_rows = λ db s. BTreeMap.get s db.hashes;
  read_header_lem = λ db n up. refl;
  read_hash_lem = λ db s up. refl;
  read_last_lem = λ db up. (last_row db, refl, last_row_law db up);
  write_rows_lem = λ db n row s o. (
    record { headers = BTreeMap.put n row db.headers; hashes = BTreeMap.put s n db.hashes },
    refl,
    put-IsSorted n row db.headers o,
    (λ m. headers-put db n m row),
    (λ t. hashes-put db s t n),
  );
  decode-encode = decode-encode;
  interval-zero = refl;
  interval-positive = positive-ltb;
}
