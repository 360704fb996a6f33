-- ===== src/Tests/Chains.antt =====
-- The theorems about the chain, at a chain of three headers in memory.
use simb.Prelude.{ℕ, ◌≡◌, refl, [], ◌∷◌, arith, Str, str_eq, text, ◌==◌, if◌then◌else◌}
use simb.Prelude.Result.{ok, err}
use simb.Prelude.BTreeMap
use simb.Prelude.Order.{str_ord, ℕ_ord, str_cmp}
use simb.Interface.{Header, header_eq}
use simb.BlockTree.Types.{extend_tip, already_in_chain, invalid, block_header_not_found}
use simb.BlockTree.Reads.{
  genesis, tip, get_header_by_block_number, get_header_by_hash, validate_adjacent_block_header,
}
use simb.BlockTree.Chain.{try_add_block_header, write_header}
use simb.BlockTree.View.{View}
use simb.BlockTree.Shown.{Shows}
use simb.Tests.Memory.{Rows, encode, memory, memory_laws}

abbrev pub genesis_header : Header
genesis_header = record {
  number = 0;
  parent_hash = text "genesis";
  state_root = text "0x";
  timestamp = 1705551177;
  nonce = 17012;
  hash = 0 ∷ 17012 ∷ [];
}

-- A header with a number, a nonce and a parent.
abbrev pub header : ℕ → ℕ → Str → Header
header n nonce parent = record {
  number = n;
  parent_hash = parent;
  state_root = [];
  timestamp = 0;
  nonce = nonce;
  hash = n ∷ nonce ∷ [];
}

abbrev pub first : Header
first = header 1 7 genesis_header.hash

abbrev pub second : Header
second = header 2 9 first.hash

abbrev pub third : Header
third = header 3 4 second.hash

-- A header that competes with `first`, and one with no number.
abbrev pub rival : Header
rival = header 1 8 genesis_header.hash

abbrev pub rows : Rows
rows = record {
  headers = (0, encode genesis_header) ∷ (1, encode first) ∷ (2, encode second) ∷ [];
  hashes = (genesis_header.hash, 0) ∷ (first.hash, 1) ∷ (second.hash, 2) ∷ [];
}

abbrev pub view : View
view = record {
  tip = 2;
  block = λ n. if n == 0 then genesis_header else if n == 1 then first else second;
  number_of = λ s. BTreeMap.get s rows.hashes;
}

pub rows-Shows : Shows memory_laws rows view
unfolding BTreeMap.get
rows-Shows = record {
  up = ((refl, (refl, tt)), ((refl, tt), (tt, tt)));
  rows = λ n. ground arith;
  hashes = λ s. refl;
  numbering = record { numbered = λ n le. ground arith; fits = omega arith };
}

-- What a run of `Chain` in memory computes with.
unfoldable pub run {ℓ} : {A : Type ℓ} → A → A
unfolding try_add_block_header validate_adjacent_block_header header_eq genesis
    get_header_by_block_number get_header_by_hash BTreeMap.get str_eq tip BTreeMap.last_key_value
    write_header BTreeMap.put str_cmp
run a = a

add_third : (try_add_block_header memory third rows).0 ≡ ok extend_tip
unfolding run
add_third = refl

add_second_again : try_add_block_header memory second rows ≡ (ok already_in_chain, rows)
unfolding run
add_second_again = refl

add_ahead : try_add_block_header memory (header 100 0 []) rows ≡ (err block_header_not_found, rows)
unfolding run
add_ahead = refl

add_default : try_add_block_header memory (header 1 0 []) rows ≡ (err invalid, rows)
unfolding run
add_default = refl

add_genesis : try_add_block_header memory genesis_header rows ≡ (ok already_in_chain, rows)
unfolding run
add_genesis = refl
