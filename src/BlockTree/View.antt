-- ===== src/BlockTree/View.antt =====
-- What a block tree shows: a tip, a header at each number up to it, and the number that a hash is
-- indexed under. The operations of the trait as functions of such a view.
use simb.Prelude.{
  ℕ, ◌+◌, ◌-◌, ◌≤◌, ◌<◌, ◌≡◌, Bool, Option, none, some, max, Str, ltb, leb, ◌==◌, str_eq,
  if◌then◌else◌,
}
use simb.Prelude.Result.{Result, ok, err, panic}
use simb.Interface.{Header, header_eq}
use simb.External.{u64_mod}
use simb.BlockTree.Types.{
  Error, invalid, block_header_not_found, AddedBlockResult, extend_tip, already_in_chain,
}

pub record View : Type 0 where
  pub tip : ℕ
  pub block : ℕ → Header
  pub number_of : Str → Option ℕ

-- The headers carry the numbers that they are stored under, and the tip is below the last u64.
pub record IsNumbered (v : View) : Type 0 where
  pub numbered : (n : ℕ) → n ≤ v.tip → (v.block n).number ≡ n
  pub fits : v.tip + 1 < u64_mod

abbrev pub found : Option Header → Result Error Header
found none = err block_header_not_found
found (some h) = ok h

abbrev pub lookup : View → ℕ → Option Header
lookup v n = if leb n v.tip then some (v.block n) else none

abbrev pub lookup_hash : View → Str → Option Header
lookup_hash v s = elim (v.number_of s) [ none ↦ none | some n ↦ lookup v n ]

-- Whether a header may be stored: it is the genesis header, or its parent is there and has the
-- hash that it names. A header with number 0 that is not the genesis header has no parent: the
-- subtraction stops a checked build, and wraps to a number above every tip in another.
unfoldable pub check : Header → Bool → View → Header → Result Error (Unit {0})
check genesis checks v h =
    if header_eq h genesis
    then ok tt
    else if h.number == 0
    then (if checks then panic else err block_header_not_found)
    else if ltb v.tip (h.number - 1)
    then err block_header_not_found
    else if str_eq (v.block (h.number - 1)).hash h.parent_hash
    then ok tt
    else err invalid

unfoldable pub put : View → Header → View
put v h = record {
  tip = max v.tip h.number;
  block = λ n. if h.number == n then h else v.block n;
  number_of = λ s. if str_eq h.hash s then some h.number else v.number_of s;
}

abbrev pub put_checked :
    Result Error (Unit {0}) → View → Header → Result Error AddedBlockResult × View
put_checked (ok _) v h = (ok (if ltb v.tip h.number then extend_tip else already_in_chain), put v h)
put_checked (err e) v h = (err e, v)
put_checked panic v h = (panic, v)

unfoldable pub add : Header → Bool → View → Header → Result Error AddedBlockResult × View
add genesis checks v h = put_checked (check genesis checks v h) v h
