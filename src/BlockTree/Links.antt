-- ===== src/BlockTree/Links.antt =====
-- src/blocktree.rs: whether each stored header names the hash of the one below it.
use simb.Prelude.{
  ℕ, ◌+◌, ◌-◌, ◌≤◌, ◌<◌, ◌≡◌, ◌≢◌, sym, ap, subst, ◌∙◌, ◌⊎◌, inr, Bool, some, arith, str_eq_iff,
}
use simb.Prelude.Result.{ok}
use simb.Interface.{Header, header_eq_iff}
use simb.External.{System, Laws, u64_mod}
use simb.BlockTree.Types.{already_in_chain}
use simb.BlockTree.Reads.{genesis, get_header_by_block_number, get_header_by_hash}
use simb.BlockTree.Chain.{try_add_block_header}
use simb.BlockTree.Shown.{Shows, get_lem, get_hash_lem}
use simb.BlockTree.Refinement.{passed, refused, crashed, try_add-Ended, genesis_number}
use simb.BlockTree.Added.{adjacent-Agrees, lookup-put, lookup-put_ne}
use simb.BlockTree.View.{View, found, lookup_hash, check, put}

abbrev pub IsLinked : View → Type 0
IsLinked v = (n : ℕ) → n < v.tip → (v.block (n + 1)).parent_hash ≡ (v.block n).hash

pub put-IsLinked :
    (g : Header) (checks : Bool) (v : View) (h : Header)
    → g.number ≡ 0
    → check g checks v h ≡ ok tt
    → IsLinked v
    → (v.tip < h.number) ⊎ (h.hash ≡ (v.block h.number).hash)
    → IsLinked (put v h)
unfolding put check
put-IsLinked g checks v h zero e linked kept n below =
    ground
      (arith, header_eq_iff h g, str_eq_iff (v.block (h.number - 1)).hash h.parent_hash, linked n)

lookup_hash_known :
    (v : View) (n : ℕ)
    → v.number_of (v.block n).hash ≡ some n
    → n ≤ v.tip
    → found (lookup_hash v (v.block n).hash) ≡ ok (v.block n)
lookup_hash_known v n indexed low = ground arith

lookup_hash-put_ne :
    (v : View) (h : Header)
    → v.number_of (v.block h.number).hash ≡ some h.number
    → h.hash ≢ (v.block h.number).hash
    → found (lookup_hash (put v h) (v.block h.number).hash) ≡ ok h
unfolding put
lookup_hash-put_ne v h indexed fork = ground (arith, str_eq_iff h.hash (v.block h.number).hash)

module _ {sys : System} (laws : Laws sys) (db : sys.Db) (v : View) (h : Header) where
  abbrev after : sys.Db
  after = (try_add_block_header sys h db).1

  -- A database that shows a linked chain shows one after a call with a header above the tip, or
  -- with the hash of the one at its number, stored or refused. The number must be below the last
  -- u64.
  pub try_add-IsLinked :
      Shows laws db v
      → h.number + 1 < u64_mod
      → IsLinked v
      → (v.tip < h.number) ⊎ (h.hash ≡ (v.block h.number).hash)
      → (v' : View) × Shows laws after v' × IsLinked v'
  try_add-IsLinked shown fits linked kept = elim (try_add-Ended laws db v h shown fits) [
    | passed e agrees ↦ (
      put v h,
      agrees.1,
      put-IsLinked (genesis sys) sys.overflow_checks v h (genesis_number sys) e linked kept,
    )
    | refused x e same ↦ (v, subst (λ s. Shows laws s v) (sym (ap (λ t. t.1) same)) shown, linked)
    | crashed e same ↦ (v, subst (λ s. Shows laws s v) (sym (ap (λ t. t.1) same)) shown, linked)
  ]

  fork_breaks_links :
      Shows laws db v
      → IsLinked v
      → v.tip + 1 < u64_mod
      → 1 ≤ h.number
      → h.number < v.tip
      → (v.block (h.number - 1)).hash ≡ h.parent_hash
      → h.hash ≢ (v.block h.number).hash
      → ((try_add_block_header sys h db).0 ≡ ok already_in_chain)
        × (get_header_by_block_number sys after h.number ≡ ok h)
        × ((child : Header) × (get_header_by_block_number sys after (h.number + 1) ≡ ok child)
            × (child.parent_hash ≢ h.hash))
  fork_breaks_links shown linked fits low high parent fork =
      let agrees =
        adjacent-Agrees laws db v h shown (omega arith) (inr (low, omega arith, parent)) in
      (
        ground (arith, agrees.0),
        get_lem laws after (put v h) agrees.1 h.number ∙ lookup-put v h,
        (
          v.block (h.number + 1),
          get_lem laws after (put v h) agrees.1 (h.number + 1)
              ∙ lookup-put_ne v h (h.number + 1) (omega arith) (omega arith),
          λ same. fork (cc (same, linked h.number high)),
        ),
      )

  fork_leaves_hash :
      Shows laws db v
      → v.tip + 1 < u64_mod
      → 1 ≤ h.number
      → h.number ≤ v.tip
      → (v.block (h.number - 1)).hash ≡ h.parent_hash
      → h.hash ≢ (v.block h.number).hash
      → v.number_of (v.block h.number).hash ≡ some h.number
      → (get_header_by_hash sys db (v.block h.number).hash ≡ ok (v.block h.number))
        × (get_header_by_hash sys after (v.block h.number).hash ≡ ok h)
  fork_leaves_hash shown fits low high parent fork indexed =
      let agrees =
        adjacent-Agrees laws db v h shown (omega arith) (inr (low, omega arith, parent)) in
      (
        get_hash_lem laws db v shown (v.block h.number).hash
            ∙ lookup_hash_known v h.number indexed high,
        get_hash_lem laws after (put v h) agrees.1 (v.block h.number).hash
            ∙ lookup_hash-put_ne v h indexed fork,
      )

  -- A header that names its parent's hash and competes with a stored one below the tip, with
  -- another hash, replaces it in a linked chain: the call answers `AlreadyInChain`, and the header
  -- above no longer names the hash below it. Where the one that was replaced was indexed under its
  -- number, its hash still leads to that number, so a search for it, which found it, finds the
  -- other header. The tip must be below the last u64, and the number positive.
  pub fork_lem :
      Shows laws db v
      → IsLinked v
      → v.tip + 1 < u64_mod
      → 1 ≤ h.number
      → h.number < v.tip
      → (v.block (h.number - 1)).hash ≡ h.parent_hash
      → h.hash ≢ (v.block h.number).hash
      → v.number_of (v.block h.number).hash ≡ some h.number
      → ((try_add_block_header sys h db).0 ≡ ok already_in_chain)
        × (get_header_by_block_number sys after h.number ≡ ok h)
        × ((child : Header) × (get_header_by_block_number sys after (h.number + 1) ≡ ok child)
            × (child.parent_hash ≢ h.hash))
        × (get_header_by_hash sys db (v.block h.number).hash ≡ ok (v.block h.number))
        × (get_header_by_hash sys after (v.block h.number).hash ≡ ok h)
  fork_lem shown linked fits low high parent fork indexed =
      let (answer, now, above) = fork_breaks_links shown linked fits low high parent fork in
      let (was, finds) = fork_leaves_hash shown fits low (omega arith) parent fork indexed in
      (answer, now, above, was, finds)
