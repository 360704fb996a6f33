-- ===== src/Tests/ChainTheorems.antt =====
-- The theorems about the chain, applied at the chain of three headers.
use simb.Prelude.{◌↔◌, ◌⊎◌, ◌≡◌, ◌≢◌, refl, inl, ap, [], arith, true}
use simb.Prelude.Result.{ok, panic}
use simb.Prelude.BTreeMap
use simb.Prelude.Order.{str_ord, ℕ_ord, str_cmp}
use simb.Interface.{Header, Failures}
use simb.BlockTree.Types.{extend_tip, already_in_chain, block_header_not_found}
use simb.BlockTree.Reads.{genesis, tip, get_header_by_block_number, get_header_by_hash}
use simb.BlockTree.Chain.{try_add_block_header}
use simb.BlockTree.View.{View, add}
use simb.BlockTree.Shown.{Shows, reads_lem}
use simb.BlockTree.Refinement.{add_lem}
use simb.BlockTree.Added.{
  accepts_iff, IsStored, IsAdjacent, refuses_lem, zero_number_lem, stored_found,
}
use simb.BlockTree.Links.{IsLinked, try_add-IsLinked, fork_lem}
use simb.Tests.Memory.{memory, memory_laws}
use simb.Tests.Chains.{run, header, first, second, third, rival, rows, view, rows-Shows}

add_lem_example :
    (try_add_block_header memory third rows).0 ≡ (add (genesis memory) true view third).0
add_lem_example = (add_lem memory_laws rows view third rows-Shows (omega arith)).0

reads_example :
    (get_header_by_block_number memory rows 1 ≡ ok first)
    × (get_header_by_hash memory rows first.hash ≡ ok first)
    × (tip memory rows ≡ ok second)
unfolding BTreeMap.get str_cmp
reads_example = reads_lem memory_laws rows view rows-Shows 1 first.hash

accepts_example :
    (IsStored memory_laws rows view third ↔ IsAdjacent (genesis memory) view third)
    × (IsAdjacent (genesis memory) view third ⊎ ((try_add_block_header memory third rows).1 ≡ rows))
accepts_example = accepts_iff memory_laws rows view third rows-Shows (omega arith)

refuses_example : (try_add_block_header memory (header 100 0 []) rows).1 ≡ rows
unfolding run
refuses_example =
    (refuses_lem memory_laws rows view (header 100 0 []) rows-Shows (omega arith)
      block_header_not_found refl).0

not_genesis : header 0 5 [] ≢ genesis memory
unfolding genesis
not_genesis e = cc (ap (λ (h : Header). h.nonce) e)

zero_number_example : try_add_block_header memory (header 0 5 []) rows ≡ (panic, rows)
zero_number_example =
    zero_number_lem memory_laws rows view (header 0 5 []) rows-Shows refl not_genesis

stored_found_example :
    get_header_by_hash memory (try_add_block_header memory third rows).1 third.hash ≡ ok third
unfolding run
stored_found_example =
    (stored_found memory_laws rows view third rows-Shows (omega arith) extend_tip refl).1

view-IsLinked : IsLinked view
view-IsLinked n below = ground arith

links_example :
    (v : View) × Shows memory_laws (try_add_block_header memory third rows).1 v × IsLinked v
links_example =
    try_add-IsLinked memory_laws rows view third rows-Shows (omega arith) view-IsLinked
      (inl (omega arith))

fork_example :
    ((try_add_block_header memory rival rows).0 ≡ ok already_in_chain)
    × (get_header_by_hash memory (try_add_block_header memory rival rows).1 first.hash ≡ ok rival)
unfolding run
fork_example =
    let all =
      fork_lem memory_laws rows view rival rows-Shows view-IsLinked (omega arith) (omega arith)
        (omega arith) refl (λ e. cc e) refl in
    (all.0, all.4)

abbrev pub failures : Failures
failures = record {
  OutboundFailure = Unit {0};
  DialError = Unit {0};
  TransportError = Unit {0};
  PublishError = Unit {0};
}
