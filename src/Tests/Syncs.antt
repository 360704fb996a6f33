-- ===== src/Tests/Syncs.antt =====
-- The theorems about downloads, at a download of three headers in batches of two.
use mathlib.Core.List.{Perm}
use simb.Prelude.{ℕ, ◌≡◌, refl, ◌⊎◌, List, [], ◌∷◌, ◌++◌, some, arith, replicate}
use simb.Prelude.Result.{ok}
use simb.Interface.{Header, HeadersRequest}
use simb.SyncHeader.{SyncHeaderBuilder, SyncHeader, build, ready, pending, poll}
use simb.SyncHeader.Requests.{blocks}
use simb.SyncHeader.Answers.{honest}
use simb.SyncHeader.Download.{polls, download_in_order, download_any_order}
use simb.SyncHeader.Progress.{download_done}
use simb.SyncHeader.Failing.{order_lost}
use simb.Tests.Chains.{header}
use simb.Tests.ChainTheorems.{failures}

abbrev pub block : ℕ → Header
block n = header n 0 []

abbrev pub builder : SyncHeaderBuilder Unit ℕ
builder = record {
  provider = some tt;
  peer_id = some 5;
  local_head_block = 0;
  target_head = 3;
  request_limit = 2;
  max_concurrent_limit = 2;
}

abbrev pub syncer : SyncHeader Unit ℕ
syncer = record {
  provider = tt;
  in_progress_queue = [];
  queued_headers = [];
  max_concurrent_limit = 2;
  local_head_block = 0;
  request_limit = 2;
  target_head = 3;
  peer_id = 5;
}

builds : build {E = ⊥} builder ≡ ok syncer
unfolding build
builds = refl

-- A first call that finds nothing, and one that finds an answer and then another.
abbrev calls : List (List (List ℕ))
calls = [] ∷ ((0 ∷ []) ∷ (0 ∷ []) ∷ []) ∷ []

download_in_order_example :
    ((polls {F = failures} (honest block) calls syncer).0 ≡ pending)
    ⊎ ((polls {F = failures} (honest block) calls syncer).0 ≡ ready (ok (blocks block 1 3)))
download_in_order_example =
    download_in_order {E = ⊥} block builder syncer calls builds (omega arith) (omega arith)
      (tt, (((refl, tt), ((refl, tt), tt)), tt))

download_any_order_example :
    ((polls {F = failures} (honest block) calls syncer).0 ≡ pending)
    ⊎ ((out : List Header) × ((polls {F = failures} (honest block) calls syncer).0 ≡ ready (ok out))
        × Perm out (blocks block 1 3))
download_any_order_example =
    download_any_order {E = ⊥} block builder syncer calls builds (omega arith) (omega arith)

download_done_example :
    (polls {F = failures} (honest block) (replicate 4 (replicate 2 0 ∷ [])) syncer).0
    ≡ ready (ok (blocks block 1 3))
download_done_example =
    download_done {E = ⊥} block builder syncer builds (omega arith) (omega arith)

abbrev pub request : ℕ → ℕ → HeadersRequest
request start limit = record { limit = limit; start_block = start }

-- The state in which both requests are out.
abbrev pub both_out : SyncHeader Unit ℕ
both_out = record syncer {
  in_progress_queue = request 1 2 ∷ request 3 1 ∷ [];
  local_head_block = 3;
}

order_lost_example :
    (poll {F = failures} (honest block) ((1 ∷ 0 ∷ []) ∷ []) both_out).0
    ≡ ready (ok (([] ++ blocks block 3 1) ++ blocks block 1 2))
order_lost_example =
    order_lost block both_out (request 1 2) (request 3 1) refl (omega arith) (omega arith)
      (omega arith)
