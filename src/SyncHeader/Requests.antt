-- ===== src/SyncHeader/Requests.antt =====
-- src/tasks/sync_header.rs: the requests of a download, and the headers that they ask for.
use mathlib.Core.List.{append_assoc}
use simb.Prelude.{
  ℕ, zero, suc, ◌+◌, ◌-◌, ◌≤◌, ◌<◌, max, ◌≡◌, refl, sym, ap, List, [], ◌∷◌, ◌++◌, Bool, true, false,
  arith, length, length-append, All, All-append, ltb, ltb→lt, inl, inr, Bool-cases,
}
use simb.Interface.{Header, HeadersRequest}
use simb.SyncHeader.{SyncHeader, next_request, send_request, send_loop, send_requests}

-- The headers with the numbers from `n` on, `k` of them.
unfoldable pub blocks : (ℕ → Header) → ℕ → ℕ → List Header
blocks block n zero = []
blocks block n (suc k) = block n ∷ blocks block (n + 1) k

pub blocks-append :
    (block : ℕ → Header) (n j k : ℕ)
    → blocks block n (j + k) ≡ blocks block n j ++ blocks block (n + j) k
unfolding blocks
blocks-append block n zero k =
    let e : 0 + k ≡ k = omega arith in let e' : n + 0 ≡ n = omega arith in rw (e, e') refl
blocks-append block n (suc j) k =
    let e : suc j + k ≡ suc (j + k) = omega arith in
    let e' : n + suc j ≡ n + 1 + j = omega arith in
    rw (e, e') (ap (λ bs. block n ∷ bs) (blocks-append block (n + 1) j k))

pub blocks_join :
    (block : ℕ → Header) (n j m k t : ℕ)
    → m ≡ n + j
    → t ≡ j + k
    → blocks block n j ++ blocks block m k ≡ blocks block n t
blocks_join block n j m k t p q = rw (p, q) (sym (blocks-append block n j k))

-- What the requests of a queue ask for, in the order of the queue.
unfoldable pub asked : (ℕ → Header) → List HeadersRequest → List Header
asked block [] = []
asked block (r ∷ rs) = blocks block r.start_block r.limit ++ asked block rs

pub asked-append :
    (block : ℕ → Header) (rs qs : List HeadersRequest)
    → asked block (rs ++ qs) ≡ asked block rs ++ asked block qs
unfolding asked
asked-append block [] qs = refl
asked-append block (r ∷ rs) qs =
    rw (asked-append block rs qs) (sym (append_assoc (blocks block r.start_block r.limit) _ _))

-- The fields that stay as they were built.
pub record Settings : Type 0 where
  pub start : ℕ
  pub target : ℕ
  pub limit : ℕ
  pub places : ℕ

-- The state of a download from `start` to `target`: what it may hold on to, and how far it is.
pub record IsSyncing {H P : Type 0} (c : Settings) (s : SyncHeader H P) : Type 0 where
  pub target_eq : s.target_head ≡ c.target
  pub limit_eq : s.request_limit ≡ c.limit
  pub places_eq : s.max_concurrent_limit ≡ c.places
  pub low : c.start ≤ s.local_head_block
  pub high : s.local_head_block ≤ max c.start c.target
  pub places : length s.in_progress_queue ≤ c.places
  pub batches : All (λ r. (r.limit ≤ c.limit) × (1 ≤ c.limit → 1 ≤ r.limit)) s.in_progress_queue

module _ {H P : Type 0} (c : Settings) where
  send_request-IsSyncing :
      (s : SyncHeader H P)
      → IsSyncing c s
      → s.local_head_block < s.target_head
      → length s.in_progress_queue < c.places
      → IsSyncing c (send_request s)
  send_request-IsSyncing s i behind free = record {
    target_eq = i.target_eq;
    limit_eq = i.limit_eq;
    places_eq = i.places_eq;
    low = omega (arith, i.low);
    high = omega (arith, i.high, i.target_eq);
    places = omega (arith, length-append {0} s.in_progress_queue (next_request s ∷ []));
    batches =
        All-append _ s.in_progress_queue (next_request s ∷ []) i.batches
          ((omega (arith, i.limit_eq), λ pos. omega (arith, i.limit_eq)), tt);
  }

  send_loop-IsSyncing :
      (room : ℕ) (s : SyncHeader H P) (progress : Bool)
      → IsSyncing c s
      → length s.in_progress_queue + room ≤ c.places
      → IsSyncing c (send_loop room s progress).0
  unfolding send_loop
  send_loop-IsSyncing zero s progress i free = i
  send_loop-IsSyncing (suc room) s progress i free =
      elim (Bool-cases (ltb s.local_head_block s.target_head)) [
        | inl e ↦
            rw (e, send_loop)
              (send_loop-IsSyncing room (send_request s) true
                (send_request-IsSyncing s i (ltb→lt _ _ e) (omega arith))
                (omega (arith, length-append {0} s.in_progress_queue (next_request s ∷ []))))
        | inr e ↦ rw (e, send_loop) i
      ]

  pub send_requests-IsSyncing :
      (s : SyncHeader H P) → IsSyncing c s → IsSyncing c (send_requests s).0
  unfolding send_requests
  send_requests-IsSyncing s i =
      send_loop-IsSyncing (s.max_concurrent_limit - length s.in_progress_queue) s false i
        (omega (arith, i.places, i.places_eq))
