-- ===== src/SyncHeader/Short.antt =====
-- src/tasks/sync_header.rs: a download from a peer that has only a part of the range.
use mathlib.Core.List.{Memᴰ}
use mathlib.Core.List.Memᴰ.{head, tail, append_left, append_right}
use simb.Prelude.{
  ℕ, zero, suc, ◌+◌, ◌*◌, ◌≤◌, ◌<◌, ◌≡◌, refl, sym, ◌∙◌, ap, inl, inr, List, [], ◌∷◌, ◌++◌, Bool,
  false, Bool-cases, true, arith, length, length-append, is_empty, subst, ltb, replicate,
}
use simb.Prelude.Result.{err}
use simb.Interface.{Header, HeadersRequest, Failures}
use simb.SyncHeader.{
  SyncHeader, empty_response, Peer, Response, headers, ready, pending, take_at, on_header_response,
  on_completion, take_responses, next_request, send_request, send_loop, send_requests, finish, poll,
}

-- The peer answers each request with headers, which may be none.
abbrev pub Responds : {F : Failures} → Peer F → Type 0
Responds peer = (r : HeadersRequest) → (hs : List Header) × (peer r ≡ headers hs)

module _ {H P : Type 0} {F : Failures} (peer : Peer F) where
  one_taken :
      (rest : List ℕ) (s : SyncHeader H P) (q : HeadersRequest) (qs : List HeadersRequest)
      (h : Header) (hs : List Header)
      → s.in_progress_queue ≡ q ∷ qs
      → peer q ≡ headers (h ∷ hs)
      → take_responses peer (0 ∷ rest) s
        ≡ take_responses peer rest
            (record s { in_progress_queue = qs; queued_headers = s.queued_headers ++ h ∷ hs })
  unfolding take_responses take_at on_completion on_header_response
  one_taken rest s q qs h hs out e = rw (out, take_responses) (rw (e, take_responses) refl)

  empty_taken :
      (rest : List ℕ) (s : SyncHeader H P) (q : HeadersRequest) (qs : List HeadersRequest)
      → s.in_progress_queue ≡ q ∷ qs
      → peer q ≡ headers []
      → take_responses peer (0 ∷ rest) s ≡ err empty_response
  unfolding take_responses take_at on_completion on_header_response
  empty_taken rest s q qs out e = rw (out, take_responses) (rw (e, take_responses) refl)

  first_taken :
      (q : HeadersRequest) (qs : List HeadersRequest) (rest : List ℕ) (s : SyncHeader H P)
      (r : HeadersRequest)
      → (hs : List Header) × (peer q ≡ headers hs)
      → s.in_progress_queue ≡ q ∷ qs
      → Memᴰ r (q ∷ qs)
      → peer r ≡ headers []
      → ((s' : SyncHeader H P)
          → s'.in_progress_queue ≡ qs
          → Memᴰ r qs
          → take_responses peer rest s' ≡ err empty_response)
      → take_responses peer (0 ∷ rest) s ≡ err empty_response
  first_taken q qs rest s r ([], e) out there lacks more = empty_taken rest s q qs out e
  first_taken q qs rest s r (h ∷ hs, e) out (head same) lacks more =
      let clash : ◌≡◌ {A = Response F} (headers (h ∷ hs)) (headers []) =
        sym e ∙ ap peer (sym same) ∙ lacks in
      absurd (
        let not_none : ¬ (◌≡◌ {A = Response F} (headers (h ∷ hs)) (headers [])) = λ c. cc in
        not_none clash)
  first_taken q qs rest s r (h ∷ hs, e) out (tail there) lacks more =
      one_taken rest s q qs h hs out e ∙ more _ refl there

  -- Where all answers have come, in order, one without headers ends the download.
  empty_found :
      (queue : List HeadersRequest) (n : ℕ) (s : SyncHeader H P) (r : HeadersRequest)
      → Responds peer
      → s.in_progress_queue ≡ queue
      → length queue ≤ n
      → Memᴰ r queue
      → peer r ≡ headers []
      → take_responses peer (replicate n 0) s ≡ err empty_response
  unfolding replicate
  empty_found [] n s r responds out room there lacks = elim there [ ]
  empty_found (q ∷ qs) zero s r responds out room there lacks = absurd (omega arith)
  empty_found (q ∷ qs) (suc n) s r responds out room there lacks =
      first_taken q qs (replicate n 0) s r (responds q) out there lacks
        λ s' out' m. empty_found qs n s' r responds out' (omega arith) m lacks

not_empty :
    (r : HeadersRequest) (queue : List HeadersRequest) → Memᴰ r queue → is_empty queue ≡ false
not_empty r (q ∷ qs) there = refl
not_empty r [] there = elim there [ ]

module _ {H P : Type 0} where
  send_loop-keeps :
      (room : ℕ) (s : SyncHeader H P) (progress : Bool) (r : HeadersRequest)
      → Memᴰ r s.in_progress_queue
      → Memᴰ r (send_loop room s progress).0.in_progress_queue
  unfolding send_loop
  send_loop-keeps zero s progress r there = there
  send_loop-keeps (suc room) s progress r there =
      elim (Bool-cases (ltb s.local_head_block s.target_head)) [
        | inl e ↦
            rw (e, send_loop)
              (send_loop-keeps room (send_request s) true r
                (append_left (next_request s ∷ []) there))
        | inr e ↦ rw (e, send_loop) there
      ]

  -- The request for a batch in the range is sent.
  send_loop-sends :
      (k room : ℕ) (s : SyncHeader H P) (progress : Bool)
      → s.request_limit ≡ 1000
      → k < room
      → s.local_head_block + k * 1000 < s.target_head
      → (r : HeadersRequest) × Memᴰ r (send_loop room s progress).0.in_progress_queue
        × (r.start_block ≡ s.local_head_block + k * 1000 + 1)
  unfolding send_loop
  send_loop-sends k zero s progress limit free behind = absurd (omega arith)
  send_loop-sends zero (suc room) s progress limit free behind =
      let e : ltb s.local_head_block s.target_head ≡ true = ground arith in
      rw (e, send_loop)
        (
          next_request s,
          send_loop-keeps room (send_request s) true (next_request s)
              (append_right s.in_progress_queue (head refl)),
          omega arith,
        )
  send_loop-sends (suc k) (suc room) s progress limit free behind =
      let e : ltb s.local_head_block s.target_head ≡ true = ground arith in
      let (r, there, start) =
        send_loop-sends k room (send_request s) true limit (omega arith) (omega arith) in
      rw (e, send_loop) (r, there, omega arith)

  send_loop-length :
      (room : ℕ) (s : SyncHeader H P) (progress : Bool)
      → length (send_loop room s progress).0.in_progress_queue ≤ length s.in_progress_queue + room
  unfolding send_loop
  send_loop-length zero s progress = omega arith
  send_loop-length (suc room) s progress =
      elim (Bool-cases (ltb s.local_head_block s.target_head)) [
        | inl e ↦
            rw (e, send_loop)
              (omega (
                arith,
                send_loop-length room (send_request s) true,
                length-append {0} s.in_progress_queue (next_request s ∷ []),
              ))
        | inr e ↦ rw (e, send_loop) (omega arith)
      ]

  -- Nothing is out yet, and the places are those that the manager gives.
  first_sent :
      (s : SyncHeader H P)
      → s.in_progress_queue ≡ []
      → s.max_concurrent_limit ≡ 10
      → send_requests s ≡ send_loop 10 s false
  unfolding send_requests
  first_sent s idle places = rw (idle, places) refl

  finish-waits :
      {F : Failures} (s : SyncHeader H P) (r : HeadersRequest)
      → Memᴰ r s.in_progress_queue
      → finish {F = F} s ≡ (pending, s)
  unfolding finish
  finish-waits s r there = rw (not_empty r s.in_progress_queue there) refl

module _ {H P : Type 0} {F : Failures} where
  -- A new download whose peer answers each request with headers or none, and one of the first ten
  -- batches with none: the first call sends its requests, and a call that finds their answers, in
  -- order, ends it with `EmptyResponse`, whatever headers the others bring.
  pub short_peer :
      (peer : Peer F) (s : SyncHeader H P) (k : ℕ)
      → Responds peer
      → s.in_progress_queue ≡ []
      → s.max_concurrent_limit ≡ 10
      → s.request_limit ≡ 1000
      → k < 10
      → s.local_head_block + k * 1000 < s.target_head
      → ((r : HeadersRequest)
          → r.start_block ≡ s.local_head_block + k * 1000 + 1
          → peer r ≡ headers [])
      → (poll peer [] s ≡ (pending, (send_requests s).0))
        × ((poll peer (replicate 10 0 ∷ []) (send_requests s).0).0 ≡ ready (err empty_response))
  unfolding poll
  short_peer peer s k responds idle places limit few behind lacks =
      let first = first_sent s idle places in
      let (r, there, start) = send_loop-sends k 10 s false limit few behind in
      let sent : Memᴰ r (send_requests s).0.in_progress_queue =
        subst (λ x. Memᴰ r x.0.in_progress_queue) (sym first) there in
      let room : length (send_requests s).0.in_progress_queue ≤ 10 =
        rw first (omega (arith, send_loop-length 10 s false, ap (λ q. length q) idle)) in
      let ended =
        empty_found peer (send_requests s).0.in_progress_queue 10 (send_requests s).0 r responds
          refl room sent (lacks r start) in
      (finish-waits (send_requests s).0 r sent, rw (ended, poll) refl)
