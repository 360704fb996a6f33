-- ===== src/SyncHeader/Answers.antt =====
-- src/tasks/sync_header.rs: the answers of a peer that has the whole range, by their order.
use mathlib.Core.List.{append_assoc, Perm, perm_append_comm}
use mathlib.Core.Option.{some-injective}
use mathlib.Core.List.Perm
use simb.Prelude.{
  ℕ, zero, suc, ◌≡◌, refl, sym, ap, ◌∙◌, inl, inr, List, [], ◌∷◌, ◌++◌, none, some, arith, length,
  All, Option-cases, subst,
}
use simb.Interface.{Header, HeadersRequest, Failures}
use simb.SyncHeader.{Peer, headers, take_at}
use simb.SyncHeader.Requests.{blocks, asked}

-- A peer that sends what it was asked for.
abbrev pub honest : {F : Failures} → (ℕ → Header) → Peer F
honest block r = headers (blocks block r.start_block r.limit)

-- Which answers may come, by their positions in the queue, and how the headers collected then
-- relate to the range in order.
pub record Arrivals (block : ℕ → Header) : Type 1 where
  pub allowed : ℕ → Type 0
  pub Rel : List Header → List Header → Type 0
  pub reflexive : (xs : List Header) → Rel xs xs
  pub transitive : (xs ys zs : List Header) → Rel xs ys → Rel ys zs → Rel xs zs
  pub append : (xs ys zs : List Header) → Rel xs ys → Rel (xs ++ zs) (ys ++ zs)
  pub taken :
      (i : ℕ) (queue : List HeadersRequest) (r : HeadersRequest) (rest : List HeadersRequest)
      (xs : List Header)
      → allowed i
      → take_at i queue ≡ some (r, rest)
      → Rel
          ((xs ++ blocks block r.start_block r.limit) ++ asked block rest)
          (xs ++ asked block queue)

take_at-zero :
    (q r : HeadersRequest) (qs rest : List HeadersRequest)
    → take_at zero (q ∷ qs) ≡ some (r, rest)
    → (q ≡ r) × (qs ≡ rest)
unfolding take_at
take_at-zero q r qs rest e = ground (arith, some-injective e)

take_at-suc :
    (i : ℕ) (q r : HeadersRequest) (qs rest : List HeadersRequest)
    → take_at (suc i) (q ∷ qs) ≡ some (r, rest)
    → (rest' : List HeadersRequest) × (take_at i qs ≡ some (r, rest')) × (rest ≡ q ∷ rest')
unfolding take_at
take_at-suc i q r qs rest e = elim (Option-cases (take_at i qs)) [
  | inl missing ↦ absurd (ground arith)
  | inr (found, e') ↦ (found.1, ground arith, ground arith)
]

pub take_at-none :
    (i : ℕ) (queue : List HeadersRequest) → i ≡ 0 → take_at i queue ≡ none → length queue ≡ 0
unfolding take_at
take_at-none i [] first e = refl
take_at-none zero (q ∷ qs) first e = absurd (ground arith)
take_at-none (suc i) (q ∷ qs) first e = absurd (omega arith)

pub take_at-length :
    (i : ℕ) (queue : List HeadersRequest) (r : HeadersRequest) (rest : List HeadersRequest)
    → take_at i queue ≡ some (r, rest)
    → length queue ≡ suc (length rest)
take_at-length i [] r rest e = absurd (unfold take_at in cc)
take_at-length zero (q ∷ qs) r rest e =
    omega (arith, ap (λ rs. length rs) (take_at-zero q r qs rest e).1)
take_at-length (suc i) (q ∷ qs) r rest e =
    let (rest', e', same) = take_at-suc i q r qs rest e in
    omega (arith, ap (λ rs. length rs) same, take_at-length i qs r rest' e')

pub take_at-All :
    (Q : HeadersRequest → Type 0) (i : ℕ) (queue : List HeadersRequest) (r : HeadersRequest)
    (rest : List HeadersRequest)
    → take_at i queue ≡ some (r, rest)
    → All Q queue
    → Q r × All Q rest
take_at-All Q i [] r rest e all = absurd (unfold take_at in cc)
take_at-All Q zero (q ∷ qs) r rest e all =
    let (same, same') = take_at-zero q r qs rest e in
    (subst Q same all.0, subst (λ rs. All Q rs) same' all.1)
take_at-All Q (suc i) (q ∷ qs) r rest e all =
    let (rest', e', same) = take_at-suc i q r qs rest e in
    let (here, more) = take_at-All Q i qs r rest' e' all.1 in
    (here, subst (λ rs. All Q rs) (sym same) (all.0, more))

pub in_order_taken :
    (block : ℕ → Header) (i : ℕ) (queue : List HeadersRequest) (r : HeadersRequest)
    (rest : List HeadersRequest) (xs : List Header)
    → i ≡ 0
    → take_at i queue ≡ some (r, rest)
    → (xs ++ blocks block r.start_block r.limit) ++ asked block rest ≡ xs ++ asked block queue
unfolding asked
in_order_taken block i [] r rest xs first e = absurd (unfold take_at in cc)
in_order_taken block zero (q ∷ qs) r rest xs first e =
    let (same, same') = take_at-zero q r qs rest e in
    rw (← same, ← same') (append_assoc xs (blocks block q.start_block q.limit) (asked block qs))
in_order_taken block (suc i) (q ∷ qs) r rest xs first e = absurd (omega arith)

-- The answers come in the order of the requests.
abbrev pub in_order : (block : ℕ → Header) → Arrivals block
in_order block = record {
  allowed = λ i. i ≡ 0;
  Rel = ◌≡◌;
  reflexive = λ xs. refl;
  transitive = λ xs ys zs p q. p ∙ q;
  append = λ xs ys zs p. ap (λ bs. bs ++ zs) p;
  taken = in_order_taken block;
}

perm_swap_front : (xs ys zs : List Header) → Perm (xs ++ (ys ++ zs)) (ys ++ (xs ++ zs))
perm_swap_front xs ys zs =
    rw (← append_assoc xs ys zs, ← append_assoc ys xs zs)
      (Perm.append_right zs (perm_append_comm xs ys))

any_order_queue :
    (block : ℕ → Header) (i : ℕ) (queue : List HeadersRequest) (r : HeadersRequest)
    (rest : List HeadersRequest)
    → take_at i queue ≡ some (r, rest)
    → Perm (blocks block r.start_block r.limit ++ asked block rest) (asked block queue)
unfolding asked
any_order_queue block i [] r rest e = absurd (unfold take_at in cc)
any_order_queue block zero (q ∷ qs) r rest e =
    let (same, same') = take_at-zero q r qs rest e in rw (← same, ← same') Perm.rfl
any_order_queue block (suc i) (q ∷ qs) r rest e =
    let (rest', e', same) = take_at-suc i q r qs rest e in
    rw same (
      Perm.trans
        (perm_swap_front (blocks block r.start_block r.limit) (blocks block q.start_block q.limit)
          (asked block rest'))
        (Perm.append_left (blocks block q.start_block q.limit)
          (any_order_queue block i qs r rest' e')))

pub any_order_taken :
    (block : ℕ → Header) (i : ℕ) (queue : List HeadersRequest) (r : HeadersRequest)
    (rest : List HeadersRequest) (xs : List Header)
    → take_at i queue ≡ some (r, rest)
    → Perm
        ((xs ++ blocks block r.start_block r.limit) ++ asked block rest)
        (xs ++ asked block queue)
any_order_taken block i queue r rest xs e =
    rw (append_assoc xs (blocks block r.start_block r.limit) (asked block rest))
      (Perm.append_left xs (any_order_queue block i queue r rest e))

-- The answers come in any order.
abbrev pub any_order : (block : ℕ → Header) → Arrivals block
any_order block = record {
  allowed = λ i. Unit;
  Rel = Perm;
  reflexive = Perm.refl;
  transitive = λ xs ys zs p q. Perm.trans p q;
  append = λ xs ys zs p. Perm.append_right zs p;
  taken = λ i queue r rest xs _ e. any_order_taken block i queue r rest xs e;
}
