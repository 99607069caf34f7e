-- ===== src/Scheduler/Queues/Admitted.antt =====
-- Where the requests go in `_get_new_batch_prefill` of miniinfer/scheduler/scheduler.py.
use mathlib.Core.List.{append_assoc, append-nil}
use mathlib.Core.Path.{ap₂}
use mini_infer.Prelude.{
  ℕ, ◌≡◌, ◌⊎◌, inl, inr, refl, sym, ap, ◌∙◌, Bool, true, false, List, [], ◌∷◌, ◌++◌, Bool-cases,
}
use mini_infer.Scheduler.Req.{Req}
use mini_infer.Scheduler.Adder.{
  AddReqResult, continue, no_token, other, PrefillAdder, no_remaining_budget,
}
use mini_infer.Scheduler.Queues.{IKvCacheManager, Scheduler, Chunk}
use mini_infer.Scheduler.Queues.Admit.{
  is_chunk_of, Continuing, continue_chunk, continue_chunks, Admitting, added, answered, try_waiting,
  admit,
}
use mini_infer.Scheduler.Queues.Prefill.{reqs_of, gather_reqs}

-- A queue is dealt out over three lists, in its order.
pub data Split : List ℕ → List ℕ → List ℕ → List ℕ → Type 0 where
  rest : (queue : List ℕ) → Split queue queue [] []
  waits : (r : ℕ) {queue w p c : List ℕ} → Split queue w p c → Split (r ∷ queue) (r ∷ w) p c
  whole : (r : ℕ) {queue w p c : List ℕ} → Split queue w p c → Split (r ∷ queue) w (r ∷ p) c
  cut : (r : ℕ) {queue w p c : List ℕ} → Split queue w p c → Split (r ∷ queue) w p (r ∷ c)

-- One request more at the end, then some more.
snoc_append {ℓ} :
    {A : Type ℓ} (xs : List A) (x : A) (ys : List A) → (xs ++ (x ∷ [])) ++ ys ≡ xs ++ (x ∷ ys)
snoc_append xs x ys = append_assoc xs (x ∷ []) ys

reqs_of_snoc : (xs : List Chunk) (x : Chunk) → reqs_of (xs ++ (x ∷ [])) ≡ reqs_of xs ++ (x.req ∷ [])
reqs_of_snoc [] x = refl
reqs_of_snoc (y ∷ xs) x = ap (◌∷◌ y.req) (reqs_of_snoc xs x)

module _ {K : Type 0} where
  -- From one state of the loop to the next, over some of the queue.
  abbrev pub Dealt : List ℕ → Admitting K → Admitting K → Type 0
  Dealt queue x y =
      (w : List ℕ) × (p : List ℕ) × (c : List ℕ) × (y.remaining_waiting ≡ x.remaining_waiting ++ w)
      × (y.prefill_reqs ≡ x.prefill_reqs ++ p)
      × (reqs_of y.new_chunked_reqs ≡ reqs_of x.new_chunked_reqs ++ c)
      × Split queue w p c

  -- After one round that goes on, the request is at the end of one of the three.
  abbrev pub Placed : ℕ → Admitting K → Admitting K → Type 0
  Placed r x y =
      ((y.remaining_waiting ≡ x.remaining_waiting ++ (r ∷ []))
        × (y.prefill_reqs ≡ x.prefill_reqs)
        × (y.new_chunked_reqs ≡ x.new_chunked_reqs))
      ⊎ (((y.remaining_waiting ≡ x.remaining_waiting)
            × (y.prefill_reqs ≡ x.prefill_reqs ++ (r ∷ []))
            × (y.new_chunked_reqs ≡ x.new_chunked_reqs))
          ⊎ ((y.remaining_waiting ≡ x.remaining_waiting)
              × (y.prefill_reqs ≡ x.prefill_reqs)
              × (reqs_of y.new_chunked_reqs ≡ reqs_of x.new_chunked_reqs ++ (r ∷ []))))

  Dealt-Placed :
      (r : ℕ) (queue : List ℕ) (x y z : Admitting K)
      → Placed r x y
      → Dealt queue y z
      → Dealt (r ∷ queue) x z
  Dealt-Placed r queue x y z (inl (a, b, d)) (w, p, c, ew, ep, ec, s) = (
    r ∷ w,
    p,
    c,
    ew ∙ ap (λ (l : List ℕ). l ++ w) a ∙ snoc_append x.remaining_waiting r w,
    ep ∙ ap (λ (l : List ℕ). l ++ p) b,
    ec ∙ ap (λ (l : List Chunk). reqs_of l ++ c) d,
    waits r s,
  )
  Dealt-Placed r queue x y z (inr (inl (a, b, d))) (w, p, c, ew, ep, ec, s) = (
    w,
    r ∷ p,
    c,
    ew ∙ ap (λ (l : List ℕ). l ++ w) a,
    ep ∙ ap (λ (l : List ℕ). l ++ p) b ∙ snoc_append x.prefill_reqs r p,
    ec ∙ ap (λ (l : List Chunk). reqs_of l ++ c) d,
    whole r s,
  )
  Dealt-Placed r queue x y z (inr (inr (a, b, d))) (w, p, c, ew, ep, ec, s) = (
    w,
    p,
    r ∷ c,
    ew ∙ ap (λ (l : List ℕ). l ++ w) a,
    ep ∙ ap (λ (l : List ℕ). l ++ p) b,
    ec ∙ ap (λ (l : List ℕ). l ++ c) d ∙ snoc_append (reqs_of x.new_chunked_reqs) r c,
    cut r s,
  )

  added-Placed :
      (r : ℕ) (req : Req) (adder : PrefillAdder) (x y : Admitting K)
      → x.remaining_waiting ≡ y.remaining_waiting
      → x.prefill_reqs ≡ y.prefill_reqs
      → x.new_chunked_reqs ≡ y.new_chunked_reqs
      → Placed r x (added r req adder y)
  added-Placed r req adder x y a b d =
      elim (Bool-cases (is_chunk_of adder.new_chunked_req req.req_id)) [
        | inl e ↦ rw e (
            inr (
              inr (
                sym a,
                sym b,
                reqs_of_snoc y.new_chunked_reqs _
                    ∙ ap (λ (l : List Chunk). reqs_of l ++ (r ∷ [])) (sym d),
              )))
        | inr e ↦ rw e (inr (inl (sym a, ap (λ (l : List ℕ). l ++ (r ∷ [])) (sym b), sym d)))
      ]

  -- A round goes on with the request placed, or breaks with the lists as they were.
  abbrev pub Went : ℕ → Admitting K → Bool × Admitting K → Type 0
  Went r x z =
      ((z.0 ≡ true) × Placed r x z.1)
      ⊎ ((z.0 ≡ false)
          × (z.1.remaining_waiting ≡ x.remaining_waiting)
          × (z.1.prefill_reqs ≡ x.prefill_reqs)
          × (z.1.new_chunked_reqs ≡ x.new_chunked_reqs))

  answered-Went :
      (answer : AddReqResult) (r : ℕ) (req : Req) (adder : PrefillAdder) (x y : Admitting K)
      → x.remaining_waiting ≡ y.remaining_waiting
      → x.prefill_reqs ≡ y.prefill_reqs
      → x.new_chunked_reqs ≡ y.new_chunked_reqs
      → Went r x (answered answer r req adder y)
  answered-Went no_token r req adder x y a b d = inr (refl, sym a, sym b, sym d)
  answered-Went other r req adder x y a b d =
      inl (refl, inl (ap (λ (l : List ℕ). l ++ (r ∷ [])) (sym a), sym b, sym d))
  answered-Went continue r req adder x y a b d = inl (refl, added-Placed r req adder x y a b d)

  module _ (kv : IKvCacheManager K) where
    try_waiting-Went : (r : ℕ) (x : Admitting K) → Went r x (try_waiting kv r x)
    unfolding try_waiting
    try_waiting-Went r x = elim (Bool-cases (no_remaining_budget x.adder)) [
      | inl e ↦ rw e (inl (refl, inl (refl, refl, refl)))
      | inr e ↦ rw e (answered-Went _ r _ _ x _ refl refl refl)
    ]

    admit-Dealt : (queue : List ℕ) (x : Admitting K) → Dealt queue x (admit kv queue x)
    unfolding admit
    admit-Dealt [] x = (
      [],
      [],
      [],
      sym (append-nil x.remaining_waiting),
      sym (append-nil x.prefill_reqs),
      sym (append-nil (reqs_of x.new_chunked_reqs)),
      rest [],
    )
    admit-Dealt (r ∷ queue) x =
        let ih = admit-Dealt queue (try_waiting kv r x).1 in
        elim (try_waiting-Went r x) [
          | inl (e, placed) ↦ rw e (
              Dealt-Placed r queue x (try_waiting kv r x).1 (admit kv queue (try_waiting kv r x).1)
                placed ih)
          | inr (e, a, b, d) ↦ rw e (
            r ∷ queue,
            [],
            [],
            ap (λ (l : List ℕ). l ++ (r ∷ queue)) a,
            b ∙ sym (append-nil x.prefill_reqs),
            ap reqs_of d ∙ sym (append-nil (reqs_of x.new_chunked_reqs)),
            rest (r ∷ queue),
          )
        ]

continue_chunks-reqs :
    (chunks : List Chunk) (x : Continuing)
    → reqs_of (continue_chunks chunks x).continuing_chunks
      ≡ reqs_of x.continuing_chunks ++ reqs_of chunks
unfolding continue_chunks continue_chunk
continue_chunks-reqs [] x = sym (append-nil (reqs_of x.continuing_chunks))
continue_chunks-reqs (c ∷ chunks) x =
    continue_chunks-reqs chunks (continue_chunk c x)
    ∙ ap (λ (l : List ℕ). l ++ reqs_of chunks) (reqs_of_snoc x.continuing_chunks _)
    ∙ snoc_append (reqs_of x.continuing_chunks) c.req (reqs_of chunks)

-- The loops deal the waiting queue out over three lists, each in its order: what stays in the queue,
-- and the requests to extend before and behind those that were chunked before.
gather_reqs-Split :
    {K R : Type 0} (kv : IKvCacheManager K) (adder : PrefillAdder) (s : Scheduler K R)
    → (w : List ℕ) × (p : List ℕ) × (c : List ℕ) × Split s.waiting_queue w p c
      × ((gather_reqs kv adder s).1.waiting_queue ≡ w)
      × ((gather_reqs kv adder s).0 ≡ p ++ (reqs_of s.chunking_reqs ++ c))
      × ((gather_reqs kv adder s).1.running_batch ≡ s.running_batch)
      × ((gather_reqs kv adder s).1.finished_reqs ≡ s.finished_reqs)
      × ((gather_reqs kv adder s).1.pending_release_reqs ≡ s.pending_release_reqs)
unfolding gather_reqs
gather_reqs-Split kv adder s =
    let first : Continuing = record {
      adder = adder;
      store = s.store;
      continuing_chunks = [];
      remaining_chunks = [];
    } in
    let x = continue_chunks s.chunking_reqs first in
    let (w, p, c, ew, ep, ec, split) = admit-Dealt kv s.waiting_queue (record {
      adder = x.adder;
      store = x.store;
      manager = s.kv_cache_mgr;
      prefill_reqs = [];
      new_chunked_reqs = [];
      remaining_waiting = [];
    }) in
    (
      w,
      p,
      c,
      split,
      ew,
      ap₂ ◌++◌ ep (ap₂ ◌++◌ (continue_chunks-reqs s.chunking_reqs first) ec),
      refl,
      refl,
      refl,
    )
