-- ===== src/Scheduler/Adder/Account.antt =====
-- The budgets of `PrefillAdder`, and what the requests of its batch use.
use mini_infer.Prelude.{
  ℕ, ◌+◌, ◌-◌, ◌*◌, ◌/◌, ◌<◌, ◌≡◌, refl, ap, ◌∙◌, min, Bool, true, false, ◌&&◌, Option, none, some,
  List, [], ◌∷◌, ◌++◌, arith, ltb, ◌==◌, if◌then◌else◌, if_both,
}
use mini_infer.Prelude.Int.{ℤ, pos, pos_part, ◌-ℤ◌, leb_ℤ, ltb_ℤ, int_laws, floor_to}
use mini_infer.MemoryPool.Sizes.{div_on_page}
use mini_infer.Scheduler.Req.{Req}
use mini_infer.Scheduler.Adder.{
  PrefillAdder, AddReqResult, continue, no_token, other, clip_max_new_tokens, align_up,
  running_reserve, new_adder, ceil_paged_tokens, update_prefill_budget, append_run, Added, truncate,
  do_chunked_prefill, limited_len, as_no_token, add_cut, chunk_fits, chunk_limit, add_within_budget,
  add_over_budget, try_add_prefill, add_chunked_req, chunk_allowance, run_chunk, run_next_chunk,
  some_pos, rem_total_tokens, clipped_rest, less, total_reqs,
}

pub align_up-mul : (q ps : ℕ) → 0 < ps → align_up (q * ps) ps ≡ q * ps
unfolding align_up
align_up-mul q ps h =
    ap (λ k. k * ps)
      (ap (λ k. k / ps) {x = q * ps + ps - 1} {y = q * ps + (ps - 1)} (omega arith)
        ∙ div_on_page q (ps - 1) ps (omega arith))

pub align_up_idem : (n ps : ℕ) → 0 < ps → align_up (align_up n ps) ps ≡ align_up n ps
unfolding align_up
align_up_idem n ps h = align_up-mul ((n + ps - 1) / ps) ps h

-- What a request of the batch takes of the total budget: its pages, and its decode reserve unless
-- it is cut.
abbrev pub reserve_of : Req → ℕ
reserve_of r = if r.is_chunked then 0 else min r.max_tokens clip_max_new_tokens

unfoldable pub input_of : ℕ → List Req → ℕ
input_of ps [] = 0
input_of ps (r ∷ reqs) = align_up r.extend_input_len ps + input_of ps reqs

unfoldable pub reserves_of : List Req → ℕ
reserves_of [] = 0
reserves_of (r ∷ reqs) = reserve_of r + reserves_of reqs

input_of-append :
    (ps : ℕ) (xs : List Req) (r : Req)
    → input_of ps (xs ++ r ∷ []) ≡ input_of ps xs + align_up r.extend_input_len ps
unfolding input_of
input_of-append ps [] r = omega arith
input_of-append ps (x ∷ xs) r = omega (arith, input_of-append ps xs r)

reserves_of-append :
    (xs : List Req) (r : Req) → reserves_of (xs ++ r ∷ []) ≡ reserves_of xs + reserve_of r
unfolding reserves_of
reserves_of-append [] r = omega arith
reserves_of-append (x ∷ xs) r = omega (arith, reserves_of-append xs r)

-- The budgets that the adder starts from.
pub record Start : Type 0 where
  pub page_size : ℕ
  pub available : ℕ
  pub reserved : ℕ
  pub max_extend : ℕ
  pub chunk : Option ℕ

abbrev pub chunk_left : Option ℕ → ℕ → Option ℤ
chunk_left none log = none
chunk_left (some c) log = some (pos c -ℤ pos log)

pub record IsAccounted (s : Start) (a : PrefillAdder) : Type 0 where
  pub page : a.page_size ≡ s.page_size
  pub available : a.available_kv_tokens ≡ s.available
  pub log : a.log_input_tokens ≡ input_of s.page_size a.can_run_list
  pub current : a.cur_rem_token_offset ≡ a.log_input_tokens
  pub total :
      a.rem_total_token_offset ≡ s.reserved + a.log_input_tokens + reserves_of a.can_run_list
  pub input : a.rem_input_tokens ≡ pos s.max_extend -ℤ pos a.log_input_tokens
  pub chunk : a.rem_chunk_tokens ≡ chunk_left s.chunk a.log_input_tokens

sub_sub : (a b c : ℕ) → pos a -ℤ pos b -ℤ pos c ≡ pos a -ℤ pos (b + c)
sub_sub a b c = omega int_laws

less-chunk_left : (c : Option ℕ) (log n : ℕ) → less (chunk_left c log) n ≡ chunk_left c (log + n)
less-chunk_left none log n = refl
less-chunk_left (some c) log n = ap some (sub_sub c log n)

-- One request more, with its tokens and its reserve taken off.
module _ (s : Start) (a : PrefillAdder) (r : Req) (n m : ℕ) where
  abbrev charged : Option ℕ → PrefillAdder
  charged mark = update_prefill_budget 0 n m (record (append_run r a) { new_chunked_req = mark })

  update-IsAccounted :
      (mark : Option ℕ)
      → align_up n s.page_size ≡ align_up r.extend_input_len s.page_size
      → m ≡ reserve_of r
      → IsAccounted s a
      → IsAccounted s (charged mark)
  unfolding update_prefill_budget
  update-IsAccounted mark e f h =
      let e' : align_up n a.page_size ≡ align_up r.extend_input_len s.page_size =
        ap (align_up n) h.page ∙ e in
      let d = align_up n a.page_size in
      record {
        page = h.page;
        available = h.available;
        log = omega (arith, h.log, e', input_of-append s.page_size a.can_run_list r);
        current = omega (arith, h.current);
        total = omega (arith, h.total, e', f, reserves_of-append a.can_run_list r);
        input = ap (λ z. z -ℤ pos d) h.input ∙ sub_sub s.max_extend a.log_input_tokens d;
        chunk = ap (λ z. less z d) h.chunk ∙ less-chunk_left s.chunk a.log_input_tokens d;
      }

-- The books are right in what an adding operation returns.
record Kept (s : Start) (x : Added) : Type 0 where
  books : IsAccounted s x.2

module _ (s : Start) (h0 : 0 < s.page_size) (a : PrefillAdder) (h : IsAccounted s a) where
  same : (x : AddReqResult) (r : Req) → Kept s (x, r, a)
  same x r = record { books = h }

  run_chunk-IsAccounted :
      (c : Bool) (r : Req) (n : ℕ) → IsAccounted s (run_chunk c r n r.max_tokens a).1
  unfolding run_chunk
  run_chunk-IsAccounted true r n =
      update-IsAccounted s a (record (truncate n r) { is_chunked = true }) n 0 (some r.req_id) refl
        refl h
  run_chunk-IsAccounted false r n =
      update-IsAccounted s a (record (truncate n r) { is_chunked = false }) n
        (min r.max_tokens clip_max_new_tokens) a.new_chunked_req refl refl h

  do_chunked-IsAccounted :
      (r : Req) (z : ℤ) (n : ℕ) → Kept s (do_chunked_prefill r z n r.max_tokens a)
  unfolding do_chunked_prefill
  do_chunked-IsAccounted r z n =
      if_both (Kept s) (leb_ℤ z (pos 0)) (same other r)
        (record { books = run_chunk-IsAccounted (ltb (pos_part z) n) r (pos_part z) })

  as_no_token-IsAccounted : (x : Added) → Kept s x → Kept s (as_no_token x)
  as_no_token-IsAccounted (continue, r, b) k = k
  as_no_token-IsAccounted (no_token, r, b) k = k
  as_no_token-IsAccounted (other, r, b) k = record { books = k.books }

  cut-IsAccounted : (z : Option ℤ) (r : Req) (n : ℕ) → Kept s (add_cut z r n a)
  cut-IsAccounted none r n = same no_token r
  cut-IsAccounted (some z) r n = as_no_token-IsAccounted _ (do_chunked-IsAccounted r z n)

  over-IsAccounted : (z : Option ℤ) (r : Req) (n : ℕ) → Kept s (add_over_budget z r n a)
  over-IsAccounted none r n = same no_token r
  over-IsAccounted (some z) r n = cut-IsAccounted (limited_len n z a) r n

  whole-IsAccounted :
      (r : Req)
      → r.is_chunked ≡ false
      → Kept s (
        continue,
        r,
        update_prefill_budget 0
            (align_up r.extend_input_len a.page_size)
            (min r.max_tokens clip_max_new_tokens)
            (append_run r a),
      )
  whole-IsAccounted r c = record {
    books =
        update-IsAccounted s a r (align_up r.extend_input_len a.page_size)
          (min r.max_tokens clip_max_new_tokens) a.new_chunked_req
          (rw h.page (align_up_idem r.extend_input_len s.page_size h0)) (rw c) h;
  }

  within-IsAccounted :
      (r : Req) → r.is_chunked ≡ false → Kept s (add_within_budget r r.extend_input_len a)
  unfolding add_within_budget ceil_paged_tokens
  within-IsAccounted r c =
      let input = align_up r.extend_input_len a.page_size in
      if_both (Kept s) (leb_ℤ a.rem_input_tokens (pos input) && ltb 0 (total_reqs a)) (same other r)
        (if_both (Kept s) (chunk_fits a.rem_chunk_tokens input) (whole-IsAccounted r c) (
          do_chunked-IsAccounted r (floor_to a.page_size (chunk_limit a.rem_chunk_tokens))
            r.extend_input_len))

  try-IsAccounted : (r : Req) → r.is_chunked ≡ false → Kept s (try_add_prefill r a)
  unfolding try_add_prefill
  try-IsAccounted r c =
      if_both (Kept s) (leb_ℤ a.max_batch_size (pos (total_reqs a))) (same other r) (
        if_both (Kept s) (r.extend_input_len == 0) (same continue r) (
          if_both (Kept s) (ltb_ℤ (rem_total_tokens a) (pos (r.extend_input_len + clipped_rest r)))
            (over-IsAccounted a.rem_chunk_tokens r r.extend_input_len) (within-IsAccounted r c)))

  next_chunk-IsAccounted : (r : Req) → IsAccounted s (add_chunked_req r a).2
  unfolding add_chunked_req run_next_chunk
  next_chunk-IsAccounted r =
      let n = chunk_allowance a in
      update-IsAccounted s a
        (record (truncate (min r.extend_input_len n) r) { is_chunked = ltb n r.extend_input_len })
        (min r.extend_input_len n) _ a.new_chunked_req refl refl h

-- What the scheduler does with an adder: requests that were not cut before, and continued chunks.
pub data Op : Type 0 where
  tries : Req → Op
  continues : Req → Op

unfoldable pub run_ops : List Op → PrefillAdder → PrefillAdder
run_ops [] a = a
run_ops (tries r ∷ ops) a = run_ops ops (try_add_prefill (record r { is_chunked = false }) a).2
run_ops (continues r ∷ ops) a = run_ops ops (add_chunked_req r a).2

run_ops-IsAccounted :
    (s : Start) (ops : List Op) (a : PrefillAdder)
    → 0 < s.page_size
    → IsAccounted s a
    → IsAccounted s (run_ops ops a)
unfolding run_ops
run_ops-IsAccounted s [] a p h = h
run_ops-IsAccounted s (tries r ∷ ops) a p h =
    run_ops-IsAccounted s ops _ p
      (try-IsAccounted s p a h (record r { is_chunked = false }) refl).books
run_ops-IsAccounted s (continues r ∷ ops) a p h =
    run_ops-IsAccounted s ops _ p (next_chunk-IsAccounted s p a h r)

abbrev start : (ℕ → ℕ) → ℕ → List Req → ℕ → Option ℕ → ℕ → Start
start discount available running max_extend chunk page_size = record {
  page_size = page_size;
  available = available;
  reserved = running_reserve discount running;
  max_extend = max_extend;
  chunk = chunk;
}

start-chunk : (c : Option ℕ) → some_pos c ≡ chunk_left c 0
start-chunk none = refl
start-chunk (some n) = ap some (omega int_laws)

start-IsAccounted :
    (discount : ℕ → ℕ) (available : ℕ) (running : List Req) (max_extend : ℕ) (cap : ℤ)
    (chunk : Option ℕ) (page_size reserve_pages : ℕ)
    → IsAccounted
        (start discount available running max_extend chunk page_size)
        (new_adder discount available running max_extend cap chunk page_size reserve_pages)
unfolding new_adder input_of reserves_of
start-IsAccounted discount available running max_extend cap chunk page_size reserve_pages = record {
  page = refl;
  available = refl;
  log = refl;
  current = refl;
  total = omega arith;
  input = omega int_laws;
  chunk = start-chunk chunk;
}

-- On an adder with pages of one slot or more, whatever requests that are not cut yet are tried and
-- whatever chunks continued, with whatever outcomes: its budgets are those that it was made with
-- less exactly the page-aligned input of the requests in the batch, and, for the total budget, less
-- the reserve of the running requests and the clipped decode length of every request of the batch
-- that is not cut.
pub run_ops-new_adder :
    (discount : ℕ → ℕ) (available : ℕ) (running : List Req) (max_extend : ℕ) (cap : ℤ)
    (chunk : Option ℕ) (page_size reserve_pages : ℕ) (ops : List Op)
    → 0 < page_size
    → let a =
        run_ops ops
          (new_adder discount available running max_extend cap chunk page_size reserve_pages) in
      let used = input_of page_size a.can_run_list in
      (a.rem_input_tokens ≡ pos max_extend -ℤ pos used)
      × (a.rem_chunk_tokens ≡ chunk_left chunk used)
      × (a.cur_rem_token_offset ≡ used)
      × (a.rem_total_token_offset
          ≡ running_reserve discount running + used + reserves_of a.can_run_list)
unfolding new_adder
run_ops-new_adder discount available running max_extend cap chunk page_size reserve_pages ops p =
    let first = new_adder discount available running max_extend cap chunk page_size reserve_pages in
    let h =
      run_ops-IsAccounted (start discount available running max_extend chunk page_size) ops first p
        (start-IsAccounted discount available running max_extend cap chunk page_size
          reserve_pages) in
    (
      h.input ∙ ap (λ n. pos max_extend -ℤ pos n) h.log,
      h.chunk ∙ ap (chunk_left chunk) h.log,
      h.current ∙ h.log,
      omega (arith, h.total, h.log),
    )
