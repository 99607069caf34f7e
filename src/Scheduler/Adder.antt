-- ===== src/Scheduler/Adder.antt =====
-- `PrefillAdder` of miniinfer/scheduler/prefill_adder.py: the token budget of one prefill batch.
-- Budgets that may fall below 0 are integers. `discount` stands for `int(n * new_token_ratio)`, a
-- product with a float. A method that writes to the request returns it beside the new adder.
pub mod Account
pub mod Outcome
use mini_infer.Prelude.{
  ℕ, zero, suc, ◌+◌, ◌-◌, ◌*◌, ◌/◌, ◌<◌, ◌≤◌, ◌≡◌, min, max, Bool, true, false, ◌||◌, ◌&&◌, Option,
  none, some, List, [], ◌∷◌, ◌++◌, ltb, leb, ◌==◌, if◌then◌else◌, length, take,
}
use mini_infer.Prelude.Int.{ℤ, pos, negsuc, ◌-ℤ◌, leb_ℤ, ltb_ℤ, min_ℤ, pos_part, floor_to}
use mini_infer.Scheduler.Req.{Req}

abbrev pub clip_max_new_tokens : ℕ
clip_max_new_tokens = 1024

pub data AddReqResult : Type 0 where
  continue no_token other : AddReqResult

unfoldable pub align_up : ℕ → ℕ → ℕ
align_up value alignment = (value + alignment - 1) / alignment * alignment

pub record PrefillAdder : Type 0 where
  pub max_batch_size : ℤ
  pub chunk_size : Option ℕ
  pub page_size : ℕ
  pub available_kv_tokens : ℕ
  pub min_decode_reserve : ℕ
  pub rem_total_token_offset : ℕ
  pub cur_rem_token_offset : ℕ
  pub rem_input_tokens : ℤ
  pub rem_chunk_tokens : Option ℤ
  pub can_run_list : List Req
  pub new_chunked_req : Option ℕ
  pub log_input_tokens : ℕ
  pub log_hit_tokens : ℕ

-- `min(max(max_tokens - len(output_ids), 0), CLIP_MAX_NEW_TOKENS)`
abbrev pub clipped_rest : Req → ℕ
clipped_rest req = min (req.max_tokens - length req.output_ids) clip_max_new_tokens

unfoldable pub running_req_token_reserve : (ℕ → ℕ) → Req → ℕ
running_req_token_reserve discount req = discount (clipped_rest req)

unfoldable pub running_reserve : (ℕ → ℕ) → List Req → ℕ
unfolding running_req_token_reserve
running_reserve discount [] = 0
running_reserve discount (r ∷ running_reqs) =
    running_req_token_reserve discount r + running_reserve discount running_reqs

abbrev pub some_pos : Option ℕ → Option ℤ
some_pos none = none
some_pos (some n) = some (pos n)

unfoldable pub new_adder :
    (ℕ → ℕ)
    → ℕ
    → List Req
    → ℕ
    → ℤ
    → Option ℕ
    → (page_size min_decode_reserve_pages : ℕ) → PrefillAdder
unfolding running_reserve
new_adder discount available_kv_tokens running_reqs max_extend_len max_batch_size chunk_size
      page_size reserve_pages =
    record {
      max_batch_size = max_batch_size;
      chunk_size = chunk_size;
      page_size = page_size;
      available_kv_tokens = available_kv_tokens;
      min_decode_reserve = reserve_pages * page_size;
      rem_total_token_offset = running_reserve discount running_reqs;
      cur_rem_token_offset = 0;
      rem_input_tokens = pos max_extend_len;
      rem_chunk_tokens = some_pos chunk_size;
      can_run_list = [];
      new_chunked_req = none;
      log_input_tokens = 0;
      log_hit_tokens = 0;
    }

unfoldable pub ceil_paged_tokens : ℕ → PrefillAdder → ℕ
unfolding align_up
ceil_paged_tokens tokens a = align_up tokens a.page_size

unfoldable pub rem_total_tokens : PrefillAdder → ℤ
unfolding ◌-ℤ◌
rem_total_tokens a = pos a.available_kv_tokens -ℤ pos a.rem_total_token_offset

unfoldable pub cur_rem_tokens : PrefillAdder → ℤ
unfolding ◌-ℤ◌
cur_rem_tokens a = pos a.available_kv_tokens -ℤ pos a.cur_rem_token_offset

abbrev pub total_reqs : PrefillAdder → ℕ
total_reqs a = length a.can_run_list

unfoldable pub available_prefill_budget : PrefillAdder → ℤ
unfolding cur_rem_tokens
available_prefill_budget a = min_ℤ (cur_rem_tokens a) a.rem_input_tokens

-- `rem_chunk_tokens is not None and rem_chunk_tokens <= 0`
abbrev pub no_chunk_left : Option ℤ → Bool
no_chunk_left none = false
no_chunk_left (some z) = leb_ℤ z (pos 0)

unfoldable pub budget_state : PrefillAdder → AddReqResult
unfolding rem_total_tokens cur_rem_tokens
budget_state a =
    if leb_ℤ (rem_total_tokens a) (pos 0) || leb_ℤ (cur_rem_tokens a) (pos 0)
    then no_token
    else if leb_ℤ a.rem_input_tokens (pos 0)
    then other
    else if no_chunk_left a.rem_chunk_tokens
    then other
    else continue

abbrev pub is_continue : AddReqResult → Bool
is_continue continue = true
is_continue no_token = false
is_continue other = false

unfoldable pub no_remaining_budget : PrefillAdder → Bool
unfolding budget_state
no_remaining_budget a = elim (is_continue (budget_state a)) [ true ↦ false | false ↦ true ]

abbrev pub less : Option ℤ → ℕ → Option ℤ
less none n = none
less (some z) n = some (z -ℤ pos n)

unfoldable pub update_prefill_budget : ℕ → ℕ → ℕ → PrefillAdder → PrefillAdder
unfolding ceil_paged_tokens
update_prefill_budget prefix_len extend_input_len max_new_tokens a =
    let aligned = ceil_paged_tokens extend_input_len a in
    record a {
      rem_total_token_offset = a.rem_total_token_offset + (aligned + max_new_tokens);
      cur_rem_token_offset = a.cur_rem_token_offset + aligned;
      rem_input_tokens = a.rem_input_tokens -ℤ pos aligned;
      rem_chunk_tokens = less a.rem_chunk_tokens aligned;
      log_hit_tokens = a.log_hit_tokens + prefix_len;
      log_input_tokens = a.log_input_tokens + aligned;
    }

abbrev pub append_run : Req → PrefillAdder → PrefillAdder
append_run req a = record a { can_run_list = a.can_run_list ++ req ∷ [] }

abbrev pub Added : Type 0
Added = AddReqResult × Req × PrefillAdder

-- The length that is left of the extend, and the tokens up to its end.
abbrev pub truncate : ℕ → Req → Req
truncate len req = record req {
  extend_input_len = len;
  fill_ids = take (length req.prefix_indices + len) req.fill_ids;
}

-- The request cut to `len` tokens joins the batch; one that is not cut after all has its decode
-- tokens reserved.
unfoldable pub run_chunk : Bool → Req → ℕ → ℕ → PrefillAdder → Req × PrefillAdder
unfolding update_prefill_budget
run_chunk true req len max_tokens a =
    let req' = record (truncate len req) { is_chunked = true } in
    (
      req',
      update_prefill_budget 0 len 0
          (record (append_run req' a) { new_chunked_req = some req.req_id }),
    )
run_chunk false req len max_tokens a =
    let req' = record (truncate len req) { is_chunked = false } in
    (req', update_prefill_budget 0 len (min max_tokens clip_max_new_tokens) (append_run req' a))

unfoldable pub do_chunked_prefill : Req → ℤ → ℕ → ℕ → PrefillAdder → Added
do_chunked_prefill req trunc_len extend_len max_tokens a =
    let len = pos_part trunc_len in
    let (req', a') = run_chunk (ltb len extend_len) req len max_tokens a in
    if leb_ℤ trunc_len (pos 0) then (other, req, a) else (continue, req', a')

-- `self.rem_chunk_tokens or extend_len`
abbrev pub chunk_or : ℤ → ℕ → ℤ
chunk_or z extend_len = if leb_ℤ z (pos 0) && leb_ℤ (pos 0) z then pos extend_len else z

-- Where the request and its decode reserve exceed the total budget: the length that it is cut to,
-- or none if not even a page is left.
unfoldable pub limited_len : ℕ → ℤ → PrefillAdder → Option ℤ
unfolding floor_to rem_total_tokens
limited_len extend_len rem_chunk a =
    let min_chunk = a.page_size in
    let available_for_chunk = pos_part (rem_total_tokens a -ℤ pos 1) / a.page_size * a.page_size in
    let fitting =
      floor_to a.page_size (
        min_ℤ (min_ℤ (pos available_for_chunk) (pos extend_len)) (chunk_or rem_chunk extend_len)) in
    let forced = pos_part (fitting -ℤ pos a.page_size) / a.page_size * a.page_size in
    if ltb_ℤ (rem_total_tokens a) (pos min_chunk)
    then none
    else if ltb available_for_chunk min_chunk
    then none
    else if leb_ℤ (pos extend_len) fitting
    then (if ltb forced min_chunk then none else some (pos forced))
    else some fitting

-- A chunk that could not be added is reported as `NO_TOKEN`.
abbrev pub as_no_token : Added → Added
as_no_token (continue, req, a) = (continue, req, a)
as_no_token (no_token, req, a) = (no_token, req, a)
as_no_token (other, req, a) = (no_token, req, a)

abbrev pub add_cut : Option ℤ → Req → ℕ → PrefillAdder → Added
add_cut none req extend_len a = (no_token, req, a)
add_cut (some z) req extend_len a =
    as_no_token (do_chunked_prefill req z extend_len req.max_tokens a)

-- `rem_chunk_tokens is None or input_tokens <= rem_chunk_tokens`
abbrev pub chunk_fits : Option ℤ → ℕ → Bool
chunk_fits none input_tokens = true
chunk_fits (some z) input_tokens = leb_ℤ (pos input_tokens) z

abbrev pub chunk_limit : Option ℤ → ℤ
chunk_limit none = pos 0
chunk_limit (some z) = z

-- The branch within the total budget.
unfoldable pub add_within_budget : Req → ℕ → PrefillAdder → Added
add_within_budget req extend_len a =
    let input_tokens = ceil_paged_tokens extend_len a in
    if leb_ℤ a.rem_input_tokens (pos input_tokens) && ltb 0 (total_reqs a)
    then (other, req, a)
    else if chunk_fits a.rem_chunk_tokens input_tokens
    then (
      continue,
      req,
      update_prefill_budget 0 input_tokens (min req.max_tokens clip_max_new_tokens)
          (append_run req a),
    )
    else do_chunked_prefill req (floor_to a.page_size (chunk_limit a.rem_chunk_tokens)) extend_len
        req.max_tokens a

abbrev pub add_over_budget : Option ℤ → Req → ℕ → PrefillAdder → Added
add_over_budget none req extend_len a = (no_token, req, a)
add_over_budget (some z) req extend_len a = add_cut (limited_len extend_len z a) req extend_len a

unfoldable pub try_add_prefill : Req → PrefillAdder → Added
try_add_prefill req a =
    let extend_len = req.extend_input_len in
    let total_tokens = extend_len + clipped_rest req in
    if leb_ℤ a.max_batch_size (pos (total_reqs a))
    then (other, req, a)
    else if extend_len == 0
    then (continue, req, a)
    else if ltb_ℤ (rem_total_tokens a) (pos total_tokens)
    then add_over_budget a.rem_chunk_tokens req extend_len a
    else add_within_budget req extend_len a

abbrev pub min_chunk_rem : ℤ → Option ℤ → ℤ
min_chunk_rem rem none = rem
min_chunk_rem rem (some z) = min_ℤ rem z

-- The chunk budget if there is any left, else one page.
abbrev pub fallback : Option ℤ → ℕ → ℕ
fallback none page_size = page_size
fallback (some z) page_size = if leb_ℤ z (pos 0) then page_size else pos_part z

-- The tokens that a continued chunk may take, whatever the budget.
unfoldable pub chunk_allowance : PrefillAdder → ℕ
unfolding rem_total_tokens
chunk_allowance a =
    let rem = min_chunk_rem (rem_total_tokens a) a.rem_chunk_tokens in
    if leb_ℤ rem (pos 0) then fallback a.rem_chunk_tokens a.page_size else pos_part rem

-- The part of `add_chunked_req` behind the allowance, for a request that stays cut or not.
unfoldable pub run_next_chunk : Bool → Req → ℕ → PrefillAdder → Req × PrefillAdder
unfolding update_prefill_budget
run_next_chunk truncated req len a =
    let req' = record (truncate len req) { is_chunked = truncated } in
    let reserve = if truncated then 0 else min req.max_tokens clip_max_new_tokens in
    (req', update_prefill_budget 0 len reserve (append_run req' a))

-- True in front: the request is still truncated, and is returned where the source returns it.
unfoldable pub add_chunked_req : Req → PrefillAdder → Bool × Req × PrefillAdder
add_chunked_req req a =
    let allowance = chunk_allowance a in
    let truncated = ltb allowance req.extend_input_len in
    let (req', a') = run_next_chunk truncated req (min req.extend_input_len allowance) a in
    (truncated, req', a')
