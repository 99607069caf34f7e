-- ===== src/Scheduler/Batch.antt =====
-- `ForwardMode` and `ScheduledBatch` of miniinfer/scheduler/scheduler_batch.py, and the calls of
-- miniinfer/scheduler/scheduler.py that keep the metadata of the running batch. A request is known
-- by its identity, and a store gives what the object holds. A tensor that is None is `none`.
pub mod Aligned
pub mod Append
use mini_infer.Prelude.{
  ℕ, zero, suc, ◌+◌, Bool, true, false, ◌&&◌, ◌||◌, Option, none, some, List, [], ◌∷◌, ◌++◌, map,
  length, take, get_elem?, ◌==◌, if◌then◌else◌, Result, ok, err, index_error, type_error, ◌>>=◌,
}
use mini_infer.Prelude.Int.{ℤ}
use mini_infer.Scheduler.Req.{Req, current_seq_len}

pub data ForwardMode : Type 0 where
  extend decode mixed idle : ForwardMode

unfoldable pub is_extend : ForwardMode → Bool
is_extend extend = true
is_extend decode = false
is_extend mixed = true
is_extend idle = false

unfoldable pub is_decode : ForwardMode → Bool
is_decode extend = false
is_decode decode = true
is_decode mixed = false
is_decode idle = false

-- What the request objects hold.
abbrev pub Store : Type 0
Store = ℕ → Req

abbrev pub write_req : ℕ → Req → Store → Store
write_req r req s j = if j == r then req else s j

pub record ScheduledBatch : Type 0 where
  pub reqs : List ℕ
  pub forward_mode : ForwardMode
  pub input_ids : Option (List ℤ)
  pub output_ids : Option (List ℤ)
  pub uses_placeholder : Bool
  pub req_pool_indices : Option (List (Option ℕ))
  pub out_cache_loc : Option (List ℕ)
  pub seq_lens : Option (List ℕ)
  pub seq_lens_cpu : Option (List ℕ)
  pub prefix_lens : Option (List ℕ)
  pub extend_lens : Option (List ℕ)
  pub decoding_reqs : Option (List ℕ)

-- `init_new`
unfoldable pub new_batch : List ℕ → ScheduledBatch
new_batch reqs = record {
  reqs = reqs;
  forward_mode = idle;
  input_ids = none;
  output_ids = none;
  uses_placeholder = false;
  req_pool_indices = none;
  out_cache_loc = none;
  seq_lens = none;
  seq_lens_cpu = none;
  prefix_lens = none;
  extend_lens = none;
  decoding_reqs = none;
}

-- `xs[indices]`, which raises on an index that is out of bounds.
abbrev pub gather {ℓ} : {A : Type ℓ} → List A → List ℕ → Result (List A)
gather xs [] = ok []
gather xs (i ∷ indices) = elim (get_elem? xs i) [
  | none ↦ err index_error
  | some x ↦ gather xs indices >>= (λ rest. ok (x ∷ rest))
]

-- The same where None may stand for the tensor: one that must be there, and one that need not.
abbrev pub gather_from {ℓ} : {A : Type ℓ} → Option (List A) → List ℕ → Result (Option (List A))
gather_from none indices = err type_error
gather_from (some xs) indices = gather xs indices >>= (λ ys. ok (some ys))

abbrev pub gather_any {ℓ} : {A : Type ℓ} → Option (List A) → List ℕ → Result (Option (List A))
gather_any none indices = ok none
gather_any (some xs) indices = gather xs indices >>= (λ ys. ok (some ys))

-- The positions, counted from `i`, and the requests that pass no test: those that are not finished,
-- and in the prefill those that are not chunked.
abbrev pub keep_from : (ℕ → Bool) → ℕ → List ℕ → List ℕ × List ℕ
keep_from out i [] = ([], [])
keep_from out i (r ∷ reqs) =
    let (keep_indices, kept_reqs) = keep_from out (suc i) reqs in
    if out r then (keep_indices, kept_reqs) else (i ∷ keep_indices, r ∷ kept_reqs)

abbrev pub no_metadata : ScheduledBatch → ScheduledBatch
no_metadata b = record b {
  req_pool_indices = none;
  seq_lens = none;
  seq_lens_cpu = none;
  output_ids = none;
}

abbrev pub filter_metadata : List ℕ → ScheduledBatch → Result ScheduledBatch
filter_metadata keep_indices b = gather_any b.req_pool_indices keep_indices >>= (λ pool.
    gather_from b.seq_lens keep_indices >>= (λ lens.
      gather_any b.seq_lens_cpu keep_indices >>= (λ cpu.
        gather_any b.output_ids keep_indices >>= (λ outputs. ok (record b {
          req_pool_indices = pool;
          seq_lens = lens;
          seq_lens_cpu = cpu;
          output_ids = outputs;
        })))))

-- What is done with the metadata, by the positions kept and whether there are pool indices.
abbrev pub filter_kept : List ℕ → Option (List (Option ℕ)) → ScheduledBatch → Result ScheduledBatch
filter_kept [] pool b = ok (no_metadata b)
filter_kept (i ∷ indices) none b = ok b
filter_kept (i ∷ indices) (some xs) b = filter_metadata (i ∷ indices) b

unfoldable pub filter_batch : Store → ScheduledBatch → Result ScheduledBatch
filter_batch s b =
    let (keep_indices, kept_reqs) = keep_from (λ r. (s r).finished) 0 b.reqs in
    let b' = record b { reqs = kept_reqs } in
    if length keep_indices == length b.reqs
    then ok b'
    else filter_kept keep_indices b.req_pool_indices b'

abbrev pub take_some {ℓ} : {A : Type ℓ} → ℕ → Option (List A) → Option (List A)
take_some n none = none
take_some n (some xs) = some (take n xs)

abbrev pub seq_lens_of : Store → List ℕ → List ℕ
seq_lens_of s = map (λ r. current_seq_len (s r))

abbrev pub pool_of : Store → List ℕ → List (Option ℕ)
pool_of s = map (λ r. (s r).req_pool_idx)

unfoldable pub rebuild_metadata : Store → ScheduledBatch → ScheduledBatch
rebuild_metadata s b = elim b.reqs [
  | [] ↦ no_metadata b
  | r ∷ reqs ↦ record b {
    req_pool_indices = some (pool_of s (r ∷ reqs));
    seq_lens = some (seq_lens_of s (r ∷ reqs));
    seq_lens_cpu = some (seq_lens_of s (r ∷ reqs));
    output_ids = take_some (length (r ∷ reqs)) b.output_ids;
  }
]

-- `torch.cat` of the two where both are there, else what was there.
abbrev pub cat_any {ℓ} : {A : Type ℓ} → Option (List A) → Option (List A) → Option (List A)
cat_any none ys = none
cat_any (some xs) none = some xs
cat_any (some xs) (some ys) = some (xs ++ ys)

-- What the requests of `batch` at some positions bring: pool indices and lengths.
pub record Brought : Type 0 where
  pub pool : List (Option ℕ)
  pub lens : List ℕ
  pub lens_cpu : Option (List ℕ)

-- `torch.cat` on None raises.
abbrev pub cat_metadata :
    Brought → List (Option ℕ) → Option (List ℕ) → ScheduledBatch → Result ScheduledBatch
cat_metadata m pool none running = err type_error
cat_metadata m pool (some lens) running = ok (record running {
  req_pool_indices = some (pool ++ m.pool);
  seq_lens = some (lens ++ m.lens);
  seq_lens_cpu = cat_any running.seq_lens_cpu m.lens_cpu;
})

abbrev pub first_metadata : Brought → ScheduledBatch → ScheduledBatch
first_metadata m running = record running {
  req_pool_indices = some m.pool;
  seq_lens = some m.lens;
  seq_lens_cpu = m.lens_cpu;
  output_ids = none;
}

-- By the pool indices and the requests of the running batch.
abbrev pub append_brought :
    Option (List (Option ℕ)) → List ℕ → Brought → ScheduledBatch → Result ScheduledBatch
append_brought none reqs m running = ok (first_metadata m running)
append_brought (some pool) [] m running = ok (first_metadata m running)
append_brought (some pool) (r ∷ reqs) m running = cat_metadata m pool running.seq_lens running

abbrev pub brought : List ℕ → List (Option ℕ) → List ℕ → Option (List ℕ) → Result Brought
brought req_indices pool lens lens_cpu = gather pool req_indices >>= (λ p.
    gather lens req_indices >>= (λ l.
      gather_any lens_cpu req_indices >>= (λ c. ok (record { pool = p; lens = l; lens_cpu = c }))))

abbrev pub append_from :
    Option (List (Option ℕ))
    → Option (List ℕ)
    → ScheduledBatch
    → List ℕ
    → ScheduledBatch
    → Result ScheduledBatch
append_from none lens batch req_indices running = ok running
append_from (some pool) none batch req_indices running = ok running
append_from (some pool) (some lens) batch req_indices running =
    brought req_indices pool lens batch.seq_lens_cpu
    >>= (λ m. append_brought running.req_pool_indices running.reqs m running)

unfoldable pub append_metadata : ScheduledBatch → List ℕ → ScheduledBatch → Result ScheduledBatch
append_metadata batch [] running = ok running
append_metadata batch (i ∷ req_indices) running =
    append_from batch.req_pool_indices batch.seq_lens batch (i ∷ req_indices) running
