-- ===== src/Engine/Counts.antt =====
-- `_process_overlap_result` of miniinfer/engine/llm_engine.py, and the same count in `step`: how many
-- tokens a batch prefilled and decoded.
use mini_infer.Prelude.{
  ◌<◌, subst, sym, inl, inr, ℕ_discrete, length-append, ℕ, ◌+◌, ◌≡◌, refl, true, false, Option,
  none, some, List, [], ◌∷◌, ◌++◌, length, sum, if◌then◌else◌, Elem, arith, if_of_true,
}
use mini_infer.Detokenizer.{put}
use mini_infer.Scheduler.Batch.{Store, ScheduledBatch, mixed, is_extend, is_decode}
use mini_infer.Scheduler.Queues.Release.{is_in}

-- The counts of `StepOutput`, and what each prefilled request had and got.
pub record StepCounts : Type 0 where
  pub num_prefill_tokens : ℕ
  pub num_decode_tokens : ℕ
  pub prefill_prefix_lens : List (ℕ × ℕ)
  pub prefill_extend_lens : List (ℕ × ℕ)

abbrev pub no_counts : StepCounts
no_counts = record {
  num_prefill_tokens = 0;
  num_decode_tokens = 0;
  prefill_prefix_lens = [];
  prefill_extend_lens = [];
}

abbrev pub count_prefill : ℕ → ℕ → ℕ → StepCounts → StepCounts
count_prefill req_id pre_len ext_len c = record c {
  num_prefill_tokens = c.num_prefill_tokens + ext_len;
  prefill_prefix_lens = put req_id pre_len c.prefill_prefix_lens;
  prefill_extend_lens = put req_id ext_len c.prefill_extend_lens;
}

abbrev pub count_decode : StepCounts → StepCounts
count_decode c = record c { num_decode_tokens = c.num_decode_tokens + 1 }

-- The loop over the requests, their prefix lengths and their extend lengths.
unfoldable pub tally : Store → List ℕ → List ℕ → List ℕ → List ℕ → StepCounts → StepCounts
tally s decodes (r ∷ reqs) (p ∷ pre) (x ∷ ext) c =
    tally s decodes reqs pre ext
      (if is_in r decodes then count_decode c else count_prefill (s r).req_id p x c)
tally s decodes [] pre ext c = c
tally s decodes (r ∷ reqs) [] ext c = c
tally s decodes (r ∷ reqs) (p ∷ pre) [] c = c

abbrev pub reqs_or_none : Option (List ℕ) → List ℕ
reqs_or_none none = []
reqs_or_none (some reqs) = reqs

-- A list that is None or empty counts as false.
abbrev pub extend_counts : Store → List ℕ → List ℕ → List ℕ → List ℕ → StepCounts
extend_counts s decodes reqs (p ∷ pre) (x ∷ ext) =
    tally s decodes reqs (p ∷ pre) (x ∷ ext) no_counts
extend_counts s decodes reqs [] ext = record no_counts { num_prefill_tokens = sum ext }
extend_counts s decodes reqs (p ∷ pre) [] = no_counts

unfoldable pub step_counts : Store → ScheduledBatch → StepCounts
unfolding tally is_extend is_decode
step_counts s b =
    if is_extend b.forward_mode
    then extend_counts s (reqs_or_none b.decoding_reqs) b.reqs (reqs_or_none b.prefix_lens)
        (reqs_or_none b.extend_lens)
    else if is_decode b.forward_mode
    then record no_counts { num_decode_tokens = length b.reqs }
    else no_counts

is_in-Elem : (r : ℕ) (xs : List ℕ) → Elem r xs → is_in r xs ≡ true
is_in-Elem r [] m = absurd m
is_in-Elem r (x ∷ xs) m = ground (arith, m, is_in-Elem r xs)

not_in : (r : ℕ) (xs : List ℕ) → ¬ Elem r xs → is_in r xs ≡ false
not_in r [] n = refl
not_in r (x ∷ xs) n = elim (ℕ_discrete r x) [
  | yes e ↦ absurd (n (inl e))
  | no h ↦ ground (arith, h, not_in r xs (λ m. n (inr m)))
]

-- Between two counts: so many tokens more.
abbrev Counted : ℕ → ℕ → StepCounts → StepCounts → Type 0
Counted prefill decoded c c' =
    (c'.num_prefill_tokens ≡ c.num_prefill_tokens + prefill)
    × (c'.num_decode_tokens ≡ c.num_decode_tokens + decoded)

module _ (s : Store) (decodes : List ℕ) where
  tally_decodes :
      (reqs pre ext : List ℕ) (c : StepCounts)
      → length pre ≡ length reqs
      → length ext ≡ length reqs
      → ((j : ℕ) → Elem j reqs → Elem j decodes)
      → Counted 0 (length reqs) c (tally s decodes reqs pre ext c)
  unfolding tally
  tally_decodes [] pre ext c h k m = (omega arith, omega arith)
  tally_decodes (r ∷ reqs) [] ext c h k m = absurd (omega (arith, h))
  tally_decodes (r ∷ reqs) (p ∷ pre) [] c h k m = absurd (omega (arith, k))
  tally_decodes (r ∷ reqs) (p ∷ pre) (x ∷ ext) c h k m =
      let ih =
        tally_decodes reqs pre ext (count_decode c) (omega (arith, h)) (omega (arith, k))
          (λ j n. m j (inr n)) in
      subst (λ (y : StepCounts). Counted 0 (length (r ∷ reqs)) c (tally s decodes reqs pre ext y))
        (sym (if_of_true _ _ (is_in-Elem r decodes (m r (inl refl)))))
        (omega (arith, ih.0), omega (arith, ih.1))

  tally-Counted :
      (reqs pre ext : List ℕ) (c : StepCounts) (more ones : List ℕ)
      → length pre ≡ length reqs + length more
      → length ext ≡ length reqs
      → length ones ≡ length more
      → ((j : ℕ) → Elem j reqs → ¬ Elem j decodes)
      → ((j : ℕ) → Elem j more → Elem j decodes)
      → Counted (sum ext) (length more) c (tally s decodes (reqs ++ more) pre (ext ++ ones) c)
  unfolding tally
  tally-Counted [] pre [] c more ones h k l n m =
      tally_decodes more pre ones c (omega (arith, h)) (omega (arith, l)) m
  tally-Counted [] pre (x ∷ ext) c more ones h k l n m = absurd (omega (arith, k))
  tally-Counted (r ∷ reqs) [] ext c more ones h k l n m = absurd (omega (arith, h))
  tally-Counted (r ∷ reqs) (p ∷ pre) [] c more ones h k l n m = absurd (omega (arith, k))
  tally-Counted (r ∷ reqs) (p ∷ pre) (x ∷ ext) c more ones h k l n m =
      let ih =
        tally-Counted reqs pre ext (count_prefill (s r).req_id p x c) more ones (omega (arith, h))
          (omega (arith, k)) l (λ j e. n j (inr e)) m in
      rw (not_in r decodes (n r (inl refl))) (omega (arith, ih.0), omega (arith, ih.1))

extend_counts-Counted :
    (s : Store) (decodes reqs pre ext : List ℕ)
    → 0 < length pre
    → 0 < length ext
    → extend_counts s decodes reqs pre ext ≡ tally s decodes reqs pre ext no_counts
extend_counts-Counted s decodes reqs [] ext h k = absurd (omega (arith, h))
extend_counts-Counted s decodes reqs (p ∷ pre) [] h k = absurd (omega (arith, k))
extend_counts-Counted s decodes reqs (p ∷ pre) (x ∷ ext) h k = refl

-- If a mixed batch has requests to extend and then decode requests, with a prefix length and an
-- extend length for each, and no decode request is among the others, then the tokens counted as
-- prefilled are the sum of the extend lengths of the former, and one is counted as decoded for each
-- of the latter.
pub step_counts-mixed :
    (s : Store) (b : ScheduledBatch) (reqs decodes pre ext ones : List ℕ)
    → b.forward_mode ≡ mixed
    → b.reqs ≡ reqs ++ decodes
    → b.decoding_reqs ≡ some decodes
    → b.prefix_lens ≡ some pre
    → b.extend_lens ≡ some (ext ++ ones)
    → 0 < length reqs
    → length pre ≡ length reqs + length decodes
    → length ext ≡ length reqs
    → length ones ≡ length decodes
    → ((j : ℕ) → Elem j reqs → ¬ Elem j decodes)
    → ((step_counts s b).num_prefill_tokens ≡ sum ext)
      × ((step_counts s b).num_decode_tokens ≡ length decodes)
unfolding step_counts is_extend
step_counts-mixed s b reqs decodes pre ext ones f r d p e n h k l a =
    let counted = tally-Counted s decodes reqs pre ext no_counts decodes ones h k l a (λ j m. m) in
    let run =
      extend_counts-Counted s decodes (reqs ++ decodes) pre (ext ++ ones) (omega (arith, h, n))
        (omega (arith, length-append ext ones, k, n)) in
    rw (f, r, d, p, e) (rw run (omega (arith, counted.0), omega (arith, counted.1)))
