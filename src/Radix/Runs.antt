-- ===== src/Radix/Runs.antt =====
-- A cache of radix_cache.py in use: any calls, in any order, on a new cache.
use mini_infer.Prelude.{
  ℕ, ◌<◌, ◌≡◌, refl, sym, ap, ◌∙◌, subst, arith, true, List, [], ◌∷◌, length, some, Result, ok, err,
  ok-injective, ◌>>=◌,
}
use mini_infer.Prelude.Int.{ℤ}
use mini_infer.Radix.Cache.{RadixCache, new_cache, match_prefix, insert}
use mini_infer.Radix.Reads.{WfForest}
use mini_infer.Radix.Weight.{weight_all}
use mini_infer.Radix.Lock.{in_tree, inc_held, dec_held, inc_lock_ref, dec_lock_ref}
use mini_infer.Radix.Lookup.{WfCache, match_prefix-lookup}
use mini_infer.Radix.Store.{insert-lookup, insert-page_size}
use mini_infer.Radix.Held.{held-WfCache}
use mini_infer.Radix.Evict.{ITokenAllocator, Heapq, Evicting, evict, evicted}
use mini_infer.Radix.Heap.{HeapLaws}
use mini_infer.Radix.EvictAll.{evict-WfCache}

-- A lock call names a node; `time` is what the clock shows.
pub data Call : Type 0 where
  matches : (time : ℕ) → (key : List ℕ) → Call
  inserts : (time : ℕ) → (key value : List ℕ) → Call
  locks : (id : ℕ) → Call
  unlocks : (id : ℕ) → Call
  evicts : (num_tokens : ℕ) → Call

pub new_cache-WfCache : (page_size : ℕ) → 0 < page_size → WfCache (new_cache page_size)
unfolding new_cache WfForest weight_all
new_cache-WfCache page_size h = record {
  positive = h;
  shape = tt;
  root_locked = refl;
  root_empty = refl;
  evictable = refl;
  protected = refl;
}

-- What a call needs: a value to insert has a slot for each token, and the tree holds the node that a
-- lock call names.
abbrev pub Fits : Call → RadixCache → Type 0
Fits (matches time key) cache = Unit
Fits (inserts time key value) cache = length value ≡ length key
Fits (locks id) cache = in_tree id cache.root ≡ true
Fits (unlocks id) cache = in_tree id cache.root ≡ true
Fits (evicts n) cache = Unit

-- What a result has to satisfy if it is one.
abbrev pub Then {ℓ} : {X : Type ℓ} → Result X → (X → Type 0) → Type 0
Then (err e) p = Unit
Then (ok x) p = p x

Then-ok {ℓ} : {X : Type ℓ} (r : Result X) (x : X) (p : X → Type 0) → r ≡ ok x → Then r p → p x
Then-ok r x p e h = subst (λ y. Then y p) e h

match_prefix-page_size :
    (time : ℕ) (cache : RadixCache) (key : List ℕ)
    → (match_prefix time cache key).2.page_size ≡ cache.page_size
unfolding match_prefix
match_prefix-page_size time cache [] = refl
match_prefix-page_size time cache (x ∷ key) = refl

evicted-page_size :
    {A : Type 0} (al : ITokenAllocator A) (q : Heapq) (cache : RadixCache)
    (last : Result (Evicting A)) (r : A × RadixCache)
    → evicted al q cache.page_size cache last ≡ ok r
    → r.1.page_size ≡ cache.page_size
evicted-page_size al q cache (err e) r h = cc
evicted-page_size al q cache (ok last) r h =
    ap (λ (y : _ × RadixCache). y.1.page_size) (sym (ok-injective h))

evict-page_size :
    {A : Type 0} (al : ITokenAllocator A) (q : Heapq) (cache : RadixCache) (allocator : A) (n : ℕ)
    (r : A × RadixCache)
    → evict al q cache.page_size cache allocator n ≡ ok r
    → r.1.page_size ≡ cache.page_size
unfolding evict
evict-page_size al q cache allocator n r h = evicted-page_size al q cache _ r h

module _ {A : Type 0} (al : ITokenAllocator A) (q : Heapq) where
  unfoldable pub call : Call → A × RadixCache → Result (A × RadixCache)
  call (matches time key) s = ok (s.0, (match_prefix time s.1 key).2)
  call (inserts time key value) s =
      insert time s.1 key (some value) >>= (λ (r : ℕ × RadixCache). ok (s.0, r.1))
  call (locks id) s = inc_lock_ref s.1 id >>= (λ (r : ℤ × RadixCache). ok (s.0, r.1))
  call (unlocks id) s = dec_lock_ref s.1 id >>= (λ (r : ℤ × RadixCache). ok (s.0, r.1))
  call (evicts n) s = evict al q s.1.page_size s.1 s.0 n

  unfoldable pub run : List Call → A × RadixCache → Result (A × RadixCache)
  unfolding call
  run [] s = ok s
  run (c ∷ calls) s = call c s >>= (λ next. run calls next)

  -- Each call has what it needs in the cache that the calls before it left.
  abbrev pub AllFit : List Call → A × RadixCache → Type 0
  AllFit [] s = Unit
  AllFit (c ∷ calls) s = Fits c s.1 × Then (call c s) (λ next. AllFit calls next)

  -- Pages of more than one token.
  abbrev IsPaged : RadixCache → Type 0
  IsPaged cache = WfCache cache × (1 < cache.page_size)

  module _ (laws : HeapLaws q) where
    call-WfCache :
        (c : Call) (s : A × RadixCache)
        → Fits c s.1
        → IsPaged s.1
        → (r : A × RadixCache) × (call c s ≡ ok r) × IsPaged r.1
    unfolding call inc_lock_ref dec_lock_ref inc_held
    call-WfCache (matches time key) s f w = (
      _,
      refl,
      (
        (match_prefix-lookup time s.1 key w.0).2,
        subst (λ p. 1 < p) (sym (match_prefix-page_size time s.1 key)) w.1,
      ),
    )
    call-WfCache (inserts time key value) s f w =
        let (r, e, a, b, c, d, whole) = insert-lookup time s.1 key value w.0 w.1 f in
        (
          (s.0, r.1),
          ap (λ o. o >>= (λ (r : ℕ × RadixCache). ok (s.0, r.1))) e,
          (whole, subst (λ p. 1 < p) (sym (insert-page_size time s.1 key value w.0 w.1 f r e)) w.1),
        )
    call-WfCache (locks id) s f w =
        ((s.0, (inc_held s.1 id).1), rw f refl, ((held-WfCache s.1 id w.0).0, w.1))
    call-WfCache (unlocks id) s f w =
        ((s.0, (dec_held s.1 id).1), rw f refl, ((held-WfCache s.1 id w.0).1, w.1))
    call-WfCache (evicts n) s f w =
        let (r, e, h, k) = evict-WfCache al q laws s.1 n s.0 w.0 in
        (r, e, (h, subst (λ p. 1 < p) (sym (evict-page_size al q s.1 s.0 n r e)) w.1))

    run-WfCache :
        (calls : List Call) (s : A × RadixCache)
        → AllFit calls s
        → IsPaged s.1
        → (r : A × RadixCache) × (run calls s ≡ ok r) × WfCache r.1
    unfolding run
    run-WfCache [] s f w = (s, refl, w.0)
    run-WfCache (c ∷ calls) s f w =
        let (next, e, h) = call-WfCache c s f.0 w in
        let fits = Then-ok (call c s) next (λ n. AllFit calls n) e f.1 in
        let (r, d, k) = run-WfCache calls next fits h in
        (r, ap (λ o. o >>= (λ x. run calls x)) e ∙ d, k)

    -- On a new cache with pages of more than one token any calls in any order raise nothing, if each
    -- value inserted has a slot for each token, and each node locked or released is in the tree at
    -- that time. Then the cache is well formed: children stand under the first page of their keys, no
    -- two under the same, keys are of whole pages with a slot for each token, and the two counters
    -- are the tokens of the nodes that are free and of those that are held.
    pub run-new_cache-WfCache :
        (calls : List Call) (page_size : ℕ) (allocator : A)
        → AllFit calls (allocator, new_cache page_size)
        → 1 < page_size
        → (r : A × RadixCache) × (run calls (allocator, new_cache page_size) ≡ ok r) × WfCache r.1
    unfolding new_cache
    run-new_cache-WfCache calls page_size allocator f h =
        run-WfCache calls (allocator, new_cache page_size) f
          (new_cache-WfCache page_size (omega arith), h)
