-- ===== src/Tests/Radix.antt =====
-- The radix tree at small inputs.
use mathlib.Core.List.{Permᴰ}
use mathlib.Core.List.Permᴰ
use mini_infer.Prelude.{
  ℕ, ◌+◌, ◌-◌, ◌≤◌, ◌≡◌, refl, ap, subst, ◌⊎◌, List, [], ◌∷◌, length, Option, none, some, false,
  arith, ok, true, ◌<◌, sym, ◌∙◌, ok-injective,
}
use mini_infer.Prelude.Int.{ℤ, pos, ◌+ℤ◌, min_ℤ}
use mini_infer.Radix.Keys.{align_len, key_match}
use mini_infer.Radix.Tree.{Tree, label, split_node}
use mini_infer.Radix.Cache.{RadixCache, new_cache, match_prefix, insert_loop, insert_helper, insert}
use mini_infer.Radix.Lock.{is_pos, in_tree, inc_held, inc_lock_ref, dec_lock_ref}
use mini_infer.Radix.Lookup.{WfCache, lookup, match_prefix-lookup}
use mini_infer.Radix.Store.{insert-lookup}
use mini_infer.Radix.Unlock.{dec_lock_ref-inc_lock_ref}
use mini_infer.Radix.Totals.{total_size, evictable_size, protected_size, sizes-WfCache}
use mini_infer.Radix.Evict.{
  Address, Entry, ITokenAllocator, Heapq, Evicting, get_at, evict_loop, evict_start, evict, nodes,
}
use mini_infer.Radix.Others.{Kept}
use mini_infer.Radix.Heap.{HeapLaws, FreeLeaf}
use mini_infer.Radix.EvictAll.{evict_loop-enough, evict-WfCache}
use mini_infer.Radix.Runs.{
  Call, matches, inserts, locks, unlocks, evicts, AllFit, call, run, run-new_cache-WfCache,
  new_cache-WfCache,
}

-- A heap that is a list, and an allocator that counts its free slots.
abbrev first_out : List Entry → Option (Entry × List Entry)
first_out [] = none
first_out (x ∷ xs) = some (x, xs)

abbrev list_heap : Heapq
list_heap = record { heapify = λ h. h; heappush = λ e h. e ∷ h; heappop = first_out }

first_out-none : (h : List Entry) → first_out h ≡ none → h ≡ []
first_out-none [] e = refl
first_out-none (x ∷ h) e = cc

first_out-perm :
    (h rest : List Entry) (x : Entry) → first_out h ≡ some (x, rest) → Permᴰ h (x ∷ rest)
first_out-perm [] rest x e = cc
first_out-perm (y ∷ h) rest x e =
    Permᴰ.cons (ap (λ o. head_of y o) e) (subst (Permᴰ h) (ap (λ o. rest_of h o) e) (Permᴰ.refl h))
  where
    head_of : Entry → Option (Entry × List Entry) → Entry
    head_of d none = d
    head_of d (some (a, b)) = a

    rest_of : List Entry → Option (Entry × List Entry) → List Entry
    rest_of d none = d
    rest_of d (some (a, b)) = b

list_heap-HeapLaws : HeapLaws list_heap
list_heap-HeapLaws = record {
  heapify-perm = λ h. Permᴰ.refl h;
  push-perm = λ e h. Permᴰ.refl (e ∷ h);
  pop-none = first_out-none;
  pop-perm = first_out-perm;
}

abbrev counting : ITokenAllocator ℕ
counting = record { free = λ slots n. n + length slots; available_size = λ n. n }

-- Two prompts with a common page.
abbrev calls : List Call
calls =
    inserts 1 (1 ∷ 2 ∷ 3 ∷ 4 ∷ 5 ∷ []) (10 ∷ 11 ∷ 12 ∷ 13 ∷ 14 ∷ [])
    ∷ inserts 2 (1 ∷ 2 ∷ 7 ∷ 8 ∷ []) (10 ∷ 11 ∷ 20 ∷ 21 ∷ [])
    ∷ locks 1
    ∷ evicts 2
    ∷ unlocks 1
    ∷ matches 3 (1 ∷ 2 ∷ 9 ∷ [])
    ∷ []

-- The node of the second prompt's first page is there when it is locked, and when it is released.
calls-AllFit : AllFit counting list_heap calls (0, new_cache 2)
unfolding call insert insert_helper new_cache align_len inc_lock_ref dec_lock_ref evict match_prefix
    key_match split_node
calls-AllFit = (refl, (refl, (refl, (tt, (refl, (tt, tt))))))

run-new_cache-WfCache_example :
    (r : ℕ × RadixCache) × (run counting list_heap calls (0, new_cache 2) ≡ ok r) × WfCache r.1
run-new_cache-WfCache_example =
    run-new_cache-WfCache counting list_heap list_heap-HeapLaws calls 2 0 calls-AllFit (omega arith)

abbrev one_prompt : RadixCache
one_prompt = (insert_loop 1 (new_cache 2) (1 ∷ 2 ∷ 3 ∷ 4 ∷ []) (10 ∷ 11 ∷ 12 ∷ 13 ∷ [])).1

-- The last token is no whole page.
one_prompt-insert :
    insert 1 (new_cache 2) (1 ∷ 2 ∷ 3 ∷ 4 ∷ 5 ∷ []) (some (10 ∷ 11 ∷ 12 ∷ 13 ∷ 14 ∷ []))
    ≡ ok (0, one_prompt)
unfolding insert insert_helper insert_loop new_cache align_len
one_prompt-insert = refl

two_tokens : 1 < (new_cache 2).page_size
unfolding new_cache
two_tokens = omega arith

one_prompt-WfCache : WfCache one_prompt
one_prompt-WfCache =
    let (r, run, a, b, c, d, w) =
      insert-lookup 1 (new_cache 2) (1 ∷ 2 ∷ 3 ∷ 4 ∷ 5 ∷ []) (10 ∷ 11 ∷ 12 ∷ 13 ∷ 14 ∷ [])
        (new_cache-WfCache 2 (omega arith)) two_tokens refl in
    subst (λ (x : ℕ × RadixCache). WfCache x.1) (ok-injective (sym run ∙ one_prompt-insert)) w

-- The call splits the node of the prompt.
splits : (match_prefix 3 one_prompt (1 ∷ 2 ∷ 9 ∷ 9 ∷ [])).0 ≡ 10 ∷ 11 ∷ []
unfolding match_prefix insert_loop new_cache align_len key_match split_node
splits = refl

match_prefix-lookup_example :
    ((match_prefix 3 one_prompt (1 ∷ 2 ∷ 9 ∷ 9 ∷ [])).0 ≡ lookup one_prompt (1 ∷ 2 ∷ 9 ∷ 9 ∷ []))
    × ((other : List ℕ)
        → lookup (match_prefix 3 one_prompt (1 ∷ 2 ∷ 9 ∷ 9 ∷ [])).2 other ≡ lookup one_prompt other)
    × WfCache (match_prefix 3 one_prompt (1 ∷ 2 ∷ 9 ∷ 9 ∷ [])).2
match_prefix-lookup_example =
    match_prefix-lookup 3 one_prompt (1 ∷ 2 ∷ 9 ∷ 9 ∷ []) one_prompt-WfCache

one_prompt-node : in_tree 1 one_prompt.root ≡ true
unfolding insert_loop new_cache in_tree
one_prompt-node = refl

dec_lock_ref-inc_lock_ref_example :
    (locked : ℤ × RadixCache) × (freed : ℤ) × (inc_lock_ref one_prompt 1 ≡ ok locked)
    × (dec_lock_ref locked.1 1 ≡ ok (freed, one_prompt))
    × (locked.0 +ℤ freed ≡ pos 0)
dec_lock_ref-inc_lock_ref_example = dec_lock_ref-inc_lock_ref one_prompt 1 one_prompt-node

-- What the call locks.
locked_len : (inc_held one_prompt 1).1.protected_size_ ≡ pos 4
unfolding inc_held insert_loop new_cache ◌+ℤ◌
locked_len = refl

sizes-WfCache_example :
    (evictable_size one_prompt none ≡ one_prompt.evictable_size_)
    × ((size available : ℕ)
        → evictable_size one_prompt (some (size, available))
          ≡ min_ℤ one_prompt.evictable_size_ (pos (size - available)))
    × (protected_size one_prompt ≡ one_prompt.protected_size_)
    × (one_prompt.evictable_size_ +ℤ one_prompt.protected_size_ ≡ pos (total_size one_prompt))
sizes-WfCache_example = sizes-WfCache one_prompt one_prompt-WfCache

evict_loop-enough_example :
    (last : Evicting ℕ) × (evict_loop counting list_heap one_prompt.page_size
        (nodes counting list_heap one_prompt.page_size one_prompt.root)
        3
        (evict_start counting list_heap one_prompt.page_size one_prompt 0)
      ≡ ok last)
    × ((3 ≤ last.num_evicted) ⊎ ((e : Entry) → ¬ FreeLeaf last.root e))
evict_loop-enough_example =
    evict_loop-enough counting list_heap list_heap-HeapLaws one_prompt 3 0 one_prompt-WfCache

evict-WfCache_example :
    (r : ℕ × RadixCache) × (evict counting list_heap one_prompt.page_size one_prompt 0 3 ≡ ok r)
    × WfCache r.1
    × ((b : Address) (u : Tree)
        → get_at b one_prompt.root ≡ some u
        → is_pos 0 (label u).lock_ref ≡ false
        → Kept b u r.1.root)
evict-WfCache_example =
    evict-WfCache counting list_heap list_heap-HeapLaws one_prompt 3 0 one_prompt-WfCache
