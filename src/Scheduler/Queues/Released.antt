-- ===== src/Scheduler/Queues/Released.antt =====
-- The deferred releases of miniinfer/scheduler/scheduler.py: what `drain_pending_releases` does to
-- the requests.
use mini_infer.Prelude.{
  ℕ, zero, suc, ◌≡◌, ◌≢◌, inl, inr, refl, sym, ap, ◌∙◌, ◌⊎◌, subst, Bool, true, Option, none, List,
  [], ◌∷◌, ◌++◌, map, length, take, if◌then◌else◌, Elem, Distinct, Elem-take, Distinct-take,
  take-append-drop, Bool-cases, Result, ok, ◌>>=◌,
}
use mini_infer.Prelude.Int.{ℤ}
use mathlib.Core.List.{append-nil}
use mini_infer.Scheduler.Req.{Req}
use mini_infer.Scheduler.Batch.{Store, write_req}
use mini_infer.Scheduler.Queues.{IKvCacheManager, Scheduler}
use mini_infer.Scheduler.Queues.Pop.{write_req_ne, write_req_self}
use mini_infer.Scheduler.Queues.Release.{
  no_cap, cap_of, has_row, release_pending, release_all, drain_split, drain_some,
  drain_pending_releases,
}

-- A request whose row is taken back.
abbrev pub rowless : Req → Req
rowless req = record req { req_pool_idx = none }

module _ {K : Type 0} (kv : IKvCacheManager K) where
  -- The manager alone, over what the requests held at first.
  unfoldable pub updated_all : List Req → K → Result K
  updated_all [] k = ok k
  updated_all (req ∷ reqs) k = kv.update_finished_req_radix_cache req k >>= updated_all reqs

  abbrev pub ReleasedIn : List ℕ → Store → K → Result (Store × K) → Type 0
  ReleasedIn reqs store k result =
      (store' : Store) × (k' : K) × (result ≡ ok (store', k'))
      × ((j : ℕ) → Elem j reqs → store' j ≡ rowless (store j))
      × ((j : ℕ) → ¬ Elem j reqs → store' j ≡ store j)
      × (updated_all (map store reqs) k ≡ ok k')

  module _ (Ready : Req → Type 0) (rows : (req : Req) → Ready req → has_row req.req_pool_idx ≡ true)
      (updates : (req : Req) (k : K)
        → Ready req
        → (k' : K) × (kv.update_finished_req_radix_cache req k ≡ ok k')) where
    map_same :
        (f g : Store) (reqs : List ℕ)
        → ((j : ℕ) → Elem j reqs → f j ≡ g j)
        → map f reqs ≡ map g reqs
    map_same f g [] h = refl
    map_same f g (r ∷ reqs) h =
        let first = h r (inl refl) in let others = map_same f g reqs (λ j m. h j (inr m)) in cc

    release_all-ReleasedIn :
        (reqs : List ℕ) (store : Store) (k : K)
        → Distinct reqs
        → ((j : ℕ) → Elem j reqs → Ready (store j))
        → ReleasedIn reqs store k (release_all kv reqs store k)
    unfolding release_all release_pending updated_all
    release_all-ReleasedIn [] store k d a = (store, k, refl, λ j m. absurd m, λ j m. refl, refl)
    release_all-ReleasedIn (r ∷ reqs) store k d a =
        let ready = a r (inl refl) in
        let (k₁, up) = updates (store r) k ready in
        let store₁ = write_req r (rowless (store r)) store in
        let apart : (j : ℕ) → Elem j reqs → r ≢ j =
          λ j m e. d.0 (subst (λ i. Elem i reqs) (sym e) m) in
        let same : (j : ℕ) → Elem j reqs → store₁ j ≡ store j =
          λ j m. write_req_ne r _ store j (apart j m) in
        let (store', k', run, gone, others, all) =
          release_all-ReleasedIn reqs store₁ k₁ d.1
            (λ j m. subst Ready (sym (same j m)) (a j (inr m))) in
        (
          store',
          k',
          rw (rows (store r) ready, up) run,
          λ j m. elim m [
            | inl e ↦
                subst (λ i. store' i ≡ rowless (store i)) (sym e)
                  (others r d.0 ∙ write_req_self r _ store)
            | inr n ↦ gone j n ∙ ap rowless (same j n)
          ],
          λ j m. others j (λ n. m (inr n)) ∙ write_req_ne r _ store j (λ e. m (inl (sym e))),
          rw up (ap (λ (q : List Req). updated_all q k₁) (sym (map_same _ _ reqs same)) ∙ all),
        )

split_is :
    (max_reqs : Option ℤ) (pending : List ℕ)
    → (drain_split max_reqs pending).0 ++ (drain_split max_reqs pending).1 ≡ pending
split_is max_reqs pending = elim (Bool-cases (no_cap max_reqs)) [
  | inl e ↦ rw e (append-nil pending)
  | inr e ↦ rw e (take-append-drop (cap_of max_reqs) pending)
]

first_part :
    (max_reqs : Option ℤ) (pending : List ℕ)
    → (drain_split max_reqs pending).0
      ≡ (if no_cap max_reqs then pending else take (cap_of max_reqs) pending)
first_part max_reqs pending = elim (Bool-cases (no_cap max_reqs)) [
  | inl e ↦ rw e refl
  | inr e ↦ rw e refl
]

take_empty : (n : ℕ) → take {A = ℕ} n [] ≡ []
take_empty zero = refl
take_empty (suc n) = refl

take_nil :
    (max_reqs : Option ℤ)
    → ◌≡◌ {A = List ℕ} [] (if no_cap max_reqs then [] else take (cap_of max_reqs) [])
take_nil max_reqs = elim (Bool-cases (no_cap max_reqs)) [
  | inl e ↦ rw e refl
  | inr e ↦ rw e (sym (take_empty (cap_of max_reqs)))
]

Distinct-split :
    (max_reqs : Option ℤ) (pending : List ℕ)
    → Distinct pending
    → Distinct (drain_split max_reqs pending).0
Distinct-split max_reqs pending d = elim (Bool-cases (no_cap max_reqs)) [
  | inl e ↦ rw e d
  | inr e ↦ rw e (Distinct-take (cap_of max_reqs) pending d)
]

Elem-split :
    (max_reqs : Option ℤ) (pending : List ℕ) (j : ℕ)
    → Elem j (drain_split max_reqs pending).0
    → Elem j pending
Elem-split max_reqs pending j = elim (Bool-cases (no_cap max_reqs)) [
  | inl e ↦ rw e (λ m. m)
  | inr e ↦ rw e (Elem-take j (cap_of max_reqs) pending)
]

module _ {K R : Type 0} (kv : IKvCacheManager K) where
  -- `rel` are released in one go, and `rest` stay pending.
  pub record Drained (free_group : Bool) (s s' : Scheduler K R) (rel rest : List ℕ) : Type 0 where
    pub pending : s'.pending_release_reqs ≡ rest
    pub rowless_all : (j : ℕ) → Elem j rel → s'.store j ≡ rowless (s.store j)
    pub others : (j : ℕ) → ¬ Elem j rel → s'.store j ≡ s.store j
    pub all_else : s' ≡ record s {
      pending_release_reqs = s'.pending_release_reqs;
      store = s'.store;
      kv_cache_mgr = s'.kv_cache_mgr;
    }
    pub manager :
        (k : K) × (updated_all kv
            (map s.store rel)
            (if free_group then kv.begin_free_group s.kv_cache_mgr else s.kv_cache_mgr)
          ≡ ok k)
        × (s'.kv_cache_mgr ≡ (if free_group then kv.end_free_group k else k))

  module _ (Ready : Req → Type 0) (rows : (req : Req) → Ready req → has_row req.req_pool_idx ≡ true)
      (updates : (req : Req) (k : K)
        → Ready req
        → (k' : K) × (kv.update_finished_req_radix_cache req k ≡ ok k')) where
    drain_some-Drained :
        (free_group : Bool) (rel rest : List ℕ) (s : Scheduler K R)
        → Distinct rel
        → ((j : ℕ) → Elem j rel → Ready (s.store j))
        → (s' : Scheduler K R) × (drain_some kv free_group (rel, rest) s ≡ ok (length rel, s'))
          × Drained free_group s s' rel rest
    drain_some-Drained free_group rel rest s d a =
        let (store', k', run, gone, others, all) =
          release_all-ReleasedIn kv Ready rows updates rel s.store _ d a in
        (
          record s {
            pending_release_reqs = rest;
            store = store';
            kv_cache_mgr = if free_group then kv.end_free_group k' else k';
          },
          rw run refl,
          record {
            pending = refl;
            rowless_all = gone;
            others = others;
            all_else = refl;
            manager = (k', all, refl);
          },
        )

    drain_reqs :
        (free_group : Bool) (max_reqs : Option ℤ) (reqs : List ℕ) (s : Scheduler K R)
        → Distinct reqs
        → ((j : ℕ) → Elem j reqs → Ready (s.store j))
        → (s' : Scheduler K R) × (rel : List ℕ) × (rest : List ℕ) × (drain_pending_releases kv
              free_group max_reqs
              (record s { pending_release_reqs = reqs })
            ≡ ok (length rel, s'))
          × (reqs ≡ rel ++ rest)
          × (rel ≡ (if no_cap max_reqs then reqs else take (cap_of max_reqs) reqs))
          × (((reqs ≡ []) × (s' ≡ record s { pending_release_reqs = reqs }))
              ⊎ Drained free_group (record s { pending_release_reqs = reqs }) s' rel rest)
    unfolding drain_pending_releases
    drain_reqs free_group max_reqs [] s d a = (
      record s { pending_release_reqs = [] },
      [],
      [],
      refl,
      refl,
      take_nil max_reqs,
      inl (refl, refl),
    )
    drain_reqs free_group max_reqs (r ∷ reqs) s d a =
        let parts = drain_split max_reqs (r ∷ reqs) in
        let (s', run, drained) =
          drain_some-Drained free_group parts.0 parts.1
            (record s { pending_release_reqs = r ∷ reqs }) (Distinct-split max_reqs (r ∷ reqs) d)
            (λ j m. a j (Elem-split max_reqs (r ∷ reqs) j m)) in
        (
          s',
          parts.0,
          parts.1,
          run,
          sym (split_is max_reqs (r ∷ reqs)),
          first_part max_reqs (r ∷ reqs),
          inr drained,
        )

    -- If the pending requests are distinct, have a row each, and their update raises nothing, then
    -- `drain_pending_releases` raises nothing. It releases all of them, or with a positive cap the
    -- first so many, and returns how many: the cache takes them one after the other as they were,
    -- between the start and the end of a group of frees where the allocator has such; each of them
    -- has no row any more, and all else in the scheduler is as it was. With nothing pending it
    -- changes nothing.
    pub drain_pending_releases-Drained :
        (free_group : Bool) (max_reqs : Option ℤ) (s : Scheduler K R)
        → Distinct s.pending_release_reqs
        → ((j : ℕ) → Elem j s.pending_release_reqs → Ready (s.store j))
        → (s' : Scheduler K R) × (rel : List ℕ) × (rest : List ℕ) × (drain_pending_releases kv
              free_group max_reqs s
            ≡ ok (length rel, s'))
          × (s.pending_release_reqs ≡ rel ++ rest)
          × (rel ≡ (
              if no_cap max_reqs
              then s.pending_release_reqs
              else take (cap_of max_reqs) s.pending_release_reqs))
          × (((s.pending_release_reqs ≡ []) × (s' ≡ s)) ⊎ Drained free_group s s' rel rest)
    drain_pending_releases-Drained free_group max_reqs s d a =
        drain_reqs free_group max_reqs s.pending_release_reqs s d a
