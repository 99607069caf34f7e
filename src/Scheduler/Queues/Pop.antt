-- ===== src/Scheduler/Queues/Pop.antt =====
-- Lists of requests: `list.pop` and `list.remove` as scheduler.py uses them, and writes to the store.
use mini_infer.Prelude.{
  ℕ, suc, ◌+◌, ◌≡◌, ◌≢◌, ◌⊎◌, inl, inr, refl, sym, ap, ◌∙◌, List, [], ◌∷◌, ◌++◌, length,
  length-append, Elem, Distinct, arith,
}
use mini_infer.Scheduler.Req.{Req}
use mini_infer.Scheduler.Batch.{Store, write_req}
use mini_infer.Scheduler.Queues.Decode.{pop, remove_req}

-- `remove_req` for each of the requests, the last first.
abbrev pub without : List ℕ → List ℕ → List ℕ
without [] xs = xs
without (r ∷ reqs) xs = remove_req r (without reqs xs)

pub without-append : (xs ys zs : List ℕ) → without (xs ++ ys) zs ≡ without xs (without ys zs)
without-append [] ys zs = refl
without-append (x ∷ xs) ys zs = ap (remove_req x) (without-append xs ys zs)

pub pop-append : (r : ℕ) (reqs : List ℕ) → r ∷ reqs ≡ (pop r reqs).1 ++ ((pop r reqs).0 ∷ [])
pop-append r [] = refl
pop-append r (q ∷ reqs) = ap (◌∷◌ r) (pop-append q reqs)

pub length-pop : (r : ℕ) (reqs : List ℕ) → length (pop r reqs).1 ≡ length reqs
length-pop r [] = refl
length-pop r (q ∷ reqs) = ap suc (length-pop q reqs)

pub Elem-snoc : (a : ℕ) (xs : List ℕ) (x : ℕ) → Elem a (xs ++ (x ∷ [])) → Elem a xs ⊎ (a ≡ x)
Elem-snoc a [] x (inl e) = inr e
Elem-snoc a [] x (inr m) = absurd m
Elem-snoc a (y ∷ xs) x (inl e) = inl (inl e)
Elem-snoc a (y ∷ xs) x (inr m) = elim (Elem-snoc a xs x m) [ inl k ↦ inl (inr k) | inr k ↦ inr k ]

pub snoc-Elem : (a : ℕ) (xs : List ℕ) (x : ℕ) → Elem a xs ⊎ (a ≡ x) → Elem a (xs ++ (x ∷ []))
snoc-Elem a [] x (inl m) = absurd m
snoc-Elem a [] x (inr e) = inl e
snoc-Elem a (y ∷ xs) x (inl (inl e)) = inl e
snoc-Elem a (y ∷ xs) x (inl (inr m)) = inr (snoc-Elem a xs x (inl m))
snoc-Elem a (y ∷ xs) x (inr e) = inr (snoc-Elem a xs x (inr e))

-- What precedes the last of distinct requests is distinct, and is not the last.
pub Distinct-snoc :
    (xs : List ℕ) (x : ℕ) → Distinct (xs ++ (x ∷ [])) → Distinct xs × ((a : ℕ) → Elem a xs → x ≢ a)
Distinct-snoc [] x d = (tt, λ a m. absurd m)
Distinct-snoc (y ∷ xs) x d =
    let (rest, apart) = Distinct-snoc xs x d.1 in
    (
      (λ m. d.0 (snoc-Elem y xs x (inl m)), rest),
      λ a m. elim m [
        | inl e ↦ λ q. d.0 (snoc-Elem y xs x (inr (sym e ∙ sym q)))
        | inr k ↦ apart a k
      ],
    )

pub write_req_ne : (r : ℕ) (req : Req) (s : Store) (j : ℕ) → r ≢ j → write_req r req s j ≡ s j
write_req_ne r req s j h = ground (arith, h)

pub write_req_self : (r : ℕ) (req : Req) (s : Store) → write_req r req s r ≡ req
write_req_self r req s = ground arith

pub count_more :
    (n : ℕ) (removed : List ℕ) (req : ℕ)
    → n + 1 + length removed ≡ n + length (removed ++ (req ∷ []))
count_more n removed req = omega (arith, length-append removed (req ∷ []))
