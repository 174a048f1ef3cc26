-- ===== src/Pool/Numbers.antt =====
-- The workers of a pool are always those with the indexes 0, 1, … without a gap.
use tasker.Base.{
  ℕ, zero, suc, ◌+◌, ◌-◌, ◌≤◌, ◌≡◌, refl, ap, ◌∙◌, String, List, ◌∷◌, ◌++◌, ℤ, length, take, arith,
  Bool-cases, inl, inr, ltb, true, false,
}
use tasker.Pool.{WorkerId, Pool, new_workers, clamp_target, rescale, scale}

length-new_workers : (node queue : String) (i n : ℕ) → length (new_workers node queue i n) ≡ n
unfolding new_workers
length-new_workers node queue i zero = refl
length-new_workers node queue i (suc n) = ap suc (length-new_workers node queue (suc i) n)

append-new_workers :
    (node queue : String) (i n m : ℕ)
    → new_workers node queue i n ++ new_workers node queue (i + n) m
      ≡ new_workers node queue i (n + m)
unfolding new_workers
append-new_workers node queue i zero m =
    let at_i : i + 0 ≡ i = omega arith in
    let none_ : 0 + m ≡ m = omega arith in rw (at_i, none_) refl
append-new_workers node queue i (suc n) m =
    let next : i + suc n ≡ suc i + n = omega arith in
    let more : suc n + m ≡ suc (n + m) = omega arith in
    rw (next, more)
      (ap (λ (ws : List WorkerId). record { node = node; queue = queue; index = i } ∷ ws)
        (append-new_workers node queue (suc i) n m))

take-new_workers :
    (node queue : String) (i k n : ℕ)
    → k ≤ n
    → take k (new_workers node queue i n) ≡ new_workers node queue i k
unfolding new_workers
take-new_workers node queue i zero n h = refl
take-new_workers node queue i (suc k) zero h = absurd (omega arith)
take-new_workers node queue i (suc k) (suc n) h =
    ap (λ (ws : List WorkerId). record { node = node; queue = queue; index = i } ∷ ws)
      (take-new_workers node queue (suc i) k n (omega arith))

-- A pool whose workers are numbered from 0.
abbrev pub Numbered : String → ℕ → Pool → Type 0
Numbered node n p = p.workers ≡ new_workers node p.queue 0 n

grown :
    (node queue : String) (n target : ℕ)
    → n ≤ target
    → new_workers node queue 0 n ++ new_workers node queue n (target - n)
      ≡ new_workers node queue 0 target
grown node queue n target h =
    let from : n ≡ 0 + n = omega arith in
    let sum : n + (target - n) ≡ target = omega arith in
    ap (λ (i : ℕ). new_workers node queue 0 n ++ new_workers node queue i (target - n)) from
    ∙ append-new_workers node queue 0 n (target - n)
    ∙ ap (new_workers node queue 0) sum

ltb-le : (a b : ℕ) → ltb a b ≡ true → a ≤ b
ltb-le a b h = ground arith

ltb-ge : (a b : ℕ) → ltb a b ≡ false → b ≤ a
ltb-ge a b h = ground arith

rescale-Numbered :
    (node : String) (n target : ℕ) (p : Pool)
    → Numbered node n p
    → Numbered node target (rescale node target p)
rescale-Numbered node n target p h =
    let size : length p.workers ≡ n = ap length h ∙ length-new_workers node p.queue 0 n in
    elim (Bool-cases (ltb (length p.workers) target)) [
      | inl grow ↦ rw grow (
          ap
            (λ (ws : List WorkerId).
              ws ++ new_workers node p.queue (length p.workers) (target - length p.workers))
            h
          ∙ rw size (
              grown node p.queue n target
                (omega (arith, size, ltb-le (length p.workers) target grow))))
      | inr keep ↦ elim (Bool-cases (ltb target (length p.workers))) [
        | inl shrink ↦
            rw (keep, shrink)
              (ap (take target) h
                ∙ take-new_workers node p.queue 0 target n
                    (omega (arith, size, ltb-le target (length p.workers) shrink)))
        | inr stay ↦
            let same : n ≡ target = omega (
              arith,
              size,
              ltb-ge (length p.workers) target keep,
              ltb-ge target (length p.workers) stay,
            ) in
            rw (keep, stay) (h ∙ ap (new_workers node p.queue 0) same)
      ]
    ]

-- Scale of a pool whose workers are numbered from 0 leaves exactly the workers with the indexes
-- below the target, or below 1 where the target is less.
pub scale_workers :
    (node : String) (n : ℕ) (target : ℤ) (p : Pool)
    → Numbered node n p
    → Numbered node (clamp_target target) (scale node target p)
unfolding scale
scale_workers node n target p h = rescale-Numbered node n (clamp_target target) p h
