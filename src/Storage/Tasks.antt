-- ===== src/Storage/Tasks.antt =====
-- `m_DownloadingMap` of benliud_bt/src/BTStorage.cpp: giving up a piece takes back what asking for it
-- has entered.
use benliud.Common.{
  ℕ, ◌+◌, ◌-◌, ◌≤◌, ◌<◌, ◌≡◌, refl, ap, arith, [], ◌∷◌, none, some, All, All-mono, ltb, ◌==◌,
  if◌then◌else◌, bit, Bool-cases, inl, inr, lt→ltb, ==_refl, if_cases,
}
use benliud.Storage.{DownloadingMap, count_of, add_task, drop_task}

-- Ascending pieces, each asked of one peer at least.
abbrev pub IsMap : DownloadingMap → Type 0
IsMap [] = Unit
IsMap (p ∷ m) = (1 ≤ p.1) × All (λ q. p.0 < q.0) m × IsMap m

-- The number of peers a piece is asked of.
unfoldable pub asked : ℕ → DownloadingMap → ℕ
asked p m = elim (count_of p m) [ none ↦ 0 | some c ↦ c ]

add_task-All :
    (P : ℕ → Type 0) (p : ℕ) (m : DownloadingMap)
    → P p
    → All (λ q. P q.0) m
    → All (λ q. P q.0) (add_task p m)
unfolding add_task
add_task-All P p [] h k = (h, tt)
add_task-All P p ((k, c) ∷ m) h a = elim (Bool-cases (p == k)) [
  | inl e ↦ rw e a
  | inr e ↦ rw e (elim (Bool-cases (ltb p k)) [
    | inl l ↦ rw l (h, a)
    | inr l ↦ rw l (a.0, add_task-All P p m h a.1)
  ])
]

pub add_task-IsMap : (p : ℕ) (m : DownloadingMap) → IsMap m → IsMap (add_task p m)
unfolding add_task
add_task-IsMap p [] h = (omega arith, tt, tt)
add_task-IsMap p ((k, c) ∷ m) h = elim (Bool-cases (p == k)) [
  | inl e ↦ rw e (omega (arith, h.0), h.1, h.2)
  | inr e ↦ rw e (elim (Bool-cases (ltb p k)) [
    | inl l ↦
        rw l (omega arith, (ground arith, All-mono _ _ m (λ q x. ground (arith, l, x)) h.1), h)
    | inr l ↦
        rw l (h.0, add_task-All (λ q. k < q) p m (ground (arith, e, l)) h.1, add_task-IsMap p m h.2)
  ])
]

count_of-later :
    (p : ℕ) (m : DownloadingMap) (k : ℕ) → All (λ q. k < q.0) m → p ≤ k → count_of p m ≡ none
unfolding count_of
count_of-later p [] k h le = refl
count_of-later p ((j, c) ∷ m) k h le = ground (arith, h.0, count_of-later p m k h.1 le)

count_of-add_task :
    (p q : ℕ) (m : DownloadingMap)
    → IsMap m
    → count_of q (add_task p m) ≡ (if q == p then some (asked p m + 1) else count_of q m)
unfolding count_of add_task asked
count_of-add_task p q [] h = ground arith
count_of-add_task p q ((k, c) ∷ m) h =
    ground (arith, count_of-add_task p q m h.2, count_of-later p m k h.1)

drop_task-add_task : (p : ℕ) (m : DownloadingMap) → IsMap m → drop_task p (add_task p m) ≡ m
unfolding drop_task add_task
drop_task-add_task p [] h = ground arith
drop_task-add_task p ((k, c) ∷ m) h = elim (Bool-cases (p == k)) [
  | inl e ↦ rw e (
      rw e (
        rw (lt→ltb 1 (c + 1) (omega (arith, h.0)))
          (ap (λ n. (k, n) ∷ m) {x = c + 1 - 1} {y = c} (omega arith))))
  | inr e ↦ rw e (elim (Bool-cases (ltb p k)) [
    | inl l ↦ rw l (rw (==_refl p) refl)
    | inr l ↦ rw l (rw e (ap (◌∷◌ (k, c)) (drop_task-add_task p m h.2)))
  ])
]

-- Asking for a piece counts it once more and leaves the counts of the others; giving it up again
-- leads back to the same map. The map is ascending, without counts of 0.
add_task_lem :
    (p q : ℕ) (m : DownloadingMap)
    → IsMap m
    → (count_of q (add_task p m) ≡ (if q == p then some (asked p m + 1) else count_of q m))
      × (drop_task p (add_task p m) ≡ m)
add_task_lem p q m h = (count_of-add_task p q m h, drop_task-add_task p m h)

pub asked-add_task :
    (p q : ℕ) (m : DownloadingMap) → IsMap m → asked q (add_task p m) ≡ asked q m + bit (q == p)
unfolding asked add_task count_of
asked-add_task p q [] h = ground arith
asked-add_task p q ((k, c) ∷ m) h =
    ground (arith, asked-add_task p q m h.2, count_of-later p m k h.1)

drop_task-All :
    (P : ℕ → Type 0) (p : ℕ) (m : DownloadingMap)
    → All (λ q. P q.0) m
    → All (λ q. P q.0) (drop_task p m)
unfolding drop_task
drop_task-All P p [] a = tt
drop_task-All P p ((k, c) ∷ m) a = elim (Bool-cases (p == k)) [
  | inl e ↦ rw e (if_cases (All (λ q. P q.0)) (ltb 1 c) _ _ (λ _. a) (λ _. a.1))
  | inr e ↦ rw e (a.0, drop_task-All P p m a.1)
]

pub drop_task-IsMap : (p : ℕ) (m : DownloadingMap) → IsMap m → IsMap (drop_task p m)
unfolding drop_task
drop_task-IsMap p [] h = tt
drop_task-IsMap p ((k, c) ∷ m) h = elim (Bool-cases (p == k)) [
  | inl e ↦ rw e (if_cases IsMap (ltb 1 c) _ _ (λ l. (ground (arith, l), h.1, h.2)) (λ _. h.2))
  | inr e ↦ rw e (h.0, drop_task-All (λ q. k < q) p m h.1, drop_task-IsMap p m h.2)
]

pub asked-drop_task :
    (p q : ℕ) (m : DownloadingMap) → IsMap m → asked q (drop_task p m) ≡ asked q m - bit (q == p)
unfolding asked drop_task count_of
asked-drop_task p q [] h = ground arith
asked-drop_task p q ((k, c) ∷ m) h =
    ground (arith, h.0, asked-drop_task p q m h.2, count_of-later k m k h.1)
