-- ===== src/Backoff/Diophantine/Sorted.antt =====
-- Sorting the instants keeps how many there are of each kind, and puts them in order.
use patience.Base.{
  ◌≡◌, refl, ℤ, ◌≤ℤ◌, ltb_ℤ, ltb_ℤ→lt, ltb_ℤ→ge, Bool, List, [], ◌∷◌, All, count, inl, inr,
  Bool-cases, arith,
}
use patience.Backoff.Diophantine.{insert_time, sort_times}

abbrev pub IsSortedTimes : List ℤ → Type 0
IsSortedTimes [] = Unit
IsSortedTimes (t ∷ ts) = All (λ u. t ≤ℤ u) ts × IsSortedTimes ts

count-insert_time :
    (p : ℤ → Bool) (t : ℤ) (us : List ℤ) → count p (insert_time t us) ≡ count p (t ∷ us)
unfolding count insert_time
count-insert_time p t [] = refl
count-insert_time p t (u ∷ us) = ground (arith, count-insert_time p t us)

pub count-sort_times : (p : ℤ → Bool) (ts : List ℤ) → count p (sort_times ts) ≡ count p ts
unfolding count sort_times
count-sort_times p [] = refl
count-sort_times p (t ∷ ts) =
    omega (arith, count-insert_time p t (sort_times ts), count-sort_times p ts)

All-insert_time : (P : ℤ → Type 0) (t : ℤ) (us : List ℤ) → P t → All P us → All P (insert_time t us)
unfolding insert_time
All-insert_time P t [] h k = (h, k)
All-insert_time P t (u ∷ us) h k = elim (Bool-cases (ltb_ℤ u t)) [
  | inl e ↦ rw e (k.0, All-insert_time P t us h k.1)
  | inr e ↦ rw e (h, k)
]

All-weaken : (t u : ℤ) (vs : List ℤ) → t ≤ℤ u → All (λ v. u ≤ℤ v) vs → All (λ v. t ≤ℤ v) vs
All-weaken t u [] h k = k
All-weaken t u (v ∷ vs) h k = (omega arith, All-weaken t u vs h k.1)

insert_time-IsSortedTimes :
    (t : ℤ) (us : List ℤ) → IsSortedTimes us → IsSortedTimes (insert_time t us)
unfolding insert_time
insert_time-IsSortedTimes t [] h = (tt, tt)
insert_time-IsSortedTimes t (u ∷ us) h = elim (Bool-cases (ltb_ℤ u t)) [
  | inl e ↦ rw e (
    All-insert_time (λ v. u ≤ℤ v) t us (omega (arith, ltb_ℤ→lt u t e)) h.0,
    insert_time-IsSortedTimes t us h.1,
  )
  | inr e ↦ let le = ltb_ℤ→ge u t e in rw e ((le, All-weaken t u us le h.0), h)
]

pub sort_times-IsSortedTimes : (ts : List ℤ) → IsSortedTimes (sort_times ts)
unfolding sort_times
sort_times-IsSortedTimes [] = tt
sort_times-IsSortedTimes (t ∷ ts) =
    insert_time-IsSortedTimes t (sort_times ts) (sort_times-IsSortedTimes ts)
