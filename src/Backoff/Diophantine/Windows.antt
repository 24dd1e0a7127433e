-- ===== src/Backoff/Diophantine/Windows.antt =====
-- `CanScheduleRequest` looks at the windows that start at a request, and so decides all windows.
use patience.Base.{
  ◌≤◌, ◌≡◌, refl, ℤ, pos, ◌+ℤ◌, ◌≤ℤ◌, +ℤ_parts, ltb_ℤ, leb_ℤ, Bool, true, false, ◌&&◌, List, [],
  ◌∷◌, ◌++◌, All, All-map, All-true, count, count-le, count-none, inl, inr, ◌↔◌, Bool-cases, arith,
}
use patience.Backoff.Diophantine.{
  Diophantine, can_schedule_request, planned, sort_times, windows_fit, count_window,
}
use patience.Backoff.Diophantine.Sorted.{IsSortedTimes, count-sort_times, sort_times-IsSortedTimes}

-- The half-open window of the given length that starts at an instant.
abbrev pub in_window : ℤ → ℤ → ℤ → Bool
in_window start window t = leb_ℤ start t && ltb_ℤ t (start +ℤ window)

ge_before : (e t u : ℤ) → ltb_ℤ t e ≡ false → t ≤ℤ u → ltb_ℤ u e ≡ false
ge_before e t u h k = ground arith

-- On a sorted slice, stopping at the first instant outside loses none.
count_window-count :
    (e : ℤ) (ts : List ℤ) → IsSortedTimes ts → count_window e ts ≡ count (λ t. ltb_ℤ t e) ts
unfolding count_window count
count_window-count e [] h = refl
count_window-count e (t ∷ ts) h = elim (Bool-cases (ltb_ℤ t e)) [
  | inl before ↦ ground (arith, count_window-count e ts h.1)
  | inr after ↦
      let none_left =
        count-none (λ u. ltb_ℤ u e) ts (All-map (λ u. ge_before e t u after) ts h.0) in
      ground (arith, none_left)
]

-- What is left of a window that starts no later than `t` lies in the window that starts at `t`.
in_window_shift :
    (start window t u : ℤ)
    → start ≤ℤ t
    → in_window start window u ≡ true
    → ltb_ℤ u (t +ℤ window) ≡ true
in_window_shift start window t u h k = ground (arith, +ℤ_parts start window, +ℤ_parts t window)

in_window_later : (start window t : ℤ) → leb_ℤ start t ≡ false → in_window start window t ≡ false
in_window_later start window t h = ground arith

leb_ℤ→le : (a b : ℤ) → leb_ℤ a b ≡ true → a ≤ℤ b
leb_ℤ→le a b h = ground arith

count-skip : (p : ℤ → Bool) (t : ℤ) (ts : List ℤ) → p t ≡ false → count p (t ∷ ts) ≡ count p ts
unfolding count
count-skip p t ts h = ground arith

count-le-cons : (p : ℤ → Bool) (t : ℤ) (ts : List ℤ) → count p ts ≤ count p (t ∷ ts)
unfolding count
count-le-cons p t ts = ground arith

windows_fit-cons :
    (limit window t : ℤ) (ts : List ℤ)
    → (windows_fit limit window (t ∷ ts) ≡ true) ↔ (
        (pos (count_window (t +ℤ window) (t ∷ ts)) ≤ℤ limit) × (windows_fit limit window ts ≡ true))
unfolding windows_fit
windows_fit-cons limit window t ts = (λ h. ground arith, λ h. ground arith)

windows_fit→every :
    (limit window start : ℤ) (ts : List ℤ)
    → pos 0 ≤ℤ limit
    → IsSortedTimes ts
    → windows_fit limit window ts ≡ true
    → pos (count (in_window start window) ts) ≤ℤ limit
windows_fit→every limit window start [] z s h = unfold count in omega arith
windows_fit→every limit window start (t ∷ ts) z s h =
    let (here, later) = (windows_fit-cons limit window t ts).0 h in
    elim (Bool-cases (leb_ℤ start t)) [
      | inl early ↦
          let lies =
            count-le (in_window start window) (λ u. ltb_ℤ u (t +ℤ window)) (t ∷ ts)
              (All-true (λ u. in_window_shift start window t u (leb_ℤ→le start t early))
                (t ∷ ts)) in
          omega (arith, lies, count_window-count (t +ℤ window) (t ∷ ts) s, here)
      | inr late ↦ omega (
        arith,
        count-skip (in_window start window) t ts (in_window_later start window t late),
        windows_fit→every limit window start ts z s.1 later,
      )
    ]

-- On a sorted slice all that comes from `t` on and before the end lies in the window of `t`.
window_of_head :
    (window t : ℤ) (ts : List ℤ)
    → All (λ u. t ≤ℤ u) ts
    → count (λ u. ltb_ℤ u (t +ℤ window)) (t ∷ ts) ≤ count (in_window t window) (t ∷ ts)
window_of_head window t ts s =
    count-le (λ u. ltb_ℤ u (t +ℤ window)) (in_window t window) (t ∷ ts)
      (λ h. ground arith, All-map (λ u le h. ground arith) ts s)

every→windows_fit :
    (limit window : ℤ) (ts : List ℤ)
    → IsSortedTimes ts
    → ((start : ℤ) → pos (count (in_window start window) ts) ≤ℤ limit)
    → windows_fit limit window ts ≡ true
every→windows_fit limit window [] s h = unfold windows_fit in refl
every→windows_fit limit window (t ∷ ts) s h = (windows_fit-cons limit window t ts).1 (
  omega (arith, h t, window_of_head window t ts s.0, count_window-count (t +ℤ window) (t ∷ ts) s),
  every→windows_fit limit window ts s.1
      (λ start. omega (arith, h start, count-le-cons (in_window start window) t ts)),
)

-- A request is admitted exactly when no window of the given length, wherever it starts, holds
-- more than the limit among the known requests and the planned ones. The limit is not negative.
pub can_schedule_request_iff :
    (d : Diophantine) (existing : List ℤ) (request_time : ℤ)
    → pos 0 ≤ℤ d.rate_limit
    → (can_schedule_request d existing request_time ≡ true) ↔ (
        (start : ℤ)
        → pos (count (in_window start d.window) (existing ++ planned d request_time))
          ≤ℤ d.rate_limit)
unfolding can_schedule_request
can_schedule_request_iff d existing request_time z =
    let all = existing ++ planned d request_time in
    let sorted = sort_times-IsSortedTimes all in
    (
      λ h start. omega (
        arith,
        windows_fit→every d.rate_limit d.window start (sort_times all) z sorted h,
        count-sort_times (in_window start d.window) all,
      ),
      λ h.
          every→windows_fit d.rate_limit d.window (sort_times all) sorted
            (λ start. omega (arith, h start, count-sort_times (in_window start d.window) all)),
    )
