-- ===== src/Keyboard/Timeouts/Earliest.antt =====
-- src/keyboard.c: calculate_main_loop_timeout returns the time until the first pending timeout.
use keyd_fork.Common.{
  ℕ, suc, ◌+◌, ◌≤◌, ◌<◌, ◌≡◌, refl, ◌≢◌, ◌⊎◌, inl, true, List, [], ◌∷◌, arith, ltb, ◌==◌,
  if◌then◌else◌, if_intro, elem,
}
use mathlib.Core.List.{Sublistᴰ}
use mathlib.Core.List.Sublistᴰ.{slnil, cons, cons-cons}
use keyd_fork.Keyboard.State.{Keyboard}
use keyd_fork.Keyboard.Timeouts.{earliest, pending, calculate_main_loop_timeout}

-- A value found so far stays a bound.
earliest-le_start :
    (time start : ℕ) (ts : List ℕ)
    → start ≢ 0
    → (earliest time start ts ≢ 0) × (earliest time start ts ≤ start)
unfolding earliest
earliest-le_start time start [] h = (h, omega arith)
earliest-le_start time start (t ∷ ts) h =
    ground (arith, earliest-le_start time start ts, earliest-le_start time t ts)

earliest-le :
    (time start : ℕ) (ts : List ℕ) (t : ℕ)
    → elem t ts ≡ true
    → time < t
    → (earliest time start ts ≢ 0) × (earliest time start ts ≤ t)
unfolding earliest
earliest-le time start [] t h k = cc
earliest-le time start (x ∷ ts) t h k = ground (
  arith,
  earliest-le time start ts t,
  earliest-le time x ts t,
  earliest-le_start time start ts,
  earliest-le_start time x ts,
)

earliest-elem :
    (time start : ℕ) (ts : List ℕ)
    → (earliest time start ts ≡ start)
      ⊎ ((elem (earliest time start ts) ts ≡ true) × (time < earliest time start ts))
unfolding earliest
earliest-elem time start [] = inl refl
earliest-elem time start (x ∷ ts) =
    ground (arith, earliest-elem time start ts, earliest-elem time x ts)

-- How often a timeout is scheduled.
abbrev pub count : ℕ → List ℕ → ℕ
count t [] = 0
count t (x ∷ xs) = if x == t then suc (count t xs) else count t xs

pending-ahead : (time : ℕ) (ts : List ℕ) (t : ℕ) → elem t (pending time ts) ≡ true → time < t
unfolding pending
pending-ahead time [] t h = cc
pending-ahead time (x ∷ ts) t h = ground (arith, pending-ahead time ts t)

count-pending : (time : ℕ) (ts : List ℕ) (t : ℕ) → time < t → count t (pending time ts) ≡ count t ts
unfolding pending
count-pending time [] t h = refl
count-pending time (x ∷ ts) t h = ground (arith, count-pending time ts t h)

pending-Sublist : (time : ℕ) (ts : List ℕ) → Sublistᴰ (pending time ts) ts
unfolding pending
pending-Sublist time [] = slnil
pending-Sublist time (x ∷ ts) =
    if_intro (λ l. Sublistᴰ l (x ∷ ts)) (ltb time x) (cons-cons refl (pending-Sublist time ts))
      (cons (pending-Sublist time ts))

-- A result and the timeouts after, against the timeouts before.
pub record IsNextTimeout (before : List ℕ) (time result : ℕ) (after : List ℕ) : Type 0 where
  pub soonest : (t : ℕ) → elem t before ≡ true → time < t → (0 < result) × (time + result ≤ t)
  pub scheduled : 0 < result → elem (time + result) before ≡ true
  pub ahead : (t : ℕ) → elem t after ≡ true → time < t
  pub all_kept : (t : ℕ) → time < t → count t after ≡ count t before
  pub in_order : Sublistᴰ after before

-- The result of calculate_main_loop_timeout is positive exactly where a timeout lies ahead; then the
-- first of them lies that far ahead. The timeouts after are a sublist of those before: each that lies
-- ahead is there as often as before, and no other is.
pub calculate_main_loop_timeout-IsNextTimeout :
    (kbd : Keyboard) (time : ℕ)
    → let r = calculate_main_loop_timeout kbd time in
      IsNextTimeout kbd.timeouts time r.0 r.1.timeouts
unfolding calculate_main_loop_timeout
calculate_main_loop_timeout-IsNextTimeout kbd time =
    let found = earliest-elem time 0 kbd.timeouts in
    record {
      soonest = λ t h k. ground (arith, earliest-le time 0 kbd.timeouts t h k, found);
      scheduled = λ h. ground (arith, found);
      ahead = pending-ahead time kbd.timeouts;
      all_kept = count-pending time kbd.timeouts;
      in_order = pending-Sublist time kbd.timeouts;
    }
