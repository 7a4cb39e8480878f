-- ===== src/Guard/Waiting.antt =====
-- How long Wait waits, and what it ends with.
use soft_ue_index.Base.{
  ℕ, zero, suc, ◌+◌, ◌-◌, ◌*◌, ◌^◌, ◌≤◌, ◌<◌, ◌≡◌, refl, true, false, some, none, List, [], ◌∷◌,
  length, All, ltb, leb, if◌then◌else◌, arith, Option-cases, if_intro, inl, inr, is_some,
}
use soft_ue_index.Base.Int.{ℤ, pos, negsuc, or_default}
use soft_ue_index.Guard.{
  Options, Ending, clear, still_busy, interrupted, out_of_fuel, who_at, wrap, rank, next_delay,
  rounds, wait, default_max, default_total, default_initial,
}

pub sum : List ℕ → ℕ
sum [] = 0
sum (x ∷ xs) = x + sum xs

-- `n` looks from look `k` on found a build, each followed by a sleep that was not interrupted.
abbrev pub KeptBusy : Options → ℕ → ℕ → Type 0
KeptBusy o k zero = Unit
KeptBusy o k (suc n) = (is_some (who_at o k) ≡ true) × KeptBusy o (suc k) n

-- Why a wait ended, after `n` sleeps that took `waited` in all.
abbrev pub Because : Options → ℕ → ℕ → ℕ → Ending → Type 0
Because o total n waited clear = who_at o n ≡ none
Because o total n waited (still_busy who) = (who_at o n ≡ some who) × (total ≤ waited)
Because o total n waited interrupted = (1 ≤ n) × (o.interrupts (n - 1) ≡ true)
Because o total n waited out_of_fuel = true ≡ false

-- A wait from round `k`, when `waited` is over, that never sleeps longer than `longest` at once.
pub record Waits (o : Options) (total longest k waited : ℕ) (r : Ending × List ℕ) : Type 0 where
  pub because : Because o total (k + length r.1) (waited + sum r.1) r.0
  pub busy_before : KeptBusy o k (length r.1)
  pub each : All (λ d. d ≤ longest) r.1
  pub bounded : waited + sum r.1 ≤ total + longest

stays : (k : ℕ) → k + 0 ≡ k
stays k = omega arith

steps : (k : ℕ) → k + 1 - 1 ≡ k
steps k = omega arith

Waits-next :
    (o : Options) (total longest k waited delay : ℕ) (r : Ending × List ℕ)
    → is_some (who_at o k) ≡ true
    → delay ≤ longest
    → Waits o total longest (suc k) (waited + delay) r
    → Waits o total longest k waited (r.0, delay ∷ r.1)
unfolding sum
Waits-next o total longest k waited delay r seen le h =
    let places : k + suc (length r.1) ≡ suc k + length r.1 = omega arith in
    let times : waited + (delay + sum r.1) ≡ waited + delay + sum r.1 = omega arith in
    record {
      because = rw (places, times) h.because;
      busy_before = (seen, h.busy_before);
      each = (le, h.each);
      bounded = omega (arith, h.bounded);
    }

-- no duration of a wait comes near 2^63
abbrev pub max_duration : ℕ
max_duration = 2 ^ 61

wrap_small : (n : ℕ) → n < 2 ^ 63 → wrap n ≡ n
wrap_small n h = omega (arith, h)

rank_small : (n : ℕ) → n < 2 ^ 63 → rank n ≡ n + 2 ^ 63
rank_small n h = omega (arith, h)

next_delay_small :
    (max delay : ℕ)
    → max ≤ max_duration
    → delay ≤ max_duration
    → next_delay max delay ≡ (if ltb max (delay * 2) then max else delay * 2)
next_delay_small max delay a b =
    rw
      (
        wrap_small (delay * 2) (omega (arith, b)),
        rank_small max (omega (arith, a)),
        rank_small (delay * 2) (omega (arith, b)),
      )
      (ground arith)

next_delay_bounds :
    (max delay longest : ℕ)
    → max ≤ longest
    → delay ≤ longest
    → longest ≤ max_duration
    → 1 ≤ max
    → 1 ≤ delay
    → (1 ≤ next_delay max delay) × (next_delay max delay ≤ longest)
next_delay_bounds max delay longest a b c d e =
    rw (next_delay_small max delay (omega (arith, a, c)) (omega (arith, b, c))) (ground arith)

leb-rank : (a b : ℕ) → a < 2 ^ 63 → b < 2 ^ 63 → leb (rank a) (rank b) ≡ leb a b
leb-rank a b h k = rw (rank_small a h, rank_small b k) (ground arith)

rounds_lem :
    (o : Options) (max total longest fuel k delay waited : ℕ)
    → 1 ≤ delay
    → delay ≤ longest
    → max ≤ longest
    → 1 ≤ max
    → 1 ≤ fuel
    → total < waited + fuel
    → waited ≤ total + longest
    → longest ≤ max_duration
    → total ≤ max_duration
    → Waits o total longest k waited (rounds o max total fuel k delay waited)
unfolding rounds sum
rounds_lem o max total longest zero k delay waited p q m l some_fuel enough h b c =
    absurd (omega arith)
rounds_lem o max total longest (suc fuel) k delay waited p q m l some_fuel enough h big_delay
      big_total =
    let (some_delay, no_longer) = next_delay_bounds max delay longest m q big_delay l p in
    let rest : waited < total
        → Waits o total longest (suc k) (waited + delay)
            (rounds o max total fuel (suc k) (next_delay max delay) (wrap (waited + delay))) =
      λ b. rw (wrap_small (waited + delay) (omega arith)) (
        rounds_lem o max total longest fuel (suc k) (next_delay max delay) (waited + delay)
          some_delay no_longer m l (omega arith) (omega arith) (omega arith) big_delay big_total) in
    let order : leb (rank total) (rank waited) ≡ leb total waited =
      leb-rank total waited (omega arith) (omega arith) in
    elim (Option-cases (who_at o k)) [
      | inl e ↦
          rw (e, rounds)
            (record {
              because = rw (stays k) e;
              busy_before = tt;
              each = tt;
              bounded = omega arith;
            })
      | inr (who, e) ↦
          rw (e, rounds)
            (if_intro (Waits o total longest k waited) (leb (rank total) (rank waited)) _ _
              (λ b. record {
                because = (rw (stays k) e, ground (arith, order, b));
                busy_before = tt;
                each = tt;
                bounded = omega arith;
              })
              (λ b.
                if_intro (Waits o total longest k waited) (o.interrupts k) _ _
                  (λ c. record {
                    because = (omega arith, rw (steps k) c);
                    busy_before = (rw e refl, tt);
                    each = (q, tt);
                    bounded = ground (arith, order, b);
                  })
                  (λ c.
                    Waits-next o total longest k waited delay _ (rw e refl) q
                      (rest (ground (arith, order, b))))))
    ]

-- the longest delay, and the total, after the defaults
abbrev pub longest_of : Options → ℕ
longest_of o =
    if ltb (or_default o.initial default_initial) (or_default o.max default_max)
    then or_default o.max default_max
    else or_default o.initial default_initial

abbrev pub total_of : Options → ℕ
total_of o = or_default o.total default_total

default_positive : (x : ℤ) (d : ℕ) → 1 ≤ d → 1 ≤ or_default x d
default_positive (pos n) d h = ground arith
default_positive (negsuc n) d h = h

-- If no duration of the options is above 2^61 ns, some 73 years, then with more fuel than the total
-- Wait ends for a reason: it found no build, or one was still running after at least the total, or a
-- sleep was interrupted. It only slept after looks that found a build, and in all it never sleeps
-- longer than the total and one more delay.
pub wait_lem :
    (fuel : ℕ) (o : Options)
    → longest_of o ≤ max_duration
    → total_of o ≤ max_duration
    → total_of o < fuel
    → Waits o (total_of o) (longest_of o) 0 0 (wait fuel o)
unfolding wait
wait_lem fuel o a b h =
    rounds_lem o (or_default o.max default_max) (total_of o) (longest_of o) fuel 0
      (or_default o.initial default_initial) 0
      (default_positive o.initial default_initial (omega arith)) (ground arith) (ground arith)
      (default_positive o.max default_max (omega arith)) (omega arith) (omega arith) (omega arith) a
      b
