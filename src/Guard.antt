-- ===== src/Guard.antt =====
-- internal/ubtguard/ubtguard.go: the generation of a compilation database waits while an Unreal
-- build is running. The processes seen at each look, and whether a sleep is interrupted, are
-- arguments; a duration is a number of nanoseconds modulo 2^64, of which the upper half are the
-- negative ones.
pub mod Waiting
mod Tests
use soft_ue_index.Base.{
  ℕ, zero, suc, ◌+◌, ◌*◌, ◌%◌, ◌^◌, Bool, true, false, ◌&&◌, ◌||◌, Option, some, none, List, [],
  ◌∷◌, ltb, leb, if◌then◌else◌,
}
use soft_ue_index.Base.Text.{Bytes, str, eqb, contains, to_lower}
use soft_ue_index.Base.Int.{ℤ, or_default, eqz}

pub record Process : Type 0 where
  pub pid : ℤ
  pub name : Bytes
  pub cmdline : Bytes

-- the switch of Busy, on lower case
unfoldable pub is_build : Bytes → Bytes → Bool
is_build name cmd =
    eqb name (str "unrealbuildtool.exe")
    || (((eqb name (str "dotnet.exe")
            || (eqb name (str "cmd.exe")
                || (eqb name (str "powershell.exe") || eqb name (str "pwsh.exe"))))
          && (contains cmd (str "unrealbuildtool")
              || (contains cmd (str "runubt.bat")
                  || contains cmd (str "\\build\\batchfiles\\build.bat"))))
        || (eqb name (str "unrealeditor-cmd.exe") && contains cmd (str "-compile")))

-- Busy gives the process that its text names.
unfoldable pub busy : List Process → ℤ → Option Process
busy [] own = none
busy (p ∷ rest) own =
    let later = busy rest own in
    if eqz p.pid own
    then later
    else if is_build (to_lower p.name) (to_lower p.cmdline)
    then some p
    else later

-- What Wait is called with: at each round, the processes (none if they cannot be listed) and
-- whether the sleep is interrupted.
pub record Options : Type 0 where
  pub initial : ℤ
  pub max : ℤ
  pub total : ℤ
  pub own_pid : ℤ
  pub look : ℕ → Option (List Process)
  pub interrupts : ℕ → Bool

pub data Ending : Type 0 where
  clear : Ending
  still_busy : Process → Ending
  interrupted : Ending
  out_of_fuel : Ending

abbrev pub second : ℕ
second = 1000000000

abbrev pub default_initial : ℕ
default_initial = 15 * second

abbrev pub default_max : ℕ
default_max = 2 * 60 * second

abbrev pub default_total : ℕ
default_total = 30 * 60 * second

-- what a look at the processes finds; a failed look finds nothing
unfoldable pub who_at : Options → ℕ → Option Process
who_at o k = elim (o.look k) [ none ↦ none | some ps ↦ busy ps o.own_pid ]

-- the sum or the product of two durations, as int64 keeps it
abbrev pub wrap : ℕ → ℕ
wrap n = n % 2 ^ 64

-- a duration as a number from 0 on, in the order of int64
abbrev pub rank : ℕ → ℕ
rank n = wrap (n + 2 ^ 63)

abbrev pub next_delay : ℕ → ℕ → ℕ
next_delay max delay = if ltb (rank max) (rank (wrap (delay * 2))) then max else wrap (delay * 2)

-- The loop of Wait from its round `k`: how it ends, and the sleeps, in order.
unfoldable pub rounds : Options → ℕ → ℕ → ℕ → ℕ → ℕ → ℕ → Ending × List ℕ
rounds o max total zero k delay waited = (out_of_fuel, [])
rounds o max total (suc fuel) k delay waited =
    let (ending, slept) =
      rounds o max total fuel (suc k) (next_delay max delay) (wrap (waited + delay)) in
    elim (who_at o k) [
      | none ↦ (clear, [])
      | some who ↦
          (if leb (rank total) (rank waited)
            then (still_busy who, [])
            else if o.interrupts k
            then (interrupted, delay ∷ [])
            else (ending, delay ∷ slept))
    ]

-- Wait, on fuel
unfoldable pub wait : ℕ → Options → Ending × List ℕ
wait fuel o =
    rounds o (or_default o.max default_max) (or_default o.total default_total) fuel 0
      (or_default o.initial default_initial) 0
