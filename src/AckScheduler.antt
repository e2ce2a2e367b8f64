-- ===== src/AckScheduler.antt =====
-- src/ack_scheduler.hpp. Each function is one critical section under the state's mutex; the time is
-- an argument, `clock::now()` as a number of ticks. The worker thread is `round`, again and again.
pub mod Order
pub mod Invariant
use sioxx.Prelude.{
  ℕ, Bool, true, false, Option, none, some, List, [], ◌∷◌, if◌then◌else◌, leb, ltb, ◌==◌, ◌&&◌,
  ◌||◌, not,
}
use sioxx.Prelude.Map
use sioxx.Prelude.Map.{Map, nat_key}

-- `state`: deadlines by id, and the set of (deadline, id) in ascending order.
pub record AckScheduler : Type 0 where
  pub deadlines : Map ℕ ℕ
  pub ordered : List (ℕ × ℕ)
  pub stopped : Bool

abbrev pub empty : AckScheduler
empty = record { deadlines = []; ordered = []; stopped = false }

abbrev pub same : ℕ → ℕ → ℕ → ℕ → Bool
same d i e j = d == e && i == j

-- The order of `std::pair`.
abbrev pub before : ℕ → ℕ → ℕ → ℕ → Bool
before d i e j = ltb d e || (d == e && ltb i j)

-- `ordered.emplace(deadline, id)`
pub insert_ordered : ℕ → ℕ → List (ℕ × ℕ) → List (ℕ × ℕ)
insert_ordered d i [] = (d, i) ∷ []
insert_ordered d i ((e, j) ∷ xs) =
    if before d i e j
    then (d, i) ∷ (e, j) ∷ xs
    else if same d i e j
    then (e, j) ∷ xs
    else (e, j) ∷ insert_ordered d i xs

-- `ordered.erase({deadline, id})`
pub erase_ordered : ℕ → ℕ → List (ℕ × ℕ) → List (ℕ × ℕ)
erase_ordered d i [] = []
erase_ordered d i ((e, j) ∷ xs) = if same d i e j then xs else (e, j) ∷ erase_ordered d i xs

-- `emplace` leaves a deadline that is there.
emplace : ℕ → ℕ → Map ℕ ℕ → Map ℕ ℕ
emplace id d m = elim (Map.lookup id m) [ none ↦ Map.insert id d m | some _ ↦ m ]

unfoldable pub add : ℕ → ℕ → AckScheduler → AckScheduler
unfolding emplace insert_ordered
add id d s = record s {
  deadlines = emplace id d s.deadlines;
  ordered = insert_ordered d id s.ordered;
}

abbrev past : ℕ → Option ℕ → Bool
past now none = true
past now (some d) = leb d now

unfoldable pub expired : ℕ → ℕ → AckScheduler → Bool
expired id now s = past now (Map.lookup id s.deadlines)

-- Whether the deadline has passed, or was claimed by the worker before; the deadline is taken away.
unfoldable pub remove : ℕ → ℕ → AckScheduler → AckScheduler × Bool
unfolding erase_ordered
remove id now s = elim (Map.lookup id s.deadlines) [
  | none ↦ (s, true)
  | some d ↦ (
    record s { deadlines = Map.erase id s.deadlines; ordered = erase_ordered d id s.ordered },
    leb d now,
  )
]

unfoldable pub clear : AckScheduler → AckScheduler
clear s = record s { deadlines = []; ordered = [] }

-- The destructor.
unfoldable pub stop : AckScheduler → AckScheduler
stop s = record s { stopped = true }

-- One pass of the worker's loop: it ends, waits for a notification or until a time, or takes an id
-- off and calls `expire` with it, outside the lock.
pub data Round : Type 0 where
  ended : Round
  waits : Round
  faults : Round
  waits_until : ℕ → Round
  claims : ℕ → AckScheduler → Round

-- `deadlines.empty()`
abbrev pub is_empty : Map ℕ ℕ → Bool
is_empty [] = true
is_empty (_ ∷ _) = false

-- What follows where there are deadlines; `faults` is the first element of an empty set.
first : ℕ → AckScheduler → List (ℕ × ℕ) → Round
first now s [] = faults
first now s ((d, id) ∷ rest) =
    if ltb now d
    then waits_until d
    else claims id (record s { ordered = rest; deadlines = Map.erase id s.deadlines })

unfoldable pub round : ℕ → AckScheduler → Round
unfolding first
round now s =
    if s.stopped then ended else if is_empty s.deadlines then waits else first now s s.ordered
