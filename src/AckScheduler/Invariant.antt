-- ===== src/AckScheduler/Invariant.antt =====
-- src/ack_scheduler.hpp: the invariant between the map and the ordered set, and the worker's claims.
use mathlib.Core.Bool.{false≢true}
use sioxx.Prelude.{
  ap, ◌∙◌, ==_refl, ℕ, ◌≤◌, ◌<◌, ◌≡◌, refl, inl, inr, Bool, true, false, Option, none, some, List,
  [], ◌∷◌, arith, if◌then◌else◌, ltb, ◌==◌, Bool-cases, Option-cases,
}
use sioxx.Prelude.Map
use sioxx.Prelude.Map.{Map, nat_key, lookup-insert, lookup-erase}
use sioxx.AckScheduler.{
  AckScheduler, empty, emplace, add, remove, clear, stop, Round, ended, waits, faults, is_empty,
  waits_until, claims, first, round,
}
use sioxx.AckScheduler.Order.{
  member, After, IsSorted, member-insert_ordered, IsSorted-insert_ordered, member_of_After,
  member-erase_ordered, IsSorted-erase_ordered, le_of_After,
}

abbrev pub is_at : ℕ → Option ℕ → Bool
is_at d none = false
is_at d (some e) = d == e

pub record IsValid (s : AckScheduler) : Type 0 where
  pub tracked : (d i : ℕ) → member d i s.ordered ≡ is_at d (Map.lookup i s.deadlines)
  pub sorted : IsSorted s.ordered

pub empty-IsValid : IsValid empty
unfolding Map.lookup
empty-IsValid = record { tracked = λ d i. refl; sorted = tt }

-- A fresh id is added.
add-IsValid :
    (i d : ℕ) (s : AckScheduler) → Map.lookup i s.deadlines ≡ none → IsValid s → IsValid (add i d s)
unfolding add
add-IsValid i d s fresh v = record {
  tracked = λ e j.
      rw
        (
          fresh,
          emplace,
          member-insert_ordered d i e j s.ordered,
          lookup-insert i j d s.deadlines,
          v.tracked e j,
        )
        (ground (arith, fresh));
  sorted = IsSorted-insert_ordered d i s.ordered v.sorted;
}

remove-IsValid : (i now : ℕ) (s : AckScheduler) → IsValid s → IsValid (remove i now s).0
unfolding remove
remove-IsValid i now s v = elim (Option-cases (Map.lookup i s.deadlines)) [
  | inl e ↦ rw (e, remove) v
  | inr (d, e) ↦
      rw (e, remove)
        (record {
          tracked = λ f j.
              rw
                (
                  member-erase_ordered d i f j s.ordered v.sorted,
                  lookup-erase i j s.deadlines,
                  v.tracked f j,
                )
                (ground (arith, e));
          sorted = IsSorted-erase_ordered d i s.ordered v.sorted;
        })
]

clear-IsValid : (s : AckScheduler) → IsValid (clear s)
unfolding clear Map.lookup
clear-IsValid s = record { tracked = λ d i. refl; sorted = tt }

-- What one pass of the worker does at the time `now`: it ends when stopped, waits when there is no
-- deadline or none has passed, and otherwise claims an id whose deadline has passed, none being
-- earlier, takes just that one away, and keeps the invariant.
abbrev pub RoundIs : ℕ → AckScheduler → Round → Type 0
RoundIs now s ended = s.stopped ≡ true
RoundIs now s faults = ⊥
RoundIs now s waits = (i : ℕ) → Map.lookup i s.deadlines ≡ none
RoundIs now s (waits_until d) = (now < d) × ((i e : ℕ) → Map.lookup i s.deadlines ≡ some e → d ≤ e)
RoundIs now s (claims i t) =
    ((d : ℕ) × (Map.lookup i s.deadlines ≡ some d)
      × (d ≤ now)
      × ((j e : ℕ) → Map.lookup j s.deadlines ≡ some e → d ≤ e))
    × ((j : ℕ) → Map.lookup j t.deadlines ≡ (if i == j then none else Map.lookup j s.deadlines))
    × IsValid t

held :
    (d i : ℕ) (s : AckScheduler)
    → IsValid s
    → Map.lookup i s.deadlines ≡ some d
    → member d i s.ordered ≡ true
held d i s v e = rw (v.tracked d i, e) (ground arith)

found :
    (d i : ℕ) (s : AckScheduler)
    → IsValid s
    → member d i s.ordered ≡ true
    → Map.lookup i s.deadlines ≡ some d
found d i s v m = elim (Option-cases (Map.lookup i s.deadlines)) [
  | inl e ↦ ground (arith, v.tracked d i)
  | inr (f, e) ↦ ground (arith, v.tracked d i)
]

least :
    (s : AckScheduler) (d i : ℕ) (rest : List (ℕ × ℕ))
    → IsValid s
    → s.ordered ≡ (d, i) ∷ rest
    → (j e : ℕ) → Map.lookup j s.deadlines ≡ some e
    → d ≤ e
least s d i rest v o j e h =
    let m : member e j ((d, i) ∷ rest) ≡ true = rw o at (held e j s v h) in
    let a : After d i rest × IsSorted rest = rw o at v.sorted in
    ground (arith, le_of_After d i e j rest a.0)

claimed-IsValid :
    (s : AckScheduler) (d i : ℕ) (rest : List (ℕ × ℕ))
    → IsValid s
    → s.ordered ≡ (d, i) ∷ rest
    → IsValid (record s { ordered = rest; deadlines = Map.erase i s.deadlines })
claimed-IsValid s d i rest v o =
    let a : After d i rest × IsSorted rest = rw o at v.sorted in
    let here : Map.lookup i s.deadlines ≡ some d = found d i s v (rw o (ground arith)) in
    record {
      tracked = λ e j.
          let t : member e j ((d, i) ∷ rest) ≡ is_at e (Map.lookup j s.deadlines) =
            rw o at (v.tracked e j) in
          rw (lookup-erase i j s.deadlines) (ground (arith, member_of_After d i rest a.0));
      sorted = a.1;
    }

first-RoundIs :
    (now : ℕ) (s : AckScheduler) (xs : List (ℕ × ℕ))
    → IsValid s
    → s.ordered ≡ xs
    → (k e : ℕ) × (Map.lookup k s.deadlines ≡ some e)
    → RoundIs now s (first now s xs)
unfolding first
first-RoundIs now s [] v o (i, d, e) =
    let m : member d i [] ≡ true = rw o at (held d i s v e) in absurd (false≢true m)
first-RoundIs now s ((d, i) ∷ rest) v o some_deadline = elim (Bool-cases (ltb now d)) [
  | inl h ↦ rw h (ground arith, least s d i rest v o)
  | inr h ↦ rw h (
    (d, found d i s v (rw o (ground arith)), ground arith, least s d i rest v o),
    (λ j. lookup-erase i j s.deadlines),
    claimed-IsValid s d i rest v o,
  )
]

live-RoundIs :
    (now : ℕ) (s : AckScheduler) (m : Map ℕ ℕ)
    → IsValid s
    → s.deadlines ≡ m
    → RoundIs now s (if is_empty m then waits else first now s s.ordered)
unfolding Map.lookup
live-RoundIs now s [] v e = λ i. ap (Map.lookup i) e
live-RoundIs now s ((k, d) ∷ m) v e =
    first-RoundIs now s s.ordered v refl (k, d, ap (Map.lookup k) e ∙ rw (==_refl k) refl)

-- In every state with the invariant, one pass of the worker at the time `now` ends only where the
-- scheduler is stopped, waits for a call only where there is no deadline, waits until a time only
-- where that time is later than `now` and no deadline is earlier, and else claims an id whose
-- deadline has passed, no deadline being earlier, takes just that id away, and keeps the invariant.
pub round-RoundIs : (now : ℕ) (s : AckScheduler) → IsValid s → RoundIs now s (round now s)
unfolding round
round-RoundIs now s v = elim (Bool-cases s.stopped) [
  | inl h ↦ simp h
  | inr h ↦ simp h (live-RoundIs now s s.deadlines v refl)
]

-- The calls of the socket.
pub data Call : Type 0 where
  adds : ℕ → ℕ → Call
  removes : ℕ → ℕ → Call
  clears stops : Call

unfoldable pub call : AckScheduler → Call → AckScheduler
call s (adds i d) = add i d s
call s (removes i now) = (remove i now s).0
call s clears = clear s
call s stops = stop s

-- `add` is called with ids that have no deadline yet.
abbrev pub IsFresh : AckScheduler → Call → Type 0
IsFresh s (adds i d) = Map.lookup i s.deadlines ≡ none
IsFresh s _ = Unit {0}

-- Every call, an id being added only where it has no deadline yet, keeps the invariant: the map and
-- the ordered set hold the same deadlines, and the set is in order.
pub call-IsValid : (s : AckScheduler) (c : Call) → IsFresh s c → IsValid s → IsValid (call s c)
unfolding call stop
call-IsValid s (adds i d) f v = add-IsValid i d s f v
call-IsValid s (removes i now) f v = remove-IsValid i now s v
call-IsValid s clears f v = clear-IsValid s
call-IsValid s stops f v = record { tracked = v.tracked; sorted = v.sorted }
