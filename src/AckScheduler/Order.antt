-- ===== src/AckScheduler/Order.antt =====
-- The ordered set of deadlines: membership and order under insertion and removal.
use sioxx.Prelude.{
  ℕ, ◌≤◌, ◌≡◌, refl, inl, inr, Bool, true, false, List, [], ◌∷◌, arith, if◌then◌else◌, All,
  Bool-cases,
}
use sioxx.AckScheduler.{same, before, insert_ordered, erase_ordered}

abbrev pub member : ℕ → ℕ → List (ℕ × ℕ) → Bool
member d i [] = false
member d i ((e, j) ∷ xs) = if same d i e j then true else member d i xs

abbrev pub After : ℕ → ℕ → List (ℕ × ℕ) → Type 0
After d i = All (λ x. before d i x.0 x.1 ≡ true)

-- Strictly ascending.
abbrev pub IsSorted : List (ℕ × ℕ) → Type 0
IsSorted [] = Unit {0}
IsSorted ((d, i) ∷ xs) = After d i xs × IsSorted xs

pub member-insert_ordered :
    (d i e j : ℕ) (xs : List (ℕ × ℕ))
    → member e j (insert_ordered d i xs) ≡ (if same d i e j then true else member e j xs)
unfolding insert_ordered
member-insert_ordered d i e j [] = ground arith
member-insert_ordered d i e j ((f, k) ∷ xs) = ground (arith, member-insert_ordered d i e j xs)

After-trans :
    (d i e j : ℕ) (xs : List (ℕ × ℕ)) → before d i e j ≡ true → After e j xs → After d i xs
After-trans d i e j [] h a = tt
After-trans d i e j ((f, k) ∷ xs) h (b, a) = (ground arith, After-trans d i e j xs h a)

After-insert_ordered :
    (d i e j : ℕ) (xs : List (ℕ × ℕ))
    → before e j d i ≡ true
    → After e j xs
    → After e j (insert_ordered d i xs)
unfolding insert_ordered
After-insert_ordered d i e j [] h a = (h, tt)
After-insert_ordered d i e j ((f, k) ∷ xs) h (b, a) =
    ground (arith, After-insert_ordered d i e j xs h a)

pub IsSorted-insert_ordered :
    (d i : ℕ) (xs : List (ℕ × ℕ)) → IsSorted xs → IsSorted (insert_ordered d i xs)
unfolding insert_ordered
IsSorted-insert_ordered d i [] s = (tt, tt)
IsSorted-insert_ordered d i ((e, j) ∷ xs) (a, s) = elim (Bool-cases (before d i e j)) [
  | inl h ↦ rw h ((h, After-trans d i e j xs h a), (a, s))
  | inr h ↦ elim (Bool-cases (same d i e j)) [
    | inl k ↦ rw (h, k) (a, s)
    | inr k ↦
        rw (h, k)
          (After-insert_ordered d i e j xs (ground arith) a, IsSorted-insert_ordered d i xs s)
  ]
]

-- What comes after an entry does not hold it.
pub member_of_After : (d i : ℕ) (xs : List (ℕ × ℕ)) → After d i xs → member d i xs ≡ false
member_of_After d i [] a = refl
member_of_After d i ((e, j) ∷ xs) (b, a) = ground (arith, member_of_After d i xs a)

pub member-erase_ordered :
    (d i e j : ℕ) (xs : List (ℕ × ℕ))
    → IsSorted xs
    → member e j (erase_ordered d i xs) ≡ (if same d i e j then false else member e j xs)
unfolding erase_ordered
member-erase_ordered d i e j [] s = ground arith
member-erase_ordered d i e j ((f, k) ∷ xs) (a, s) =
    ground (arith, member-erase_ordered d i e j xs s, member_of_After f k xs a)

After-erase_ordered :
    (d i e j : ℕ) (xs : List (ℕ × ℕ)) → After e j xs → After e j (erase_ordered d i xs)
unfolding erase_ordered
After-erase_ordered d i e j [] a = tt
After-erase_ordered d i e j ((f, k) ∷ xs) (b, a) = ground (arith, After-erase_ordered d i e j xs a)

pub IsSorted-erase_ordered :
    (d i : ℕ) (xs : List (ℕ × ℕ)) → IsSorted xs → IsSorted (erase_ordered d i xs)
unfolding erase_ordered
IsSorted-erase_ordered d i [] s = tt
IsSorted-erase_ordered d i ((f, k) ∷ xs) (a, s) =
    ground (arith, IsSorted-erase_ordered d i xs s, After-erase_ordered d i f k xs a)

-- The head is the least.
pub le_of_After : (d i e j : ℕ) (xs : List (ℕ × ℕ)) → After d i xs → member e j xs ≡ true → d ≤ e
le_of_After d i e j [] a m = absurd (ground arith)
le_of_After d i e j ((f, k) ∷ xs) (b, a) m = ground (arith, le_of_After d i e j xs a)
