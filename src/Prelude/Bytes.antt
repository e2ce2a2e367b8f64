-- ===== src/Prelude/Bytes.antt =====
-- Byte strings: `std::string` as the list of its bytes, and the searches the program makes.
use Prim.Native.Nat.{ℕ}
use Prim.Native.Char.{code}
use Prim.Native.String.{String}
use mathlib.Core.Path.{◌≡◌, refl}
use mathlib.Core.Logic.{◌↔◌, ◌≢◌}
use mathlib.Core.Bool.{Bool, true, false, ◌&&◌}
use mathlib.Core.Option.{Option, none, some}
use mathlib.Core.List.{List, [], ◌∷◌, ◌++◌}
use native.Mathlib.Omega.{arith}
use sioxx.Prelude.Tests.{◌==◌, if◌then◌else◌, leb}
use sioxx.Prelude.Lists.{All}

abbrev pub Bytes : Type 0
Bytes = List ℕ

-- The bytes of an ASCII literal.
abbrev pub codes : String → Bytes
codes String.[] = []
codes (String.◌∷◌ c s) = code c ∷ codes s

unfoldable pub bytes_eq : Bytes → Bytes → Bool
bytes_eq [] [] = true
bytes_eq [] (_ ∷ _) = false
bytes_eq (_ ∷ _) [] = false
bytes_eq (x ∷ xs) (y ∷ ys) = x == y && bytes_eq xs ys

pub bytes_eq_iff : (xs ys : Bytes) → (bytes_eq xs ys ≡ true) ↔ (xs ≡ ys)
unfolding bytes_eq
bytes_eq_iff [] [] = (λ _. refl, λ _. refl)
bytes_eq_iff [] (_ ∷ _) = (λ e. cc, λ e. cc)
bytes_eq_iff (_ ∷ _) [] = (λ e. cc, λ e. cc)
bytes_eq_iff (x ∷ xs) (y ∷ ys) = ground (arith, bytes_eq_iff xs ys)

pub bytes_eq_refl : (xs : Bytes) → bytes_eq xs xs ≡ true
bytes_eq_refl xs = (bytes_eq_iff xs xs).1 refl

-- `std::isdigit` of a byte in the "C" locale.
abbrev pub is_digit : ℕ → Bool
is_digit c = leb b'0' c && leb c b'9'

abbrev pub IsDigit : ℕ → Type 0
IsDigit c = is_digit c ≡ true

-- `s.find(c)`: the bytes before the first `c` and those behind it; `none` is `npos`.
unfoldable pub break_at : ℕ → Bytes → Option (Bytes × Bytes)
break_at c [] = none
break_at c (x ∷ xs) =
    let rest : Option (Bytes × Bytes) = elim (break_at c xs) [
      | none ↦ none
      | some (before, after) ↦ some (x ∷ before, after)
    ] in
    if x == c then some ([], xs) else rest

abbrev pub Lacks : ℕ → Bytes → Type 0
Lacks c = All (λ x. x ≢ c)

pub break_at-append :
    (c : ℕ) (before after : Bytes)
    → Lacks c before
    → break_at c (before ++ c ∷ after) ≡ some (before, after)
unfolding break_at
break_at-append c [] after _ = ground arith
break_at-append c (x ∷ xs) after (h, hs) = ground (arith, break_at-append c xs after hs)

pub break_at-none : (c : ℕ) (s : Bytes) → Lacks c s → break_at c s ≡ none
unfolding break_at
break_at-none c [] _ = refl
break_at-none c (x ∷ xs) (h, hs) = ground (arith, break_at-none c xs hs)
