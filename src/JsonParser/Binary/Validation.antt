-- ===== src/JsonParser/Binary/Validation.antt =====
-- src/json_parser.cpp: `has_valid_placeholders`, which is the condition of `reconstruct_binary`.
use native.Mathlib.Numerals.{add-one}
use mathlib.Core.Bool.{false≢true}
use sioxx.Prelude.{
  none, ℕ, zero, suc, ◌+◌, ◌≤◌, ◌<◌, true, false, some, List, [], ◌∷◌, ◌++◌, ◌≡◌, refl, ap, ◌∙◌,
  inl, inr, arith, length, length-append, get_elem?-some, Bool-cases, Option-cases, and_left,
  and_right, not-true, >>=-eq-some,
}
use sioxx.Prelude.Bytes.{Bytes}
use sioxx.Message.{Json, Items, Members, null, binary, array, object, nil, cons, end, member}
use sioxx.JsonParser.Binary.{
  placeholder, deconstruct_binary, deconstruct_items, deconstruct_members, is_binary_placeholder,
  read_placeholder_index, contains, collect_placeholder, collect_placeholder_indices,
  collect_in_items, collect_in_members, has_valid_placeholders, read_attachment, reconstruct_binary,
  reconstruct_items, reconstruct_members,
}
use sioxx.JsonParser.Binary.Reconstruct.{
  binaries, binaries_of_items, binaries_of_members, is_restorable, restorable_items,
  restorable_members, deconstruct-appends, deconstruct-is_binary_placeholder,
  placeholder-is_binary_placeholder, placeholder-read_index,
}

-- n - 1, ..., 0: the indices in the order in which `deconstruct_binary` gives them out, last first.
unfoldable pub below : ℕ → List ℕ
below zero = []
below (suc n) = n ∷ below n

length-below : (n : ℕ) → length (below n) ≡ n
unfolding below
length-below zero = refl
length-below (suc n) = omega (arith, length-below n)

contains-below : (i n : ℕ) → n ≤ i → contains i (below n) ≡ false
unfolding below
contains-below i zero h = refl
contains-below i (suc n) h = ground (arith, contains-below i n)

collect-placeholder :
    (n count : ℕ)
    → n < count
    → collect_placeholder_indices (placeholder n) count (below n) ≡ some (below (suc n))
unfolding collect_placeholder_indices collect_placeholder below
collect-placeholder n count h =
    rw (placeholder-is_binary_placeholder n, placeholder-read_index n)
      (ground (arith, contains-below n n))

collect-cons :
    (v : Json) (vs : Items) (count : ℕ) (s : List ℕ) {t u : List ℕ}
    → collect_placeholder_indices v count s ≡ some t
    → collect_in_items vs count t ≡ some u
    → collect_in_items (cons v vs) count s ≡ some u
unfolding collect_in_items
collect-cons v vs count s p q = rw p q

collect-member :
    (k : Bytes) (v : Json) (ms : Members) (count : ℕ) (s : List ℕ) {t u : List ℕ}
    → collect_placeholder_indices v count s ≡ some t
    → collect_in_members ms count t ≡ some u
    → collect_in_members (member k v ms) count s ≡ some u
unfolding collect_in_members
collect-member k v ms count s p q = rw p q

-- `bs` are the attachments so far, so `length bs` indices are given out.
mutual
  unfolding deconstruct_binary binaries collect_placeholder_indices is_restorable

  collect-deconstruct_with :
      (v : Json) (bs : List Bytes) (n count : ℕ)
      → is_restorable v ≡ true
      → length bs ≡ n
      → n + length (binaries v) ≤ count
      → collect_placeholder_indices (deconstruct_binary v bs).0 count (below n)
        ≡ some (below (n + length (binaries v)))
  collect-deconstruct_with (binary st b) bs n count h e le =
      rw (e, add-one) (collect-placeholder n count (omega arith))
  collect-deconstruct_with (array vs) bs n count h e le =
      collect-deconstruct_items vs bs n count h e le
  collect-deconstruct_with (object ms) bs n count h e le =
      rw
        (
          deconstruct-is_binary_placeholder ms bs,
          not-true (is_binary_placeholder ms) (and_left _ _ h),
        )
        (collect-deconstruct_members ms bs n count (and_right _ _ h) e le)
  collect-deconstruct_with null bs n count h e le = ap (λ k. some (below k)) (omega arith)
  collect-deconstruct_with _ bs n count h e le = ap (λ k. some (below k)) (omega arith)

  collect-deconstruct_items :
      (vs : Items) (bs : List Bytes) (n count : ℕ)
      → restorable_items vs ≡ true
      → length bs ≡ n
      → n + length (binaries_of_items vs) ≤ count
      → collect_in_items (deconstruct_items vs bs).0 count (below n)
        ≡ some (below (n + length (binaries_of_items vs)))
  collect-deconstruct_items nil bs n count h e le = ap (λ k. some (below k)) (omega arith)
  collect-deconstruct_items (cons v vs) bs n count h e le =
      let sizes = length-append (binaries v) (binaries_of_items vs) in
      let first = collect-deconstruct_with v bs n count (and_left _ _ h) e (omega (arith, sizes)) in
      let grown : length (deconstruct_binary v bs).1 ≡ n + length (binaries v) =
        rw (deconstruct-appends v bs) (omega (arith, length-append bs (binaries v))) in
      let total : n + length (binaries v) + length (binaries_of_items vs)
          ≡ n + length (binaries v ++ binaries_of_items vs) =
        omega (arith, sizes) in
      let rest =
        collect-deconstruct_items vs (deconstruct_binary v bs).1 (n + length (binaries v)) count
          (and_right _ _ h) grown (omega (arith, sizes)) in
      collect-cons (deconstruct_binary v bs).0 (deconstruct_items vs (deconstruct_binary v bs).1).0
        count (below n) first (rest ∙ ap (λ k. some (below k)) total)

  collect-deconstruct_members :
      (ms : Members) (bs : List Bytes) (n count : ℕ)
      → restorable_members ms ≡ true
      → length bs ≡ n
      → n + length (binaries_of_members ms) ≤ count
      → collect_in_members (deconstruct_members ms bs).0 count (below n)
        ≡ some (below (n + length (binaries_of_members ms)))
  collect-deconstruct_members end bs n count h e le = ap (λ k. some (below k)) (omega arith)
  collect-deconstruct_members (member k v ms) bs n count h e le =
      let sizes = length-append (binaries v) (binaries_of_members ms) in
      let first = collect-deconstruct_with v bs n count (and_left _ _ h) e (omega (arith, sizes)) in
      let grown : length (deconstruct_binary v bs).1 ≡ n + length (binaries v) =
        rw (deconstruct-appends v bs) (omega (arith, length-append bs (binaries v))) in
      let total : n + length (binaries v) + length (binaries_of_members ms)
          ≡ n + length (binaries v ++ binaries_of_members ms) =
        omega (arith, sizes) in
      let rest =
        collect-deconstruct_members ms (deconstruct_binary v bs).1 (n + length (binaries v)) count
          (and_right _ _ h) grown (omega (arith, sizes)) in
      collect-member k (deconstruct_binary v bs).0
        (deconstruct_members ms (deconstruct_binary v bs).1).0 count (below n) first
        (rest ∙ ap (λ k. some (below k)) total)

-- What validation accepts, reconstruction completes: no index is out of bounds.
reads_placeholder :
    (ms : Members) (bs : List Bytes) (count : ℕ) (s t : List ℕ)
    → collect_placeholder ms count s ≡ some t
    → count ≤ length bs
    → (v : Json) × (read_attachment ms bs ≡ some v)
unfolding collect_placeholder read_attachment
reads_placeholder ms bs count s t h le =
    let (i, e, q) = >>=-eq-some (read_placeholder_index ms) _ h in
    let (b, r) = get_elem?-some bs i (ground arith) in (binary none b, rw (e, r))

mutual
  unfolding collect_placeholder_indices reconstruct_binary

  reconstruct_total :
      (v : Json) (bs : List Bytes) (count : ℕ) (s t : List ℕ)
      → collect_placeholder_indices v count s ≡ some t
      → count ≤ length bs
      → (w : Json) × (reconstruct_binary v bs ≡ some w)
  reconstruct_total (object ms) bs count s t h le = elim (Bool-cases (is_binary_placeholder ms)) [
    | inl e ↦ rw e (reads_placeholder ms bs count s t (rw e at h) le)
    | inr e ↦
        let (ms', r) = reconstruct_total_members ms bs count s t (rw e at h) le in
        (object ms', rw (e, r))
  ]
  reconstruct_total (array vs) bs count s t h le =
      let (vs', r) = reconstruct_total_items vs bs count s t h le in (array vs', rw r)
  reconstruct_total null bs count s t h le = (null, refl)
  reconstruct_total v bs count s t h le = (v, refl)

  reconstruct_total_items :
      (vs : Items) (bs : List Bytes) (count : ℕ) (s t : List ℕ)
      → collect_in_items vs count s ≡ some t
      → count ≤ length bs
      → (ws : Items) × (reconstruct_items vs bs ≡ some ws)
  reconstruct_total_items nil bs count s t h le = (nil, refl)
  reconstruct_total_items (cons v vs) bs count s t h le =
      let (u, p, q) =
        >>=-eq-some (collect_placeholder_indices v count s) (collect_in_items vs count) h in
      let (w, r) = reconstruct_total v bs count s u p le in
      let (ws, r') = reconstruct_total_items vs bs count u t q le in (cons w ws, rw (r, r'))

  reconstruct_total_members :
      (ms : Members) (bs : List Bytes) (count : ℕ) (s t : List ℕ)
      → collect_in_members ms count s ≡ some t
      → count ≤ length bs
      → (ws : Members) × (reconstruct_members ms bs ≡ some ws)
  reconstruct_total_members end bs count s t h le = (end, refl)
  reconstruct_total_members (member k v ms) bs count s t h le =
      let (u, p, q) =
        >>=-eq-some (collect_placeholder_indices v count s) (collect_in_members ms count) h in
      let (w, r) = reconstruct_total v bs count s u p le in
      let (ws, r') = reconstruct_total_members ms bs count u t q le in (member k w ws, rw (r, r'))

-- Validation accepts every payload that deconstruction makes out of one without placeholders, at
-- the number of binary values that were taken out.
pub has_valid_placeholders-deconstruct :
    (v : Json)
    → is_restorable v ≡ true
    → has_valid_placeholders (deconstruct_binary v []).0 (length (deconstruct_binary v []).1) ≡ true
unfolding has_valid_placeholders below
has_valid_placeholders-deconstruct v h =
    let n = length (binaries v) in
    rw (deconstruct-appends v [], collect-deconstruct_with v [] 0 n h refl (omega arith))
      (ground (arith, length-below (0 + n)))

-- A payload that passes validation at a count is reconstructed from any attachments that are at
-- least as many: no index is missing or out of bounds.
pub reconstruct_of_valid :
    (v : Json) (count : ℕ) (bs : List Bytes)
    → has_valid_placeholders v count ≡ true
    → count ≤ length bs
    → (w : Json) × (reconstruct_binary v bs ≡ some w)
unfolding has_valid_placeholders
reconstruct_of_valid v count bs h le =
    elim (Option-cases (collect_placeholder_indices v count [])) [
      | inl e ↦ absurd (false≢true (rw e at h))
      | inr (t, e) ↦ reconstruct_total v bs count [] t e le
    ]
