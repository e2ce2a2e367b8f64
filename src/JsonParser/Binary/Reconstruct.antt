-- ===== src/JsonParser/Binary/Reconstruct.antt =====
-- src/json_parser.cpp: `reconstruct_binary` after `deconstruct_binary`.
use sioxx.Prelude.{
  none, ℕ, Bool, true, false, not, ◌&&◌, some, List, [], ◌∷◌, ◌++◌, ◌≡◌, refl, sym, ap, ◌∙◌, inl,
  inr, length, get_elem?-append, append_assoc, append-nil, Bool-cases, and_left, and_right,
  not-true,
}
use sioxx.Prelude.Bytes.{Bytes, codes, bytes_eq}
use sioxx.Message.{
  Json, Items, Members, null, boolean, number_integer, number_unsigned, number_float, string,
  binary, array, object, nil, cons, end, member, find_member,
}
use sioxx.JsonParser.Binary.{
  placeholder, deconstruct_binary, deconstruct_items, deconstruct_members, is_binary_placeholder,
  is_true, read_placeholder_index, read_attachment, reconstruct_binary, reconstruct_items,
  reconstruct_members,
}

-- The binary values of a payload in the order of iteration.
unfoldable mutual
  pub binaries : Json → List Bytes
  binaries (binary st bytes) = bytes ∷ []
  binaries (array vs) = binaries_of_items vs
  binaries (object ms) = binaries_of_members ms
  binaries _ = []

  pub binaries_of_items : Items → List Bytes
  binaries_of_items nil = []
  binaries_of_items (cons v vs) = binaries v ++ binaries_of_items vs

  pub binaries_of_members : Members → List Bytes
  binaries_of_members end = []
  binaries_of_members (member k v ms) = binaries v ++ binaries_of_members ms

-- No object of the payload looks like a placeholder, and no binary value has a subtype, which the code
-- does not send.
unfoldable mutual
  pub is_restorable : Json → Bool
  is_restorable (array vs) = restorable_items vs
  is_restorable (object ms) = not (is_binary_placeholder ms) && restorable_members ms
  is_restorable (binary (some subtype) bytes) = false
  is_restorable _ = true

  pub restorable_items : Items → Bool
  restorable_items nil = true
  restorable_items (cons v vs) = is_restorable v && restorable_items vs

  pub restorable_members : Members → Bool
  restorable_members end = true
  restorable_members (member k v ms) = is_restorable v && restorable_members ms

mutual
  unfolding deconstruct_binary binaries

  pub deconstruct-appends :
      (v : Json) (bs : List Bytes) → (deconstruct_binary v bs).1 ≡ bs ++ binaries v
  deconstruct-appends null bs = sym (append-nil bs)
  deconstruct-appends (boolean b) bs = sym (append-nil bs)
  deconstruct-appends (number_integer n) bs = sym (append-nil bs)
  deconstruct-appends (number_unsigned n) bs = sym (append-nil bs)
  deconstruct-appends (number_float n) bs = sym (append-nil bs)
  deconstruct-appends (string s) bs = sym (append-nil bs)
  deconstruct-appends (binary st b) bs = refl
  deconstruct-appends (array vs) bs = deconstruct_items-appends vs bs
  deconstruct-appends (object ms) bs = deconstruct_members-appends ms bs

  deconstruct_items-appends :
      (vs : Items) (bs : List Bytes) → (deconstruct_items vs bs).1 ≡ bs ++ binaries_of_items vs
  deconstruct_items-appends nil bs = sym (append-nil bs)
  deconstruct_items-appends (cons v vs) bs =
      deconstruct_items-appends vs (deconstruct_binary v bs).1
      ∙ ap (λ xs. xs ++ binaries_of_items vs) (deconstruct-appends v bs)
      ∙ append_assoc bs (binaries v) (binaries_of_items vs)

  deconstruct_members-appends :
      (ms : Members) (bs : List Bytes)
      → (deconstruct_members ms bs).1 ≡ bs ++ binaries_of_members ms
  deconstruct_members-appends end bs = sym (append-nil bs)
  deconstruct_members-appends (member k v ms) bs =
      deconstruct_members-appends ms (deconstruct_binary v bs).1
      ∙ ap (λ xs. xs ++ binaries_of_members ms) (deconstruct-appends v bs)
      ∙ append_assoc bs (binaries v) (binaries_of_members ms)

deconstruct-is_true :
    (v : Json) (bs : List Bytes) → is_true (some (deconstruct_binary v bs).0) ≡ is_true (some v)
unfolding deconstruct_binary
deconstruct-is_true null bs = refl
deconstruct-is_true (array vs) bs = refl
deconstruct-is_true (object vs) bs = refl
deconstruct-is_true (binary st vs) bs = refl
deconstruct-is_true _ bs = refl

-- Taking binaries out makes no new placeholder among the members of an object that stays.
deconstruct-is_true_member :
    (key : Bytes) (ms : Members) (bs : List Bytes)
    → is_true (find_member key (deconstruct_members ms bs).0) ≡ is_true (find_member key ms)
unfolding deconstruct_members find_member
deconstruct-is_true_member key end bs = refl
deconstruct-is_true_member key (member k v ms) bs = elim (Bool-cases (bytes_eq k key)) [
  | inl e ↦ rw (e, find_member) (deconstruct-is_true v bs)
  | inr e ↦ rw (e, find_member) (deconstruct-is_true_member key ms (deconstruct_binary v bs).1)
]

pub deconstruct-is_binary_placeholder :
    (ms : Members) (bs : List Bytes)
    → is_binary_placeholder (deconstruct_members ms bs).0 ≡ is_binary_placeholder ms
unfolding is_binary_placeholder
deconstruct-is_binary_placeholder ms bs = deconstruct-is_true_member (codes "_placeholder") ms bs

pub placeholder-is_binary_placeholder :
    (n : ℕ)
    → is_binary_placeholder (
        member (codes "_placeholder") (boolean true) (member (codes "num") (number_unsigned n) end))
      ≡ true
unfolding is_binary_placeholder find_member bytes_eq
placeholder-is_binary_placeholder n = refl

pub placeholder-read_index :
    (n : ℕ)
    → read_placeholder_index (
        member (codes "_placeholder") (boolean true) (member (codes "num") (number_unsigned n) end))
      ≡ some n
unfolding read_placeholder_index find_member bytes_eq
placeholder-read_index n = refl

reconstruct-placeholder :
    (bs : List Bytes) (b : Bytes) (more : List Bytes)
    → reconstruct_binary (placeholder (length bs)) (bs ++ b ∷ more) ≡ some (binary none b)
unfolding reconstruct_binary read_attachment
reconstruct-placeholder bs b more = rw (
  placeholder-is_binary_placeholder (length bs),
  placeholder-read_index (length bs),
  get_elem?-append bs more b,
)

-- An object that is no placeholder comes back if its members do.
reconstruct_object :
    (ms : Members) (bs more : List Bytes)
    → is_binary_placeholder ms ≡ false
    → reconstruct_members (deconstruct_members ms bs).0 (bs ++ binaries_of_members ms ++ more)
      ≡ some ms
    → reconstruct_binary
        (object (deconstruct_members ms bs).0)
        (bs ++ binaries_of_members ms ++ more)
      ≡ some (object ms)
unfolding reconstruct_binary
reconstruct_object ms bs more p r = rw (deconstruct-is_binary_placeholder ms bs, p, r)

mutual
  unfolding deconstruct_binary binaries reconstruct_binary is_restorable

  reconstruct-deconstruct_with :
      (v : Json) (bs more : List Bytes)
      → is_restorable v ≡ true
      → reconstruct_binary (deconstruct_binary v bs).0 (bs ++ binaries v ++ more) ≡ some v
  reconstruct-deconstruct_with null bs more h = refl
  reconstruct-deconstruct_with (boolean b) bs more h = refl
  reconstruct-deconstruct_with (number_integer n) bs more h = refl
  reconstruct-deconstruct_with (number_unsigned n) bs more h = refl
  reconstruct-deconstruct_with (number_float n) bs more h = refl
  reconstruct-deconstruct_with (string s) bs more h = refl
  reconstruct-deconstruct_with (binary (some st) b) bs more h = cc
  reconstruct-deconstruct_with (binary none b) bs more h =
      rw append_assoc (reconstruct-placeholder bs b more)
  reconstruct-deconstruct_with (array vs) bs more h =
      rw (reconstruct-deconstruct_items vs bs more h)
  reconstruct-deconstruct_with (object ms) bs more h =
      reconstruct_object ms bs more (not-true _ (and_left _ _ h))
        (reconstruct-deconstruct_members ms bs more (and_right _ _ h))

  reconstruct-deconstruct_items :
      (vs : Items) (bs more : List Bytes)
      → restorable_items vs ≡ true
      → reconstruct_items (deconstruct_items vs bs).0 (bs ++ binaries_of_items vs ++ more) ≡ some vs
  reconstruct-deconstruct_items nil bs more h = refl
  reconstruct-deconstruct_items (cons v vs) bs more h =
      let split : (bs ++ (binaries v ++ binaries_of_items vs)) ++ more
          ≡ (bs ++ binaries v) ++ (binaries_of_items vs ++ more) =
        simp append_assoc in
      let rest : reconstruct_items (deconstruct_items vs (deconstruct_binary v bs).1).0
            ((bs ++ binaries v) ++ (binaries_of_items vs ++ more))
          ≡ some vs =
        rw (deconstruct-appends v bs) (
          rw (← append_assoc)
            (reconstruct-deconstruct_items vs (bs ++ binaries v) more (and_right _ _ h))) in
      rw (
        split,
        reconstruct-deconstruct_with v bs (binaries_of_items vs ++ more) (and_left _ _ h),
        rest,
      )

  reconstruct-deconstruct_members :
      (ms : Members) (bs more : List Bytes)
      → restorable_members ms ≡ true
      → reconstruct_members (deconstruct_members ms bs).0 (bs ++ binaries_of_members ms ++ more)
        ≡ some ms
  reconstruct-deconstruct_members end bs more h = refl
  reconstruct-deconstruct_members (member k v ms) bs more h =
      let split : (bs ++ (binaries v ++ binaries_of_members ms)) ++ more
          ≡ (bs ++ binaries v) ++ (binaries_of_members ms ++ more) =
        simp append_assoc in
      let rest : reconstruct_members (deconstruct_members ms (deconstruct_binary v bs).1).0
            ((bs ++ binaries v) ++ (binaries_of_members ms ++ more))
          ≡ some ms =
        rw (deconstruct-appends v bs) (
          rw (← append_assoc)
            (reconstruct-deconstruct_members ms (bs ++ binaries v) more (and_right _ _ h))) in
      rw (
        split,
        reconstruct-deconstruct_with v bs (binaries_of_members ms ++ more) (and_left _ _ h),
        rest,
      )

-- Putting the binary values of a payload back where they were taken out gives the payload, provided
-- that no object of it looks like a placeholder and that no binary value has a subtype.
pub reconstruct-deconstruct :
    (v : Json)
    → is_restorable v ≡ true
    → reconstruct_binary (deconstruct_binary v []).0 (deconstruct_binary v []).1 ≡ some v
reconstruct-deconstruct v h =
    rw (deconstruct-appends v [])
      (rw (append-nil (binaries v)) at (reconstruct-deconstruct_with v [] [] h))
