-- ===== src/HttpPollingTransport/Request/Fields.antt =====
-- src/http_polling_transport.cpp: the fields of a request that are set one after the other.
use sioxx.Prelude.{
  ◌≡◌, refl, sym, ap, ◌∙◌, inl, inr, true, false, Option, none, some, List, [], ◌∷◌, ◌++◌, map,
  if◌then◌else◌, Bool-cases,
}
use sioxx.Prelude.Bytes.{Bytes, bytes_eq_iff}
use sioxx.HttpPollingTransport.Request.{same_name, remove_field, set_field, set_all, lower}

abbrev pub or_else : Option Bytes → Option Bytes → Option Bytes
or_else (some v) w = some v
or_else none w = w

abbrev one : Bytes → Bytes × Bytes → Option Bytes
one name (n, v) = if same_name n name then some v else none

-- The value of the last field of a name.
unfoldable pub value_of : Bytes → List (Bytes × Bytes) → Option Bytes
value_of name [] = none
value_of name (f ∷ fields) = or_else (value_of name fields) (one name f)

or_else_assoc : (x y z : Option Bytes) → or_else x (or_else y z) ≡ or_else (or_else x y) z
or_else_assoc (some v) y z = refl
or_else_assoc none y z = refl

pub or_else-none : (x : Option Bytes) → or_else x none ≡ x
or_else-none (some v) = refl
or_else-none none = refl

pub value_of-append :
    (name : Bytes) (fs gs : List (Bytes × Bytes))
    → value_of name (fs ++ gs) ≡ or_else (value_of name gs) (value_of name fs)
unfolding value_of
value_of-append name [] gs = sym (or_else-none (value_of name gs))
value_of-append name (f ∷ fs) gs =
    ap (λ x. or_else x (one name f)) (value_of-append name fs gs)
    ∙ sym (or_else_assoc (value_of name gs) (value_of name fs) (one name f))

same_name_joins :
    (n k name : Bytes) → same_name n k ≡ true → same_name n name ≡ true → same_name k name ≡ true
unfolding same_name
same_name_joins n k name e f =
    let p = (bytes_eq_iff (map lower n) (map lower k)).0 e in
    let q = (bytes_eq_iff (map lower n) (map lower name)).0 f in
    (bytes_eq_iff (map lower k) (map lower name)).1 (sym p ∙ q)

-- Other fields stay what they are.
value_of-remove_field :
    (name k : Bytes) (fs : List (Bytes × Bytes))
    → same_name k name ≡ false
    → value_of name (remove_field k fs) ≡ value_of name fs
unfolding value_of remove_field
value_of-remove_field name k [] h = refl
value_of-remove_field name k ((n, v) ∷ fs) h = elim (Bool-cases (same_name n k)) [
  | inl e ↦ elim (Bool-cases (same_name n name)) [
    | inl f ↦ let g = same_name_joins n k name e f in cc
    | inr f ↦ rw (e, f) (value_of-remove_field name k fs h ∙ sym (or_else-none (value_of name fs)))
  ]
  | inr e ↦ rw e (ap (λ x. or_else x (one name (n, v))) (value_of-remove_field name k fs h))
]

value_of-set_field :
    (name : Bytes) (f : Bytes × Bytes) (fs : List (Bytes × Bytes))
    → value_of name (set_field f fs) ≡ or_else (one name f) (value_of name fs)
value_of-set_field name (k, v) fs =
    value_of-append name (remove_field k fs) ((k, v) ∷ []) ∙ elim (Bool-cases (same_name k name)) [
      | inl e ↦ unfold value_of in rw e refl
      | inr e ↦ unfold value_of in rw (e, value_of-remove_field name k fs e) refl
    ]

-- Of the fields of a name the one that was set last counts.
pub value_of-set_all :
    (name : Bytes) (fs fields : List (Bytes × Bytes))
    → value_of name (set_all fs fields) ≡ or_else (value_of name fs) (value_of name fields)
unfolding value_of set_all
value_of-set_all name [] fields = refl
value_of-set_all name (f ∷ fs) fields =
    value_of-set_all name fs (set_field f fields)
    ∙ ap (or_else (value_of name fs)) (value_of-set_field name f fields)
    ∙ or_else_assoc (value_of name fs) (one name f) (value_of name fields)
