-- ===== src/JsonParser/Binary/Plain.antt =====
-- src/json_parser.cpp: payloads without binary values.
use sioxx.Prelude.{List, [], ◌∷◌, ◌++◌, ◌≡◌, refl, ap}
use mathlib.Core.Path.{ap₂}
use sioxx.Prelude.Bytes.{Bytes}
use sioxx.Message.{Json, Items, Members, null, binary, array, object, nil, cons, end, member}
use sioxx.JsonParser.Binary.{deconstruct_binary, deconstruct_items, deconstruct_members}
use sioxx.JsonParser.Binary.Reconstruct.{binaries, binaries_of_items, binaries_of_members}

append_nil_left : (xs ys : List Bytes) → xs ++ ys ≡ [] → xs ≡ []
append_nil_left [] ys h = refl
append_nil_left (x ∷ xs) ys h = cc

append_nil_right : (xs ys : List Bytes) → xs ++ ys ≡ [] → ys ≡ []
append_nil_right [] ys h = h
append_nil_right (x ∷ xs) ys h = cc

mutual
  unfolding deconstruct_binary binaries

  pub deconstruct-plain :
      (v : Json) (bs : List Bytes) → binaries v ≡ [] → (deconstruct_binary v bs).0 ≡ v
  deconstruct-plain null bs h = refl
  deconstruct-plain (binary st b) bs h = cc
  deconstruct-plain (array vs) bs h = ap array (deconstruct_items-plain vs bs h)
  deconstruct-plain (object ms) bs h = ap object (deconstruct_members-plain ms bs h)
  deconstruct-plain _ bs h = refl

  deconstruct_items-plain :
      (vs : Items) (bs : List Bytes) → binaries_of_items vs ≡ [] → (deconstruct_items vs bs).0 ≡ vs
  deconstruct_items-plain nil bs h = refl
  deconstruct_items-plain (cons v vs) bs h =
      ap₂ cons (deconstruct-plain v bs (append_nil_left (binaries v) (binaries_of_items vs) h)) (
        deconstruct_items-plain vs (deconstruct_binary v bs).1
          (append_nil_right (binaries v) (binaries_of_items vs) h))

  deconstruct_members-plain :
      (ms : Members) (bs : List Bytes)
      → binaries_of_members ms ≡ []
      → (deconstruct_members ms bs).0 ≡ ms
  deconstruct_members-plain end bs h = refl
  deconstruct_members-plain (member k v ms) bs h =
      ap₂ (member k)
        (deconstruct-plain v bs (append_nil_left (binaries v) (binaries_of_members ms) h))
        (deconstruct_members-plain ms (deconstruct_binary v bs).1
          (append_nil_right (binaries v) (binaries_of_members ms) h))
