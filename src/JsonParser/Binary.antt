-- ===== src/JsonParser/Binary.antt =====
-- src/json_parser.cpp, the helpers that take binary values out of a payload and put them back.
pub mod Reconstruct
pub mod Validation
pub mod Plain
use sioxx.Prelude.{
  ℕ, zero, suc, Bool, true, false, ◌&&◌, Option, none, some, List, [], ◌∷◌, ◌++◌, length, get_elem?,
  ltb, ◌==◌, if◌then◌else◌, ◌>>=◌, ◌>>◌, guard,
}
use sioxx.Prelude.Bytes.{Bytes, codes}
use sioxx.Prelude.Int.{pos}
use sioxx.Message.{
  Json, Items, Members, null, boolean, number_integer, number_unsigned, string, binary, array,
  object, nil, cons, end, member, find_member,
}

-- `json{{"_placeholder", true}, {"num", index}}`
abbrev pub placeholder : ℕ → Json
placeholder index = object (
    member (codes "_placeholder") (boolean true) (member (codes "num") (number_unsigned index) end))

-- The value that is left in place, and the attachments so far.
unfoldable mutual
  pub deconstruct_binary : Json → List Bytes → Json × List Bytes
  deconstruct_binary (binary subtype bytes) attachments =
      (placeholder (length attachments), attachments ++ bytes ∷ [])
  deconstruct_binary (array vs) attachments =
      let (vs', attachments') = deconstruct_items vs attachments in (array vs', attachments')
  deconstruct_binary (object ms) attachments =
      let (ms', attachments') = deconstruct_members ms attachments in (object ms', attachments')
  deconstruct_binary v attachments = (v, attachments)

  pub deconstruct_items : Items → List Bytes → Items × List Bytes
  deconstruct_items nil attachments = (nil, attachments)
  deconstruct_items (cons v vs) attachments =
      let (v', attachments') = deconstruct_binary v attachments in
      let (vs', attachments'') = deconstruct_items vs attachments' in (cons v' vs', attachments'')

  pub deconstruct_members : Members → List Bytes → Members × List Bytes
  deconstruct_members end attachments = (end, attachments)
  deconstruct_members (member k v ms) attachments =
      let (v', attachments') = deconstruct_binary v attachments in
      let (ms', attachments'') = deconstruct_members ms attachments' in
      (member k v' ms', attachments'')

-- `value["_placeholder"].is_boolean() && value["_placeholder"].get<bool>()`, where it is there
abbrev is_true : Option Json → Bool
is_true (some (boolean b)) = b
is_true _ = false

-- `is_binary_placeholder` of an object; no other value is one.
unfoldable pub is_binary_placeholder : Members → Bool
is_binary_placeholder ms = is_true (find_member (codes "_placeholder") ms)

abbrev index_of : Option Json → Option ℕ
index_of (some (number_unsigned n)) = some n
index_of (some (number_integer (pos n))) = some n
index_of _ = none

unfoldable pub read_placeholder_index : Members → Option ℕ
read_placeholder_index ms = index_of (find_member (codes "num") ms)

abbrev pub contains : ℕ → List ℕ → Bool
contains i [] = false
contains i (j ∷ js) = if i == j then true else contains i js

-- `indices.insert(index).second`: a second insertion of one index is refused.
insert_index : ℕ → List ℕ → Option (List ℕ)
insert_index i indices = if contains i indices then none else some (i ∷ indices)

-- The case of a placeholder in `collect_placeholder_indices`.
unfoldable pub collect_placeholder : Members → ℕ → List ℕ → Option (List ℕ)
unfolding insert_index
collect_placeholder ms count indices = do
  index ← read_placeholder_index ms
  guard (ltb index count)
  insert_index index indices

-- `none` is the result `false`.
unfoldable mutual
  pub collect_placeholder_indices : Json → ℕ → List ℕ → Option (List ℕ)
  collect_placeholder_indices (object ms) count indices =
      if is_binary_placeholder ms
      then collect_placeholder ms count indices
      else collect_in_members ms count indices
  collect_placeholder_indices (array vs) count indices = collect_in_items vs count indices
  collect_placeholder_indices v count indices = some indices

  pub collect_in_items : Items → ℕ → List ℕ → Option (List ℕ)
  collect_in_items nil count indices = some indices
  collect_in_items (cons v vs) count indices =
      collect_placeholder_indices v count indices >>= collect_in_items vs count

  pub collect_in_members : Members → ℕ → List ℕ → Option (List ℕ)
  collect_in_members end count indices = some indices
  collect_in_members (member k v ms) count indices =
      collect_placeholder_indices v count indices >>= collect_in_members ms count

abbrev has_size : ℕ → Option (List ℕ) → Bool
has_size n none = false
has_size n (some indices) = length indices == n

unfoldable pub has_valid_placeholders : Json → ℕ → Bool
has_valid_placeholders v count = has_size count (collect_placeholder_indices v count [])

-- `attachments[value["num"].get<size_t>()]`: `none` is a read out of bounds, or a member that is
-- missing or holds no index.
unfoldable pub read_attachment : Members → List Bytes → Option Json
read_attachment ms attachments = do
  index ← read_placeholder_index ms
  bytes ← get_elem? attachments index
  some (binary none bytes)

unfoldable mutual
  pub reconstruct_binary : Json → List Bytes → Option Json
  reconstruct_binary (object ms) attachments =
      if is_binary_placeholder ms
      then read_attachment ms attachments
      else (reconstruct_members ms attachments >>= λ ms'. some (object ms'))
  reconstruct_binary (array vs) attachments =
      reconstruct_items vs attachments >>= λ vs'. some (array vs')
  reconstruct_binary v attachments = some v

  pub reconstruct_items : Items → List Bytes → Option Items
  reconstruct_items nil attachments = some nil
  reconstruct_items (cons v vs) attachments = reconstruct_binary v attachments >>= λ v'.
      reconstruct_items vs attachments >>= λ vs'. some (cons v' vs')

  pub reconstruct_members : Members → List Bytes → Option Members
  reconstruct_members end attachments = some end
  reconstruct_members (member k v ms) attachments = reconstruct_binary v attachments >>= λ v'.
      reconstruct_members ms attachments >>= λ ms'. some (member k v' ms')
