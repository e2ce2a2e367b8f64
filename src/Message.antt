-- ===== src/Message.antt =====
-- include/sioxx/message.hpp: `json` is nlohmann::json, here the kinds of value that its documentation
-- names. An object lists its members in the order of iteration. A float is the 64-bit pattern.
use sioxx.Prelude.{ℕ, Bool, true, false, Option, none, some, List, [], ◌∷◌, if◌then◌else◌}
use sioxx.Prelude.Bytes.{Bytes, bytes_eq}
use sioxx.Prelude.Int.{ℤ}

mutual
  pub data Json : Type 0 where
    null : Json
    boolean : Bool → Json
    number_integer : ℤ → Json
    number_unsigned : ℕ → Json
    number_float : ℕ → Json
    string : Bytes → Json
    binary : (subtype : Option ℕ) → Bytes → Json
    array : Items → Json
    object : Members → Json

  pub data Items : Type 0 where
    nil : Items
    cons : Json → Items → Items

  pub data Members : Type 0 where
    end : Members
    member : Bytes → Json → Members → Members

-- `value.contains(key)` with `value[key]`.
unfoldable pub find_member : Bytes → Members → Option Json
find_member key end = none
find_member key (member k v ms) = if bytes_eq k key then some v else find_member key ms

abbrev pub is_null : Json → Bool
is_null null = true
is_null _ = false

abbrev pub is_array : Json → Bool
is_array (array _) = true
is_array _ = false

-- An array from a list of values, and back.
abbrev pub of_list : List Json → Items
of_list [] = nil
of_list (v ∷ vs) = cons v (of_list vs)

abbrev pub to_list : Items → List Json
to_list nil = []
to_list (cons v vs) = v ∷ to_list vs
