-- ===== src/JsObject.antt =====
-- Objects of JavaScript that the program uses as dictionaries: own properties with text names. An
-- assignment to `__proto__` makes no own property. `Object.entries`, and `JSON.stringify` with it,
-- lists the array indices first, in ascending order, and then the other names as they were added.
pub mod Order
use mini_store.Prelude.{
  ℕ, Bool, true, false, not, ◌&&◌, ◌||◌, List, [], ◌∷◌, ◌++◌, ltb, ◌==◌, if◌then◌else◌, ite, Text,
  Text-discrete, text_keyed,
}
use mini_store.JsMap
use mini_store.JsMap.{JsMap}
use mini_store.Protocol.Command.{codes}
use mini_store.Protocol.Numbers.{is_number, value_from}

abbrev pub proto : Text
proto = codes "__proto__"

-- A row of digits without a needless zero in front.
abbrev pub canonical : Text → Bool
canonical [] = false
canonical (c ∷ []) = true
canonical (c ∷ d ∷ t) = not (c == b'0')

abbrev pub max_index : ℕ
max_index = 4_294_967_295

unfoldable pub is_index : Text → Bool
is_index name = canonical name && is_number name && ltb (value_from 0 name) max_index

module _ {V : Type 0} where
  unfoldable pub assign : JsMap Text V → Text → V → JsMap Text V
  assign o name v = ite (Text-discrete proto name) o (JsMap.set o name v)

  -- In among the indices, which ascend.
  unfoldable pub insert : Text × V → List (Text × V) → List (Text × V)
  insert entry [] = entry ∷ []
  insert entry (other ∷ indices) =
      let rest = insert entry indices in
      if ltb (value_from 0 entry.0) (value_from 0 other.0)
      then entry ∷ other ∷ indices
      else other ∷ rest

  unfoldable pub indices : JsMap Text V → List (Text × V)
  unfolding insert is_index
  indices [] = []
  indices (entry ∷ o) = let rest = indices o in if is_index entry.0 then insert entry rest else rest

  unfoldable pub names : JsMap Text V → List (Text × V)
  unfolding is_index
  names [] = []
  names (entry ∷ o) = let rest = names o in if is_index entry.0 then rest else entry ∷ rest

  unfoldable pub entries : JsMap Text V → List (Text × V)
  unfolding indices names
  entries o = indices o ++ names o
