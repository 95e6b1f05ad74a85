-- ===== src/Routing/GraphKey.antt =====
-- The keys of edges in backend/src/modules/routing/graph.service.ts.
use Prim.Native.String.{◌++◌}
use soro_pool.Js.Text.{split_on}
use soro_pool.Base.{String, List, [], ◌∷◌, Result, ok, err, type_error}

-- `${pool.id}:${from}>${to}`
abbrev pub edge_key : String → String → String → String
edge_key pool_id from to = pool_id ++ ":" ++ from ++ ">" ++ to

-- The first two pieces of the direction. A node that is undefined is the node "undefined" of the
-- graph, whose package turns it into a text.
abbrev pub first_two : List String → String × String
first_two [] = ("undefined", "undefined")
first_two (from ∷ []) = (from, "undefined")
first_two (from ∷ to ∷ more) = (from, to)

-- The second piece of the key, which is split again: a `TypeError` if there is none.
abbrev pub direction_of : List String → Result String
direction_of [] = err type_error
direction_of (pool_id ∷ []) = err type_error
direction_of (pool_id ∷ direction ∷ more) = ok direction

-- The two tokens that a key of an edge names.
unfoldable pub key_ends : String → Result (String × String)
unfolding split_on
key_ends key = elim (direction_of (split_on b':' key)) [
  | err e ↦ err e
  | ok direction ↦ ok (first_two (split_on b'>' direction))
]
