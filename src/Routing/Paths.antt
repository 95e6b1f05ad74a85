-- ===== src/Routing/Paths.antt =====
-- `findAllPathsInGraph` of backend/src/modules/routing/routing.service.ts: a depth-first search for
-- paths from a token to another. `left` is `maxHops - (path.length - 1)`, on which the search
-- recurs; `visited` and `path` are passed down, since the code restores both after each call.
pub mod Sound
use soro_pool.Base.{
  ℕ, zero, suc, ◌-◌, String, Bool, true, false, not, ◌&&◌, List, [], ◌∷◌, ◌++◌, leb, ltb,
  if◌then◌else◌, length, take,
}
use soro_pool.Js.Sort.{sort}
use soro_pool.Routing.Graph.{Graphology}
use text.Mathlib.Text.{◌==◌}

abbrev pub TokenPath : Type 0
TokenPath = List String

-- `visited.has(token)`
unfoldable pub contains : List String → String → Bool
contains [] token = false
contains (x ∷ xs) token = if x == token then true else contains xs token

-- `a.length - b.length > 0`
abbrev pub longer : TokenPath → TokenPath → Bool
longer a b = ltb (length b) (length a)

module _ (lib : Graphology) (g : lib.Graph) (target : String) (max_routes : ℕ) where
  -- The callback of `forEachNeighbor`, over the neighbors that are left.
  unfoldable pub visit :
      (String → List String → TokenPath → List TokenPath → List TokenPath)
      → List String
      → List String
      → TokenPath
      → List TokenPath
      → List TokenPath
  visit dfs [] visited path results = results
  visit dfs (neighbor ∷ rest) visited path results = visit dfs rest visited path (
      if contains visited neighbor
      then results
      else dfs neighbor (neighbor ∷ visited) (path ++ neighbor ∷ []) results)

  unfoldable pub dfs : ℕ → String → List String → TokenPath → List TokenPath → List TokenPath
  dfs zero current visited path results = results
  dfs (suc left) current visited path results =
      let deeper = visit (dfs left) (lib.neighbors g current) visited path results in
      if current == target && ltb 1 (length path)
      then results ++ path ∷ []
      else if leb max_routes (length results)
      then results
      else deeper

-- `findAllPathsInGraph`
unfoldable pub find_all_paths_in_graph :
    (lib : Graphology) → ℕ → lib.Graph → String → String → ℕ → List TokenPath
find_all_paths_in_graph lib max_routes g start end max_hops =
    take max_routes
      (sort longer (dfs lib g end max_routes max_hops start (start ∷ []) (start ∷ []) []))
