-- ===== src/Routing/Paths/Sound.antt =====
-- What the search for paths finds.
use soro_pool.Base.{
  ℕ, zero, suc, ◌+◌, ◌≤◌, ◌<◌, String, ◌≡◌, refl, sym, ap, ◌∙◌, true, false, ◌&&◌, List, [], ◌∷◌,
  ◌++◌, arith, leb, ltb, ltb→lt, length, length-append, length-take, All, All-append, All-take,
  Bool-cases, inl, inr,
}
use soro_pool.Js.Sort.{sort, All-sort, IsOrdered, IsOrdered-take, sort-IsOrdered}
use soro_pool.Routing.Graph.{Graphology}
use soro_pool.Routing.Paths.{TokenPath, contains, longer, visit, dfs, find_all_paths_in_graph}
use mathlib.Core.List.{Memᴰ, reverse, reverse-cons}
use mathlib.Core.Bool.{and-eq-true_iff}
use mathlib.Core.Path.{subst}
use text.Mathlib.Text.{◌==◌}
use text.Mathlib.TextEquality.{eq_iff}

All-Memᴰ_weaken :
    (x : String) (ns ms : List String) → All (λ n. Memᴰ n ms) ns → All (λ n. Memᴰ n (x ∷ ms)) ns
All-Memᴰ_weaken x [] ms h = tt
All-Memᴰ_weaken x (n ∷ ns) ms (m, h) = (Memᴰ.tail m, All-Memᴰ_weaken x ns ms h)

All-Memᴰ : (ns : List String) → All (λ n. Memᴰ n ns) ns
All-Memᴰ [] = tt
All-Memᴰ (n ∷ ns) = (Memᴰ.head refl, All-Memᴰ_weaken n ns ns (All-Memᴰ ns))

longer_asym : (a b : TokenPath) → longer a b ≡ true → longer b a ≡ false
longer_asym a b h = ground arith

longer_trans : (a b c : TokenPath) → longer a b ≡ false → longer b c ≡ false → longer a c ≡ false
longer_trans a b c h k = ground arith

module _ (lib : Graphology) (g : lib.Graph) where
  -- `Trail start end v`: from start to end by neighbors and without a repetition; v lists the
  -- tokens backwards.
  pub data Trail (start : String) : String → List String → Type 0 where
    begin : Trail start start (start ∷ [])
    step :
        {x y : String} {v : List String}
        → Trail start x v
        → Memᴰ y (lib.neighbors g x)
        → contains v y ≡ false
        → Trail start y (y ∷ v)

  -- A path from start to target along neighbors that repeats no token, with one hop at least and
  -- fewer than `max_hops` hops.
  pub record IsRoute (start target : String) (max_hops : ℕ) (p : TokenPath) : Type 0 where
    pub backwards : List String
    pub is_reverse : p ≡ reverse backwards
    pub trail : Trail start target backwards
    pub some_hop : 1 < length p
    pub few_hops : length p ≤ max_hops

  module _ (start target : String) (max_hops max_routes : ℕ) where
    abbrev Found : List TokenPath → Type 0
    Found = All (IsRoute start target max_hops)

    -- What one level of the search keeps.
    abbrev Keeps : ℕ → (String → List String → TokenPath → List TokenPath → List TokenPath) → Type 0
    Keeps left level =
        (x : String) (visited : List String) (path : TokenPath) (results : List TokenPath)
        → Trail start x visited
        → path ≡ reverse visited
        → length path + left ≡ suc max_hops
        → Found results
        → Found (level x visited path results)

    visit-All :
        (left : ℕ) (level : String → List String → TokenPath → List TokenPath → List TokenPath)
        (x : String) (ns visited : List String) (path : TokenPath) (results : List TokenPath)
        → Keeps left level
        → Trail start x visited
        → path ≡ reverse visited
        → length path + suc left ≡ suc max_hops
        → All (λ n. Memᴰ n (lib.neighbors g x)) ns
        → Found results
        → Found (visit lib g target max_routes level ns visited path results)
    unfolding visit
    visit-All left level x [] visited path results keep t e h near r = r
    visit-All left level x (n ∷ ns) visited path results keep t e h (m, near) r =
        elim (Bool-cases (contains visited n)) [
          | inl seen ↦ rw seen (visit-All left level x ns visited path results keep t e h near r)
          | inr fresh ↦ rw fresh (
              visit-All left level x ns visited path
                (level n (n ∷ visited) (path ++ n ∷ []) results) keep t e h near
                (keep n (n ∷ visited) (path ++ n ∷ []) results (step t m fresh)
                  (ap (λ q. q ++ n ∷ []) e ∙ sym (reverse-cons n visited))
                  (omega (arith, length-append path (n ∷ []), h)) r))
        ]

    dfs-All : (left : ℕ) → Keeps left (dfs lib g target max_routes left)
    unfolding dfs
    dfs-All zero x visited path results t e h r = r
    dfs-All (suc left) x visited path results t e h r =
        elim (Bool-cases (x == target && ltb 1 (length path))) [
          | inl arrived ↦
              let same : x ≡ target = (eq_iff x target).0 ((and-eq-true_iff _ _).0 arrived).0 in
              rw arrived (
                All-append (IsRoute start target max_hops) results (path ∷ []) r (
                  record {
                    backwards = visited;
                    is_reverse = e;
                    trail = subst (λ y. Trail start y visited) same t;
                    some_hop = ltb→lt 1 (length path) ((and-eq-true_iff _ _).0 arrived).1;
                    few_hops = omega arith;
                  },
                  tt,
                ))
          | inr onward ↦ rw onward (elim (Bool-cases (leb max_routes (length results))) [
            | inl full ↦ rw full r
            | inr room ↦ rw room (
                visit-All left (dfs lib g target max_routes left) x (lib.neighbors g x) visited path
                  results (dfs-All left) t e h (All-Memᴰ (lib.neighbors g x)) r)
          ])
        ]

  -- Every path that the search returns runs from start to target along neighbors, repeats no token,
  -- and has one hop at least and fewer than `max_hops` hops; there are `max_routes` paths at most,
  -- and none stands behind a longer one.
  pub find_all_paths_in_graph_sound :
      (start target : String) (max_hops max_routes : ℕ)
      → All
          (IsRoute start target max_hops)
          (find_all_paths_in_graph lib max_routes g start target max_hops)
        × (length (find_all_paths_in_graph lib max_routes g start target max_hops) ≤ max_routes)
        × IsOrdered longer (find_all_paths_in_graph lib max_routes g start target max_hops)
  unfolding find_all_paths_in_graph
  find_all_paths_in_graph_sound start target max_hops max_routes =
      let all = dfs lib g target max_routes max_hops start (start ∷ []) (start ∷ []) [] in
      (
        All-take (IsRoute start target max_hops) max_routes (sort longer all) (
            All-sort longer (IsRoute start target max_hops) all (
              dfs-All start target max_hops max_routes max_hops start (start ∷ []) (start ∷ []) []
                begin refl (omega arith) tt)),
        length-take max_routes (sort longer all),
        IsOrdered-take longer max_routes (sort longer all)
            (sort-IsOrdered longer longer_asym longer_trans all),
      )
