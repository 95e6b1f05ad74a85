-- ===== src/Tests/Fixtures.antt =====
-- Concrete numbers, a concrete graph and a concrete cache for the tests: whole numbers for doubles,
-- a list of edges for the graph, a cache that holds nothing.
use soro_pool.Base.{
  String, Bool, false, ◌||◌, none, List, [], ◌∷◌, ◌++◌, Result, ok, err, if◌then◌else◌,
}
use soro_pool.Base.Int.{ℤ, pos, ◌+ℤ◌, ◌-ℤ◌, ◌*ℤ◌, quot, ltb_ℤ, leb_ℤ}
use soro_pool.Js.BigInt.{big_int}
use soro_pool.Js.Number.{JsNumber}
use soro_pool.Routing.Action.{Action, pure}
use soro_pool.Routing.Graph.{Edge, Graphology}
use soro_pool.Routing.Quote.{QuoteCache}
use text.Mathlib.Text.{◌==◌}

abbrev pub int_or_zero : Result ℤ → ℤ
int_or_zero (ok z) = z
int_or_zero (err e) = pos 0

abbrev pub ints : JsNumber
ints = record {
  Num = ℤ;
  of_text = λ s. int_or_zero (big_int s);
  of_int = λ z. z;
  add = λ a b. a +ℤ b;
  sub = λ a b. a -ℤ b;
  mul = λ a b. a *ℤ b;
  div = λ a b. quot a b;
  lt = ltb_ℤ;
  abs = λ z. if ltb_ℤ z (pos 0) then pos 0 -ℤ z else z;
  le = leb_ℤ;
  floor = λ z. z;
  round = λ z. z;
}

abbrev pub targets_of : String → List Edge → List String
targets_of x [] = []
targets_of x (e ∷ es) = if e.source == x then e.target ∷ targets_of x es else targets_of x es

abbrev pub is_endpoint : String → List Edge → Bool
is_endpoint x [] = false
is_endpoint x (e ∷ es) = (e.source == x) || (e.target == x) || is_endpoint x es

abbrev pub edge_list : Graphology
edge_list = record {
  Graph = List Edge;
  new_graph = [];
  has_node = λ g x. is_endpoint x g;
  add_node = λ x g. ok g;
  add_edge_with_key =
      λ key a b p g. ok (g ++ record { key = key; source = a; target = b; attributes = p } ∷ []);
  nodes = λ g. [];
  edges = λ g. g;
  neighbors = λ g x. targets_of x g;
}

abbrev pub pool : String → String → String → Edge
pool id a b = record {
  key = id;
  source = a;
  target = b;
  attributes = record {
    pool_id = id;
    pool_type = "constant_product";
    token_in = a;
    token_out = b;
    reserve_in = "1000";
    reserve_out = "1000";
    fee_bps = pos 30;
    tvl_usd = "5";
  };
}

-- Two ways from A to B: direct, and over C.
abbrev pub triangle : List Edge
triangle = pool "ab" "A" "B" ∷ pool "ac" "A" "C" ∷ pool "cb" "C" "B" ∷ []

abbrev pub get_triangle : Action (Unit {0}) (List Edge)
get_triangle = pure triangle

abbrev pub no_cache : QuoteCache ints (Unit {0})
no_cache = record { get = λ key. pure none; set = λ key quote ttl. pure tt }
