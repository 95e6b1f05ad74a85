-- ===== src/Tests/InTime.antt =====
-- A poll that begins before the stored ledger expires.
use soro_pool.Base.{
  ℕ, zero, suc, ◌≡◌, refl, sym, ap, ◌∙◌, Bool-cases, false, inl, inr, Option, none, some, [], ok,
  arith,
}
use soro_pool.Base.Int.{pos}
use soro_pool.Indexer.Events.{ProcessorState}
use soro_pool.Indexer.Ledgers.{fetch_latest_ledger}
use soro_pool.Indexer.Ledgers.Expired.{last_ledger_key, chain}
use soro_pool.Indexer.Ledgers.InTime.{
  NumbersKept, Held, InTime, poll, no_poll, polled, poll_ledgers-Held,
}
use soro_pool.Indexer.Payload.{Payload}
use soro_pool.Js.BigInt.{big_int, to_string}
use soro_pool.Js.BigInt.RoundTrip.{big_int-to_string}
use soro_pool.Redis.{default_ttl, Entry}
use soro_pool.Tests.Kept.{
  number_of_result, numbers_only, Server, put, client, works, empty, at_time, node, ledgers, nobody,
  config,
}
use mathlib.Core.Option.{some-injective}
use text.Mathlib.Text.{◌==◌}
use text.Mathlib.TextEquality.{eq_iff}

not_empty : (n : ℕ) → (to_string (pos n) == "") ≡ false
unfolding to_string big_int
not_empty zero = refl
not_empty (suc n) = elim (Bool-cases (to_string (pos (suc n)) == "")) [
  | inl is_empty ↦
      let none_there : ok (pos 0) ≡ ok (pos (suc n)) =
        ap big_int (sym ((eq_iff (to_string (pos (suc n))) "").0 is_empty))
        ∙ big_int-to_string (pos (suc n)) in
      cc none_there
  | inr full ↦ full
]

numbers_kept : NumbersKept numbers_only ledgers
numbers_kept = record {
  stores = λ n. record {
    no_text = refl;
    full = not_empty n;
    parses = ap number_of_result (big_int-to_string (pos n));
  };
  reads = λ n. refl;
}

abbrev held_entry : Entry
held_entry = record { text = to_string (pos 1_000_200); until = some 310 }

-- Ledger 1000200 is stored until time 310, and the poll begins at 300.
abbrev before : ProcessorState Payload Server
before = record { keys = []; outside = put last_ledger_key held_entry empty }

abbrev at_300 : Server
at_300 = at_time 300 before.outside

abbrev time_of : Option Entry → Option ℕ
time_of none = none
time_of (some entry) = entry.until

in_time : InTime numbers_only ledgers client (default_ttl none) node works before.outside at_300
in_time = record {
  same = refl;
  early = λ n until held.
      let same : ◌≡◌ {A = ℕ} 310 until = some-injective 310 until (ap time_of held) in
      omega (arith, same);
}

node_answers :
    (s : Server)
    → (fetch_latest_ledger (chain numbers_only ledgers client (default_ttl none) node) s).0
      ≡ ok 1_000_250
unfolding fetch_latest_ledger
node_answers s = refl

poll_ledgers-Held_example :
    Held numbers_only ledgers client
      (default_ttl none)
      node
      works
      (poll numbers_only ledgers client
        (default_ttl none)
        node
        works
        config
        nobody
        1
        []
        at_300).outside
      1_000_250
poll_ledgers-Held_example =
    poll_ledgers-Held numbers_only ledgers client (default_ttl none) node works config nobody 299
      refl numbers_kept 1_000_250 1_000_200 node_answers (310, refl) (omega arith) (omega arith)
      (omega arith) (polled 1 at_300 in_time no_poll)
