-- ===== src/Indexer/Swaps/Stale.antt =====
-- What the swap indexer does to the quotes that are cached.
use Prim.Native.Char.{Char, code}
use Prim.Native.String.{◌++◌}
use text.Mathlib.TextLemmas.{
  nil-append, cons-append, append_assoc, head-eq_of_cons-eq, append_cancel_left,
}
use soro_pool.Base.{
  String, ◌≡◌, ◌≢◌, refl, sym, ap, ◌∙◌, Bool, true, false, Bool-cases, inl, inr, Option, none, some,
  Result, ok, err, ◌==◌, not, if◌then◌else◌,
}
use soro_pool.Indexer.Database.{Pool, SwapRow, PoolUpdate, Database}
use soro_pool.Indexer.Events.{IndexerEvent}
use soro_pool.Indexer.Liquidity.{swallow}
use soro_pool.Indexer.Payload.{Payload, field}
use soro_pool.Base.Int.{pos, ◌+ℤ◌, ◌/ℤ◌}
use soro_pool.Js.BigInt.{big_int}
use soro_pool.Indexer.Swaps.{
  fee_of, fee_text, estimate_usd_value, is_empty_swap, swap_row, token_in_is_token0, symbol_text,
  quote_pattern, delete_found, update_pool_volume, invalidate_quote_caches, store_swap, swap_on,
  index_swap,
}
use soro_pool.Js.Number.{JsNumber}
use soro_pool.Routing.Action.{Action, pure, proceed, lift, ◌>>=◌}
use text.Mathlib.Text as T
use soro_pool.Js.Text.{or_default, remove_first, text_or}
use soro_pool.Routing.Quote.{cache_key}

-- The text has no star.
abbrev Starless : String → Type 0
Starless String.[] = Unit
Starless (String.◌∷◌ c s) = ((code c == b'*') ≡ false) × Starless s

remove_first-append :
    (s t : String) → Starless s → remove_first b'*' (s ++ (String.◌∷◌ "*" t)) ≡ s ++ t
unfolding remove_first
remove_first-append String.[] t h = rw (nil-append (String.◌∷◌ "*" t), nil-append t) refl
remove_first-append (String.◌∷◌ c s) t (other, h) =
    rw (cons-append c s (String.◌∷◌ "*" t), cons-append c s t, other)
      (ap (λ (r : String). String.◌∷◌ c r) (remove_first-append s t h))

starred : (rest : String) → "quote:*:" ++ rest ≡ "quote:" ++ (String.◌∷◌ "*" (String.◌∷◌ ":" rest))
starred rest =
    append_assoc "quote:" "*:" rest
    ∙ ap (λ (r : String). "quote:" ++ r)
        (cons-append "*" ":" rest
          ∙ ap (λ (r : String). String.◌∷◌ "*" r)
              (cons-append ":" "" rest ∙ ap (λ (r : String). String.◌∷◌ ":" r) (nil-append rest)))

deleted_key :
    (a b : Option String)
    → remove_first b'*' (quote_pattern a b)
      ≡ "quote:" ++ (String.◌∷◌ ":" (symbol_text a ++ ":" ++ symbol_text b ++ ":*"))
deleted_key a b =
    let rest = symbol_text a ++ ":" ++ symbol_text b ++ ":*" in
    ap (remove_first b'*') (starred rest)
    ∙ remove_first-append "quote:" (String.◌∷◌ ":" rest)
        (refl, (refl, (refl, (refl, (refl, (refl, tt))))))

-- A key of quotes, for a token whose first character is no colon, is none of the keys that are deleted.
key_kept :
    (a b : Option String) (c : Char) (token token_out amount : String)
    → (code c == b':') ≡ false
    → cache_key (String.◌∷◌ c token) token_out amount ≢ remove_first b'*' (quote_pattern a b)
key_kept a b c token token_out amount other e =
    let rest = symbol_text a ++ ":" ++ symbol_text b ++ ":*" in
    let more = ":" ++ token_out ++ ":" ++ amount in
    let same =
      append_cancel_left "quote:" ((String.◌∷◌ c token) ++ more) (String.◌∷◌ ":" rest)
        (e ∙ deleted_key a b) in
    let first = head-eq_of_cons-eq (sym (cons-append c token more) ∙ same) in
    cc (ap (λ (d : Char). code d == b':') first)

graph_key :
    (token_in token_out amount : String) → cache_key token_in token_out amount ≢ "routing:graph"
graph_key token_in token_out amount e =
    let more = token_in ++ ":" ++ token_out ++ ":" ++ amount in
    let first = head-eq_of_cons-eq (sym (cons-append "q" "uote:" more) ∙ e) in
    let apart : ◌≡◌ {A = Bool} true false = ap (λ (d : Char). code d == b'q') first in cc apart

-- The texts that Redis keeps: every call but a deletion leaves them, and a deletion those of other keys,
-- whether it returns or throws.
pub record KeepsTexts {S : Type 0} (db : Database S) : Type 0 where
  pub text_at : S → String → Option String
  pub at_find : (a : String) (s : S) (k : String) → text_at (db.find_pool a s).1 k ≡ text_at s k
  pub at_save : (x : SwapRow) (s : S) (k : String) → text_at (db.save_swap x s).1 k ≡ text_at s k
  pub at_update :
      (p : String) (u : PoolUpdate) (s : S) (k : String)
      → text_at (db.update_pool p u s).1 k ≡ text_at s k
  pub at_get : (key : String) (s : S) (k : String) → text_at (db.redis_get key s).1 k ≡ text_at s k
  pub at_del :
      (key : String) (s : S) (k : String) → k ≢ key → text_at (db.redis_del key s).1 k ≡ text_at s k

module _ (num : JsNumber) (show : num.Num → String) {S : Type 0} (db : Database S)
    (texts : KeepsTexts db) (c : Char) (token token_out amount : String)
    (other : (code c == b':') ≡ false) where
  open texts use {text_at, at_find, at_save, at_update, at_get, at_del}

  abbrev key : String
  key = cache_key (String.◌∷◌ c token) token_out amount

  -- The text of the key is as before.
  record Keeps {A : Type 0} (m : Action S A) : Type 0 where
    kept : (s : S) → text_at (m s).1 key ≡ text_at s key

  proceed_text :
      {A B : Type 0} (r : Result A × S) (f : A → Action S B)
      → ((a : A) → Keeps (f a))
      → text_at (proceed f r).1 key ≡ text_at r.1 key
  proceed_text (ok a, t) f after = (after a).kept t
  proceed_text (err e, t) f after = refl

  bind-Keeps :
      {A B : Type 0} {m : Action S A} {f : A → Action S B}
      → Keeps m
      → ((a : A) → Keeps (f a))
      → Keeps (m >>= f)
  bind-Keeps {m} {f} before after = record {
    kept = λ s. proceed_text (m s) f after ∙ before.kept s;
  }

  lift-Keeps : {A : Type 0} (r : Result A) → Keeps (lift r)
  lift-Keeps r = record { kept = λ s. refl }

  after_lift :
      {A B : Type 0} (r : Result A) {f : A → Action S B}
      → ((a : A) → Keeps (f a))
      → Keeps (lift r >>= f)
  after_lift r after = bind-Keeps (lift-Keeps r) after

  pure-Keeps : Keeps (pure {S = S} (tt {0}))
  pure-Keeps = record { kept = λ s. refl }

  delete_found-Keeps :
      (a b : Option String) (found : Option String)
      → Keeps (delete_found num show db (remove_first b'*' (quote_pattern a b)) found)
  delete_found-Keeps a b none = record { kept = λ s. refl }
  delete_found-Keeps a b (some text) = elim (Bool-cases (T.◌==◌ text "")) [
    | inl empty ↦ rw empty (record { kept = λ s. refl })
    | inr full ↦
        rw full record { kept = λ s. at_del _ s key (key_kept a b c token token_out amount other) }
  ]

  swallow-Keeps : {m : Action S (Unit {0})} → Keeps m → Keeps (swallow m)
  swallow-Keeps before = record { kept = before.kept }

  invalidate-Keeps :
      (a b : Option String) → Keeps (invalidate_quote_caches num show db (quote_pattern a b))
  unfolding invalidate_quote_caches
  invalidate-Keeps a b =
      let deleted = remove_first b'*' (quote_pattern a b) in
      let gets : Keeps (db.redis_get deleted) = record { kept = λ s. at_get deleted s key } in
      let dels : Keeps (db.redis_del "routing:graph") = record {
        kept = λ s. at_del "routing:graph" s key (graph_key (String.◌∷◌ c token) token_out amount);
      } in
      bind-Keeps (swallow-Keeps (bind-Keeps gets (delete_found-Keeps a b))) (λ done. dels)

  volume-Keeps :
      (in_usd out_usd amount_in : String) (pool : Pool)
      → Keeps (update_pool_volume num show db in_usd out_usd amount_in pool)
  unfolding update_pool_volume
  volume-Keeps in_usd out_usd amount_in pool = after_lift (big_int (text_or in_usd "0")) λ x.
      after_lift (big_int (text_or out_usd "0")) λ y. after_lift ((x +ℤ y) /ℤ pos 2) λ half.
        after_lift (big_int (text_or pool.volume24h_usd "0")) λ volume24h.
          after_lift (big_int amount_in) λ amount. after_lift (fee_of amount pool.fee_bps) λ fee.
            after_lift (big_int (text_or pool.fee_revenue24h "0"))
              λ fees24h. record { kept = λ s. at_update _ _ s key }

  save-Keeps : (row : SwapRow) → Keeps (db.save_swap row)
  save-Keeps row = record { kept = λ s. at_save row s key }

  store-Keeps :
      (event : IndexerEvent Payload) (pool : Pool) (amount_in amount_out : String)
      → Keeps (store_swap num show db event pool amount_in amount_out)
  unfolding store_swap
  store-Keeps event pool amount_in amount_out =
      let from0 = token_in_is_token0 event.payload pool in
      after_lift (estimate_usd_value num show amount_in pool from0) λ in_usd.
        after_lift (estimate_usd_value num show amount_out pool (not from0)) λ out_usd.
          after_lift (fee_text amount_in pool.fee_bps) λ fee.
            bind-Keeps
              (save-Keeps
                (swap_row num show db event pool from0 amount_in amount_out in_usd out_usd fee))
              λ saved.
                bind-Keeps {m = update_pool_volume num show db in_usd out_usd amount_in pool}
                  (volume-Keeps in_usd out_usd amount_in pool)
                  λ raised.
                    bind-Keeps
                      {m = invalidate_quote_caches num show db
                        (quote_pattern pool.token0_symbol pool.token1_symbol)}
                      (invalidate-Keeps pool.token0_symbol pool.token1_symbol)
                      (λ there. invalidate-Keeps pool.token1_symbol pool.token0_symbol)

  stored_or_not : (b : Bool) {m : Action S (Unit {0})} → Keeps m → Keeps (if b then pure tt else m)
  stored_or_not true before = pure-Keeps
  stored_or_not false before = before

  swap_on-Keeps :
      (event : IndexerEvent Payload) (pool : Option Pool) → Keeps (swap_on num show db event pool)
  unfolding swap_on
  swap_on-Keeps event none = record { kept = λ s. refl }
  swap_on-Keeps event (some pool) =
      let amount_in = or_default (field event.payload "amountIn") "0" in
      let amount_out = or_default (field event.payload "amountOut") "0" in
      after_lift (is_empty_swap amount_in amount_out)
        (λ empty. stored_or_not empty (store-Keeps event pool amount_in amount_out))

  -- Indexing a swap drops no quote from the cache: whatever the event and the tables are, and whether Redis
  -- returns or throws, the text that is cached for an amount of a token whose name does not begin
  -- with a colon is there as before.
  pub index_swap-cache_key :
      (event : IndexerEvent Payload) (s : S)
      → text_at (index_swap num show db event s).1 (cache_key (String.◌∷◌ c token) token_out amount)
        ≡ text_at s (cache_key (String.◌∷◌ c token) token_out amount)
  unfolding index_swap
  index_swap-cache_key event s =
      let finds : Keeps
          (db.find_pool (or_default (field event.payload "poolAddress") event.tx_hash)) =
        record { kept = λ t. at_find _ t key } in
      (swallow-Keeps (bind-Keeps finds (swap_on-Keeps event))).kept s
