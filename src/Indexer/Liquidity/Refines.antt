-- ===== src/Indexer/Liquidity/Refines.antt =====
-- That the liquidity indexer credits and debits accounts, where the columns of the tables keep texts.
use soro_pool.Base.{
  String, ◌≡◌, ◌≢◌, ◌⊎◌, refl, sym, ap, ◌∙◌, false, some, Result, ok, Bool-cases, inl, inr,
}
use soro_pool.Base.Int.{ℤ, pos, ltb_ℤ}
use soro_pool.Indexer.Account.{
  Account, Shows, NotNegative, at_least_zero, credit, debit, debit-credit,
}
use soro_pool.Indexer.Database.{
  Pool, LpPosition, liquidity, updated, Database, DatabaseWorks, VerbatimColumns,
}
use soro_pool.Indexer.Events.{IndexerEvent}
use soro_pool.Indexer.Payload.{Payload, field}
use soro_pool.Indexer.Liquidity.{
  wallet_of, ignored, or_zero_text, index_mint, index_burn, mint_on, burn_on, index_liquidity,
}
use soro_pool.Indexer.Liquidity.Effect.{
  Amounts, with_reserves, mint_on-runs, burn_on-runs, index_liquidity-runs,
}
use soro_pool.Js.BigInt.{big_int, to_string}
use soro_pool.Js.BigInt.RoundTrip.{big_int-to_string}
use soro_pool.Js.Text.{or_default}
use soro_pool.Routing.Action.{Action}
use mathlib.Core.Path.{subst}

abbrev pub address_of : Payload → String
address_of payload = or_default (field payload "poolAddress") ""

-- The event has these amounts, and is not passed over.
pub record Moves (event : IndexerEvent Payload) (a b : ℤ) : Type 0 where
  pub reads_a : big_int (or_default (field event.payload "amountA") "0") ≡ ok a
  pub reads_b : big_int (or_default (field event.payload "amountB") "0") ≡ ok b
  pub counts : ignored a b (wallet_of event.payload) ≡ false

read_or_zero : (x : ℤ) → big_int (or_zero_text x) ≡ ok (at_least_zero x)
unfolding to_string
read_or_zero x = elim (Bool-cases (ltb_ℤ (pos 0) x)) [
  | inl above ↦ rw above (big_int-to_string x)
  | inr below ↦ rw below (big_int-to_string (pos 0))
]

module _ {S : Type 0} (db : Database S) (works : DatabaseWorks db)
    (columns : VerbatimColumns works) where
  open works use {pool_at, position_at, put_position, pool_put, position_kept, position_update}
  open columns use {position_put, pool_update}

  -- Storing a position and new reserves, as both indexers do.
  stored-Shows :
      (s : S) (address : String) (pool : Pool) (q : LpPosition) (r0 r1 : String) (x : Account)
      → pool_at s address ≡ some pool
      → big_int r0 ≡ ok x.reserve0
      → big_int r1 ≡ ok x.reserve1
      → Amounts q x.tokens x.deposit0 x.deposit1
      → q.pool_id ≡ pool.id
      → Shows db works
          (with_reserves db works pool r0 r1 (put_position q s))
          address
          pool.id
          q.wallet_address
          x
  stored-Shows s address pool q r0 r1 x found e_0 e_1 (e_t, e_d0, e_d1) same = record {
    pool = updated (liquidity r0 r1 (works.positions (put_position q s) pool.id)) pool;
    position = q;
    found = pool_update _ _ address (pool_put q s address ∙ found);
    same_id = refl;
    held =
        position_update _ _ _ _ _
        ∙ ap (position_at (put_position q s) q.wallet_address) (sym same)
        ∙ position_put q s;
    wallet_is = refl;
    pool_is = same;
    reads0 = e_0;
    reads1 = e_1;
    reads_tokens = e_t;
    reads_deposit0 = e_d0;
    reads_deposit1 = e_d1;
  }

  -- All positions but one are as they were.
  abbrev pub OthersKept : S → S → String → String → Type 0
  OthersKept s u wallet id =
      (w p : String) → (w ≢ wallet) ⊎ (p ≢ id) → position_at u w p ≡ position_at s w p

  -- What an event leaves behind: it never throws, the account is x, all other positions are kept.
  abbrev pub Leaves : S → Result (Unit {0}) × S → String → String → String → Account → Type 0
  Leaves s r address id wallet x =
      (r.0 ≡ ok tt) × Shows db works r.1 address id wallet x × OthersKept s r.1 wallet id

  stored-Leaves :
      (s : S) (address : String) (pool : Pool) (q : LpPosition) (r0 r1 : String) (x : Account)
      → pool_at s address ≡ some pool
      → big_int r0 ≡ ok x.reserve0
      → big_int r1 ≡ ok x.reserve1
      → Amounts q x.tokens x.deposit0 x.deposit1
      → q.pool_id ≡ pool.id
      → Leaves s
          (ok tt, with_reserves db works pool r0 r1 (put_position q s))
          address
          pool.id
          q.wallet_address
          x
  stored-Leaves s address pool q r0 r1 x found e_0 e_1 amounts same = (
    refl,
    stored-Shows s address pool q r0 r1 x found e_0 e_1 amounts same,
    λ w p other.
        position_update _ _ _ w p
        ∙ position_kept q s w p (subst (λ i. (w ≢ q.wallet_address) ⊎ (p ≢ i)) (sym same) other),
  )

  -- A run that stores a position of the wallet and new reserves leaves the account that they read as.
  run-Leaves :
      (s : S) (address id wallet : String) (x y : Account) (q : LpPosition) (r0 r1 : String)
      (sh : Shows db works s address id wallet x) (m : Action S Unit)
      → m s ≡ (ok tt, with_reserves db works sh.pool r0 r1 (put_position q s))
      → q.wallet_address ≡ wallet
      → q.pool_id ≡ id
      → big_int r0 ≡ ok y.reserve0
      → big_int r1 ≡ ok y.reserve1
      → Amounts q y.tokens y.deposit0 y.deposit1
      → Leaves s (ok tt, (m s).1) address id wallet y
  run-Leaves s address id wallet x y q r0 r1 sh m runs e_w e_p e_0 e_1 amounts =
      let left =
        stored-Leaves s address sh.pool q r0 r1 y sh.found e_0 e_1 amounts (e_p ∙ sym sh.same_id) in
      let r : Result (Unit {0}) × S =
        (ok tt, with_reserves db works sh.pool r0 r1 (put_position q s)) in
      let with_id = subst (λ i. Leaves s r address i q.wallet_address y) sh.same_id left in
      let with_wallet = subst (λ w. Leaves s r address id w y) e_w with_id in
      subst (λ u. Leaves s (ok tt, u) address id wallet y) (sym (ap (λ r. r.1) runs)) with_wallet

  module _ (event : IndexerEvent Payload) (a b : ℤ) (moves : Moves event a b) where
    -- A run of a handler on a pool and a position that the tables show is the run of its body.
    reaches :
        (act : Pool → String → ℤ → ℤ → Action S Unit) (s : S) (id : String) (x : Account)
        (sh : Shows db works s (address_of event.payload) id (wallet_of event.payload) x)
        → index_liquidity db act event s ≡ act sh.pool (wallet_of event.payload) a b s
    reaches act s id x sh =
        index_liquidity-runs db works act event sh.pool a b s sh.found moves.reads_a moves.reads_b
          moves.counts

    -- Where the columns keep texts: after a mint event with the amounts a and b, on a pool and for a wallet that the tables show, the
    -- tables show the account with a and b credited, every other position is as before, and the indexer
    -- does not throw.
    pub index_mint-credits :
        (s : S) (id : String) (x : Account)
        → Shows db works s (address_of event.payload) id (wallet_of event.payload) x
        → Leaves s
            (index_mint db event s)
            (address_of event.payload)
            id
            (wallet_of event.payload)
            (credit a b x)
    unfolding index_mint credit
    index_mint-credits s id x sh =
        let w = wallet_of event.payload in
        let here : position_at s w sh.pool.id ≡ some sh.position =
          ap (position_at s w) sh.same_id ∙ sh.held in
        let runs =
          reaches (mint_on db) s id x sh
          ∙ mint_on-runs db works sh.pool w a b sh.position s here
              (sh.reads_tokens, sh.reads_deposit0, sh.reads_deposit1) sh.reads0 sh.reads1 in
        run-Leaves s _ id w x (credit a b x) _ _ _ sh (index_liquidity db (mint_on db) event) runs
          sh.wallet_is sh.pool_is (big_int-to_string _) (big_int-to_string _)
          (big_int-to_string _, big_int-to_string _, big_int-to_string _)

    -- Where the columns keep texts: after a burn event with the amounts a and b, on a pool and for a wallet that the tables show, the
    -- tables show the account with a and b debited, every other position is as before, and the indexer
    -- does not throw.
    pub index_burn-debits :
        (s : S) (id : String) (x : Account)
        → Shows db works s (address_of event.payload) id (wallet_of event.payload) x
        → Leaves s
            (index_burn db event s)
            (address_of event.payload)
            id
            (wallet_of event.payload)
            (debit a b x)
    unfolding index_burn debit
    index_burn-debits s id x sh =
        let w = wallet_of event.payload in
        let here : position_at s w sh.pool.id ≡ some sh.position =
          ap (position_at s w) sh.same_id ∙ sh.held in
        let runs =
          reaches (burn_on db) s id x sh
          ∙ burn_on-runs db works sh.pool w a b sh.position s here
              (sh.reads_tokens, sh.reads_deposit0, sh.reads_deposit1) sh.reads0 sh.reads1 in
        run-Leaves s _ id w x (debit a b x) _ _ _ sh (index_liquidity db (burn_on db) event) runs
          sh.wallet_is sh.pool_is (read_or_zero _) (read_or_zero _)
          (read_or_zero _, big_int-to_string _, big_int-to_string _)

  module _ (mint burn : IndexerEvent Payload) (a b : ℤ) (moves : Moves mint a b)
      (back : Moves burn a b) where
    -- Where the columns keep texts: after a mint event and then a burn event of the same amounts, of the same wallet in the same pool, whose
    -- reserves and tokens are not negative: the account is what it was, all other positions are as they
    -- were, and neither handler throws.
    pub index_burn-index_mint :
        (s : S) (id : String) (x : Account)
        → Shows db works s (address_of mint.payload) id (wallet_of mint.payload) x
        → address_of burn.payload ≡ address_of mint.payload
        → wallet_of burn.payload ≡ wallet_of mint.payload
        → NotNegative x
        → Leaves s
            (index_burn db burn (index_mint db mint s).1)
            (address_of mint.payload)
            id
            (wallet_of mint.payload)
            x
    index_burn-index_mint s id x sh same_address same_wallet ok_x =
        let (_, shown, kept) = index_mint-credits mint a b moves s id x sh in
        let u = (index_mint db mint s).1 in
        let shown2 =
          subst (λ w. Shows db works u (address_of burn.payload) id w (credit a b x))
            (sym same_wallet)
            (subst (λ p. Shows db works u p id (wallet_of mint.payload) (credit a b x))
              (sym same_address) shown) in
        let (e, after, kept2) = index_burn-debits burn a b back u id (credit a b x) shown2 in
        let v = (index_burn db burn u).1 in
        (
          e,
          subst (λ y. Shows db works v (address_of mint.payload) id (wallet_of mint.payload) y)
              (debit-credit a b x ok_x)
              (subst
                (λ w. Shows db works v (address_of mint.payload) id w (debit a b (credit a b x)))
                same_wallet
                (subst
                  (λ p. Shows db works v p id (wallet_of burn.payload) (debit a b (credit a b x)))
                  same_address after)),
          λ w p other.
              kept2 w p (subst (λ z. (w ≢ z) ⊎ (p ≢ id)) (sym same_wallet) other) ∙ kept w p other,
        )
