-- ===== src/Indexer/Account.antt =====
-- What the tables say of one wallet in one pool, as numbers: the abstract view of the liquidity
-- indexer.
use soro_pool.Base.{
  String, ◌≡◌, refl, sym, false, Bool-cases, inl, inr, arith, some, ok, if◌then◌else◌,
}
use soro_pool.Base.Int.{ℤ, pos, negsuc, ◌+ℤ◌, ◌-ℤ◌, ltb_ℤ, sub_add}
use soro_pool.Indexer.Database.{Pool, LpPosition, Database, DatabaseWorks}
use soro_pool.Js.BigInt.{big_int}

-- The reserves of the pool, and the wallet's tokens and deposits in it.
pub record Account : Type 0 where
  pub reserve0 : ℤ
  pub reserve1 : ℤ
  pub tokens : ℤ
  pub deposit0 : ℤ
  pub deposit1 : ℤ

abbrev pub at_least_zero : ℤ → ℤ
at_least_zero x = if ltb_ℤ (pos 0) x then x else pos 0

-- A deposit of a and b, with a for the tokens.
unfoldable pub credit : ℤ → ℤ → Account → Account
credit a b x = record {
  reserve0 = x.reserve0 +ℤ a;
  reserve1 = x.reserve1 +ℤ b;
  tokens = x.tokens +ℤ a;
  deposit0 = x.deposit0 +ℤ a;
  deposit1 = x.deposit1 +ℤ b;
}

-- A withdrawal: the reserves and the tokens stop at 0, the deposits do not.
unfoldable pub debit : ℤ → ℤ → Account → Account
debit a b x = record {
  reserve0 = at_least_zero (x.reserve0 -ℤ a);
  reserve1 = at_least_zero (x.reserve1 -ℤ b);
  tokens = at_least_zero (x.tokens -ℤ a);
  deposit0 = x.deposit0 -ℤ a;
  deposit1 = x.deposit1 -ℤ b;
}

-- The reserves and the tokens are not negative.
pub record NotNegative (x : Account) : Type 0 where
  pub reserve0_pos : ltb_ℤ x.reserve0 (pos 0) ≡ false
  pub reserve1_pos : ltb_ℤ x.reserve1 (pos 0) ≡ false
  pub tokens_pos : ltb_ℤ x.tokens (pos 0) ≡ false

is_zero : (x : ℤ) → ltb_ℤ x (pos 0) ≡ false → ltb_ℤ (pos 0) x ≡ false → x ≡ pos 0
is_zero (pos n) h k = ground arith
is_zero (negsuc n) h k = ground arith

at_least_zero-sub : (x a : ℤ) → ltb_ℤ x (pos 0) ≡ false → at_least_zero ((x +ℤ a) -ℤ a) ≡ x
at_least_zero-sub x a h = rw (sub_add x a) (elim (Bool-cases (ltb_ℤ (pos 0) x)) [
  | inl above ↦ rw above refl
  | inr below ↦ rw below (sym (is_zero x h below))
])

pub debit-credit : (a b : ℤ) (x : Account) → NotNegative x → debit a b (credit a b x) ≡ x
unfolding credit debit
debit-credit a b x h =
    rw
      (
        at_least_zero-sub x.reserve0 a h.reserve0_pos,
        at_least_zero-sub x.reserve1 b h.reserve1_pos,
        at_least_zero-sub x.tokens a h.tokens_pos,
        sub_add x.deposit0 a,
        sub_add x.deposit1 b,
      )
      refl

module _ {S : Type 0} (db : Database S) (works : DatabaseWorks db) where
  -- The tables hold the account, in the pool with the address and the id.
  pub record Shows (s : S) (address id wallet : String) (x : Account) : Type 0 where
    pub pool : Pool
    pub position : LpPosition
    pub found : works.pool_at s address ≡ some pool
    pub same_id : pool.id ≡ id
    pub held : works.position_at s wallet id ≡ some position
    pub wallet_is : position.wallet_address ≡ wallet
    pub pool_is : position.pool_id ≡ id
    pub reads0 : big_int pool.reserve0 ≡ ok x.reserve0
    pub reads1 : big_int pool.reserve1 ≡ ok x.reserve1
    pub reads_tokens : big_int position.lp_token_amount ≡ ok x.tokens
    pub reads_deposit0 : big_int position.token0_deposited ≡ ok x.deposit0
    pub reads_deposit1 : big_int position.token1_deposited ≡ ok x.deposit1
