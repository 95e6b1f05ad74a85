-- ===== src/Requests.antt =====
-- The bodies that requests are checked against: backend/src/common/decorators, the bodies of
-- backend/src/modules/swap/dto/build-swap.dto.ts and backend/src/modules/pools/dto/create-pool.dto.ts, and
-- what the controllers do with them. The checks of class-validator are written as it documents them.
pub mod Checked
use Prim.Native.String.{◌++◌}
use soro_pool.Base.{
  ℕ, ◌==◌, String, Bool, true, false, not, ◌&&◌, ◌||◌, Option, none, some, List, [], ◌∷◌, Result,
  ok, err, bad_request, leb, length, throw_if, ◌>>=◌, ◌>>◌, if◌then◌else◌,
}
use soro_pool.Base.Int.{ℤ, pos}
use soro_pool.Js.BigInt.{big_int, codes}
use soro_pool.Js.Number.{JsNumber}
use soro_pool.Swap.{PoolQuote}
use soro_pool.Swap.Records.{SwapTransaction, build_swap_transaction}
use package.text.Mathlib.Text as T

abbrev pub is_ok : {A : Type 0} → Result A → Bool
is_ok (ok a) = true
is_ok (err e) = false

-- `[A-Z0-9]`
abbrev pub is_address_char : ℕ → Bool
is_address_char c = (leb b'A' c && leb c b'Z') || (leb b'0' c && leb c b'9')

abbrev pub every_address_char : List ℕ → Bool
every_address_char [] = true
every_address_char (c ∷ cs) = is_address_char c && every_address_char cs

-- `/^G[A-Z0-9]{55}$/`, on the codes of a text
abbrev pub is_address : List ℕ → Bool
is_address [] = false
is_address (c ∷ cs) = (c == b'G') && ((length cs == 55) && every_address_char cs)

module _ (js : JsNumber) (is_number : js.Num → Bool) where
  open js use {Num, of_text, of_int, le}

  -- A field of a body; undefined and null are missing. A quote is an object of which the amount is read.
  pub data Field : Type 0 where
    text : String → Field
    number : Num → Field
    object : PoolQuote js → Field
    missing other : Field

  -- `validate` of the decorator IsBigIntString
  unfoldable pub is_bigint_string : Field → Bool
  is_bigint_string (text s) = is_ok (big_int s)
  is_bigint_string (number x) = false
  is_bigint_string (object q) = false
  is_bigint_string missing = false
  is_bigint_string other = false

  -- `validate` of IsStellarAddress
  unfoldable pub is_stellar_address : Field → Bool
  is_stellar_address (text s) = is_address (codes s)
  is_stellar_address (number x) = false
  is_stellar_address (object q) = false
  is_stellar_address missing = false
  is_stellar_address other = false

  -- `validate` of MinSlippage, and of class-validator's Min
  unfoldable pub min_slippage : Num → Field → Bool
  min_slippage least (text s) = false
  min_slippage least (number x) = le least x
  min_slippage least (object q) = false
  min_slippage least missing = false
  min_slippage least other = false

  -- `validate` of MaxPriceImpact
  unfoldable pub max_price_impact : Num → Field → Bool
  max_price_impact most (text s) = false
  max_price_impact most (number x) = le x most
  max_price_impact most (object q) = false
  max_price_impact most missing = false
  max_price_impact most other = false

  -- `IsString`, `IsNumber` and `IsObject`, with what the field is then
  abbrev pub as_string : Field → Result String
  as_string (text s) = ok s
  as_string (number x) = err bad_request
  as_string (object q) = err bad_request
  as_string missing = err bad_request
  as_string other = err bad_request

  abbrev pub as_number : Field → Result Num
  as_number (text s) = err bad_request
  as_number (number x) = if is_number x then ok x else err bad_request
  as_number (object q) = err bad_request
  as_number missing = err bad_request
  as_number other = err bad_request

  abbrev pub as_object : Field → Result (PoolQuote js)
  as_object (text s) = err bad_request
  as_object (number x) = err bad_request
  as_object (object q) = ok q
  as_object missing = err bad_request
  as_object other = err bad_request

  abbrev pub demand : Bool → Result (Unit {0})
  demand holds = throw_if (not holds) bad_request

  -- The body of swap/build
  pub record BuildSwap : Type 0 where
    pub quote : Field
    pub user_address : Field
    pub slippage : Field
    pub deadline : Field

  -- The checks of `BuildSwapDto` beside the types of the fields
  unfoldable pub check_build_swap : BuildSwap → Result (Unit {0})
  check_build_swap body =
      demand (is_stellar_address body.user_address)
      >> demand (min_slippage (of_text "0.001") body.slippage)
      >> demand (max_price_impact (of_text "0.15") body.slippage)
      >> demand (min_slippage (of_int (pos 1)) body.deadline)

  -- `buildSwap` of the controller, behind the validation
  unfoldable pub build_swap : BuildSwap → Result (SwapTransaction js)
  build_swap body = do
    quote ← as_object body.quote
    user_address ← as_string body.user_address
    slippage ← as_number body.slippage
    deadline ← as_number body.deadline
    checked ← check_build_swap body
    build_swap_transaction js (some quote) user_address slippage deadline

  -- The body of pools/create
  pub record CreatePool : Type 0 where
    pub token_a : Field
    pub token_b : Field
    pub pool_type : Field
    pub fee_tier : Field
    pub amplification : Field
    pub tick_spacing : Field
    pub initial_sqrt_price : Field

  -- What the pool factory encodes in the transaction
  pub record CreatePoolTx : Type 0 where
    pub factory_address : String
    pub method : String
    pub args : String × String × Num
    pub network_passphrase : String
    pub pool_type_code : ℕ

  -- `{ constant_product: 0, stableswap: 1, concentrated: 2 }[params.poolType] ?? 0`
  abbrev pub pool_type_code_of : String → ℕ
  pool_type_code_of pool_type =
      if T.◌==◌ pool_type "stableswap" then 1 else if T.◌==◌ pool_type "concentrated" then 2 else 0

  -- `buildCreatePoolTx`, with the two configured texts
  unfoldable pub build_create_pool_tx :
      (factory passphrase token_a token_b pool_type : String) → Num → CreatePoolTx
  build_create_pool_tx factory passphrase token_a token_b pool_type fee_tier = record {
    factory_address = factory;
    method = "create_constant_product_pool";
    args = (token_a, token_b, fee_tier);
    network_passphrase = passphrase;
    pool_type_code = pool_type_code_of pool_type;
  }

  -- `@IsIn([...])`
  abbrev pub is_pool_type : String → Bool
  is_pool_type s = T.◌==◌ s "constant_product" || T.◌==◌ s "stableswap" || T.◌==◌ s "concentrated"

  abbrev pub is_given : Field → Bool
  is_given (text s) = true
  is_given (number x) = true
  is_given (object q) = true
  is_given missing = false
  is_given other = true

  -- `@IsOptional() @IsNumber() @Min(1)`
  abbrev pub optional_number : Field → Result (Unit {0})
  optional_number field =
      if is_given field then (do x ← as_number field; demand (le (of_int (pos 1)) x)) else ok tt

  abbrev pub optional_string : Field → Result (Unit {0})
  optional_string field = if is_given field then (do s ← as_string field; ok tt) else ok tt

  -- `createPool` of the controller, behind the validation by `CreatePoolDto`
  unfoldable pub create_pool : (factory passphrase : String) → CreatePool → Result CreatePoolTx
  create_pool factory passphrase body = do
    token_a ← as_string body.token_a
    token_b ← as_string body.token_b
    pool_type ← as_string body.pool_type
    fee_tier ← as_number body.fee_tier
    wallet_a ← demand (is_stellar_address body.token_a)
    wallet_b ← demand (is_stellar_address body.token_b)
    known ← demand (is_pool_type pool_type)
    positive ← demand (le (of_int (pos 1)) fee_tier)
    amplified ← optional_number body.amplification
    spaced ← optional_number body.tick_spacing
    priced ← optional_string body.initial_sqrt_price
    ok (build_create_pool_tx factory passphrase token_a token_b pool_type fee_tier)
