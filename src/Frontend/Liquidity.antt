-- ===== src/Frontend/Liquidity.antt =====
-- frontend/src/app/features/liquidity/add-liquidity/add-liquidity.component.ts and
-- remove-liquidity/remove-liquidity.component.ts: the two pages over the store of pools and the wallet. The
-- functions of doubles and the text of an exception are parameters.
pub mod Modal
use Prim.Native.String.{◌++◌}
use soro_pool.Base.{
  ℕ, ◌==◌, String, Bool, true, false, ◌||◌, not, Option, none, some, List, [], ◌∷◌, Result, ok, err,
  ◌>>=◌, Error, if◌then◌else◌,
}
use soro_pool.Base.Int.{pos}
use soro_pool.Frontend.Pools.{
  PoolView, PoolsStore, load_pools, dispatch_pools, find_pool, symbol_or, pool_name,
}
use soro_pool.Frontend.SwapForm.{TxStep, review, signing, submitted, failed}
use soro_pool.Frontend.Wallet.{Wallets, WalletState, sign_transaction}
use soro_pool.Js.Number.{JsNumber}
use text.Mathlib.Text as T

-- The signals of a page that are about its transaction
pub record TxModal : Type 0 where
  pub is_open : Bool
  pub step : TxStep
  pub hash : String
  pub error : String
  pub details : List (String × String)

abbrev pub closed_modal : TxModal
closed_modal = record { is_open = false; step = review; hash = ""; error = ""; details = [] }

abbrev pub open_with : List (String × String) → TxModal → TxModal
open_with details m = record m { details = details; step = review; is_open = true }

-- `this.txStep.set('signing')`, in the buttons that confirm and that try again
unfoldable pub start_tx : TxModal → TxModal
start_tx m = record m { step = signing }

-- The wallet has answered; the hash is a random text.
unfoldable pub finish_tx : (Error → String) → String → Result String → TxModal → TxModal
finish_tx message random (ok signed) m = record m { step = submitted; hash = "0x" ++ random }
finish_tx message random (err e) m = record m { step = failed; error = message e }

-- `txModalOpen.set(false)`
abbrev pub close_modal : TxModal → TxModal
close_modal m = record m { is_open = false }

-- What `signTransaction` of the wallet service answers to the texts of the two pages
abbrev pub sign_add : Wallets → WalletState → Result String
sign_add w s = sign_transaction w s "placeholder-liquidity-xdr"

abbrev pub sign_remove : Wallets → WalletState → Result String
sign_remove w s = sign_transaction w s "placeholder-remove-xdr"

-- An empty text and 0 count as missing.
abbrev pub text_given : Option String → String → String
text_given none other = other
text_given (some text) other = if T.◌==◌ text "" then other else text

abbrev pub count_or : Option ℕ → ℕ → ℕ
count_or none other = other
count_or (some n) other = if n == 0 then other else n

module _ (num : JsNumber) (sqrt : num.Num → num.Num) (min : num.Num → num.Num → num.Num)
    (to_fixed : num.Num → ℕ → String) where
  open num use {Num, of_text, of_int, add, sub, mul, div, lt, le}

  -- `AddLiquidityComponent`
  pub record AddPage : Type 0 where
    pub pool_id : String
    pub amount_a : String
    pub amount_b : String
    pub modal : TxModal
    pub store : PoolsStore

  -- `ngOnInit`, with the parameter of the route
  unfoldable pub init_add : Option String → AddPage → Result AddPage
  init_add id p = dispatch_pools load_pools p.store >>= λ store.
      ok record p { pool_id = text_given id p.pool_id; store = store }

  unfoldable pub on_amount_a_change : String → AddPage → AddPage
  on_amount_a_change amount p = record p { amount_a = amount }

  unfoldable pub on_amount_b_change : String → AddPage → AddPage
  on_amount_b_change amount p = record p { amount_b = amount }

  -- `!x` for a number: 0 and NaN
  abbrev pub is_nothing : Num → Bool
  is_nothing x = not (lt (of_int (pos 0)) x || lt x (of_int (pos 0)))

  abbrev pub total_supply : PoolView → Num
  total_supply p = of_int (pos (count_or p.lp_count 1000))

  -- The branches of `lpTokensPreview` for a pool
  abbrev pub lp_for : PoolView → Num → Num → Num → Num → Num
  lp_for p a b r0 r1 =
      if le r0 (of_int (pos 0)) || le r1 (of_int (pos 0))
      then sub (sqrt (mul a b)) (of_int (pos 1000))
      else min (mul (div a r0) (total_supply p)) (mul (div b r1) (total_supply p))

  abbrev pub lp_preview_in : Option PoolView → Num → Num → Num
  lp_preview_in none a b = of_int (pos 0)
  lp_preview_in (some p) a b =
      if is_nothing a || is_nothing b
      then of_int (pos 0)
      else lp_for p a b (of_text (text_given p.reserve0 "1")) (of_text (text_given p.reserve1 "1"))

  -- The pool that a page shows
  abbrev pub pool_of : String → PoolsStore → Result (Option PoolView)
  pool_of id store = find_pool id store.state.pools

  -- `lpTokensPreview`
  unfoldable pub lp_tokens_preview : AddPage → Result Num
  lp_tokens_preview p = pool_of p.pool_id p.store >>= λ pool.
      ok (lp_preview_in pool (of_text p.amount_a) (of_text p.amount_b))

  abbrev pub share_in : Option PoolView → Num → String
  share_in none preview = "0"
  share_in (some p) preview =
      if is_nothing preview
      then "0"
      else to_fixed (mul (div preview (add (total_supply p) preview)) (of_int (pos 100))) 2

  -- `shareOfPool`
  unfoldable pub share_of_pool : AddPage → Result String
  share_of_pool p = pool_of p.pool_id p.store >>= λ pool.
      lp_tokens_preview p >>= λ preview. ok (share_in pool preview)

  abbrev pub add_details : AddPage → PoolView → Num → String → List (String × String)
  add_details p pool preview share =
      ("Pool", pool_name (some pool))
      ∷ (
        symbol_or pool.token0_symbol "Token A" ++ " Deposit",
        p.amount_a ++ " " ++ symbol_or pool.token0_symbol "",
      )
      ∷ (
        symbol_or pool.token1_symbol "Token B" ++ " Deposit",
        p.amount_b ++ " " ++ symbol_or pool.token1_symbol "",
      )
      ∷ ("Estimated LP Tokens", to_fixed preview 4)
      ∷ ("Share of Pool", share ++ "%")
      ∷ []

  abbrev pub review_add : Option PoolView → AddPage → Result AddPage
  review_add none p = ok p
  review_add (some pool) p = lp_tokens_preview p >>= λ preview. share_of_pool p >>= λ share.
      ok record p { modal = open_with (add_details p pool preview share) p.modal }

  -- `previewAddLiquidity`
  unfoldable pub preview_add_liquidity : AddPage → Result AddPage
  preview_add_liquidity p = pool_of p.pool_id p.store >>= λ pool. review_add pool p

  -- `RemoveLiquidityComponent`
  pub record RemovePage : Type 0 where
    pub pool_id : String
    pub percentage : Num
    pub modal : TxModal
    pub store : PoolsStore

  unfoldable pub init_remove : Option String → RemovePage → Result RemovePage
  init_remove id p = dispatch_pools load_pools p.store >>= λ store.
      ok record p { pool_id = text_given id p.pool_id; store = store }

  -- `previewA` and `previewB`, from the reserve
  abbrev pub part_of : Option String → Num → Num
  part_of reserve percentage =
      mul (of_text (text_given reserve "0")) (div percentage (of_int (pos 100)))

  abbrev pub remove_details :
      Num → (text_of_number : Num → String) → PoolView → List (String × String)
  remove_details percentage text_of_number pool =
      ("Pool", pool_name (some pool))
      ∷ ("Percentage", text_of_number percentage ++ "%")
      ∷ (
        symbol_or pool.token0_symbol "Token A" ++ " to Receive",
        to_fixed (part_of pool.reserve0 percentage) 4,
      )
      ∷ (
        symbol_or pool.token1_symbol "Token B" ++ " to Receive",
        to_fixed (part_of pool.reserve1 percentage) 4,
      )
      ∷ []

  abbrev pub review_remove : (Num → String) → Option PoolView → RemovePage → RemovePage
  review_remove text_of_number none p = p
  review_remove text_of_number (some pool) p = record p {
    modal = open_with (remove_details p.percentage text_of_number pool) p.modal;
  }

  -- `previewRemoveLiquidity`
  unfoldable pub preview_remove_liquidity : (Num → String) → RemovePage → Result RemovePage
  preview_remove_liquidity text_of_number p =
      pool_of p.pool_id p.store >>= λ pool. ok (review_remove text_of_number pool p)
