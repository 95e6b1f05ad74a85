-- ===== src/Frontend/Liquidity/Modal.antt =====
-- What the pages of liquidity show of a transaction.
use soro_pool.Base.{
  ℕ, String, ◌≡◌, refl, sym, ap, ◌∙◌, true, false, Option, List, Result, ok, ◌>>=◌, Error,
  no_wallet,
}
use soro_pool.Frontend.Liquidity.{
  TxModal, start_tx, finish_tx, sign_add, sign_remove, RemovePage, review_remove,
  preview_remove_liquidity,
}
use soro_pool.Frontend.Pools.{
  PoolView, PoolsReply, PoolsStore, pools_of_reply, answer_pools, find_pool,
}
use soro_pool.Frontend.Pools.Replayed.{Sent, send_all, found_in, find_pool-send_all}
use soro_pool.Frontend.SwapForm.{failed}
use soro_pool.Frontend.Wallet.{Wallets, WalletState}
use soro_pool.Frontend.Wallet.Reached.{Reached, sign_transaction-no_wallet}
use soro_pool.Js.Number.{JsNumber}

-- Without a wallet that is connected, both pages end in the step of the error, with its message, and keep the
-- rest of the modal.
pub finish_tx-no_wallet :
    (message : Error → String) (w : Wallets) (s : WalletState) (random : String) (m : TxModal)
    → Reached s
    → s.is_connected ≡ false
    → (finish_tx message random (sign_add w s) (start_tx m)
        ≡ record m { step = failed; error = message no_wallet })
      × (finish_tx message random (sign_remove w s) (start_tx m)
          ≡ record m { step = failed; error = message no_wallet })
unfolding finish_tx start_tx
finish_tx-no_wallet message w s random m reached off = (
  rw (sign_transaction-no_wallet w s "placeholder-liquidity-xdr" reached off) refl,
  rw (sign_transaction-no_wallet w s "placeholder-remove-xdr" reached off) refl,
)

module _ (num : JsNumber) (sqrt : num.Num → num.Num) (min : num.Num → num.Num → num.Num)
    (to_fixed : num.Num → ℕ → String) (shown : num.Num → String) where
  -- Whatever the store goes through after the pools are answered, a preview of a removal names parts of the
  -- pool's last reserves: of its last update, or of the reply where there is none. It throws where the
  -- reply has no array.
  pub preview_remove_liquidity-replayed :
      (p : RemovePage num sqrt min to_fixed) (xs : List Sent) (reply : Result PoolsReply)
      (s : PoolsStore)
      → s.is_asked ≡ true
      → (answer_pools reply s >>= send_all xs) ≡ ok p.store
      → preview_remove_liquidity num sqrt min to_fixed shown p ≡ (
          found_in p.pool_id xs (pools_of_reply reply) >>= λ pool.
          ok (review_remove num sqrt min to_fixed shown pool p))
  unfolding preview_remove_liquidity
  preview_remove_liquidity-replayed p xs reply s asked stored =
      ap
        (λ (found : Result (Option PoolView)).
          found >>= λ pool. ok (review_remove num sqrt min to_fixed shown pool p))
        (ap (λ (r : Result PoolsStore). r >>= λ t. find_pool p.pool_id t.state.pools) (sym stored)
          ∙ find_pool-send_all p.pool_id xs reply s asked)
