-- ===== src/Frontend/Wallet/Reached.antt =====
-- The states that the wallet service reaches.
use soro_pool.Base.{
  String, ◌≡◌, refl, inl, inr, Bool, true, false, Bool-cases, Option, none, some, Result, ok, err,
  no_wallet,
}
use soro_pool.Frontend.Wallet.{
  WalletType, freighter, albedo, xbull, WalletState, Wallets, initial, connected_to, adopt_some,
  adopt_reply, try_freighter, try_albedo, try_xbull, or_next, connect_third, connect_second,
  connect, disconnect, sign_with, sign_transaction,
}
use text.Mathlib.Text.{◌==◌}

-- A call of `connect` with any answers of the wallets, or of `disconnect`.
pub data Step : WalletState → WalletState → Type 0 where
  connects : {s : WalletState} (w : Wallets) → Step s (connect w s).1
  disconnects : {s : WalletState} → Step s (disconnect s)

pub data Reached : WalletState → Type 0 where
  start : Reached initial
  next : {s t : WalletState} → Reached s → Step s t → Reached t

-- The three signals agree.
pub data InStep : WalletState → Type 0 where
  off : InStep initial
  on : (type : WalletType) (key : String) → InStep (connected_to type key)

-- The service is connected, with this address.
abbrev pub Holds : String → WalletState → Type 0
Holds key s = (s.is_connected ≡ true) × (s.wallet_address ≡ some key)

-- A call leaves the signals in step, and a key that it gives is the address that they show.
abbrev Tried : WalletState → Option String × WalletState → Type 0
Tried s r = (InStep s → InStep r.1) × ((key : String) → r.0 ≡ some key → Holds key r.1)

none-Tried : (s : WalletState) → Tried s (none, s)
none-Tried s = (λ h. h, λ key e. cc)

some-Tried :
    (type : WalletType) (key : String) (s : WalletState) → Tried s (some key, connected_to type key)
some-Tried type key s = (λ h. on type key, λ other e. (refl, e))

adopt_some-Tried :
    (type : WalletType) (key : Option String) (s : WalletState) → Tried s (adopt_some type key s)
adopt_some-Tried type none s = none-Tried s
adopt_some-Tried type (some key) s = elim (Bool-cases (key == "")) [
  | inl empty ↦ rw empty (none-Tried s)
  | inr full ↦ rw full (some-Tried type key s)
]

adopt_reply-Tried :
    (type : WalletType) (reply : Option (Result (Option String))) (s : WalletState)
    → Tried s (adopt_reply type reply s)
adopt_reply-Tried type none s = none-Tried s
adopt_reply-Tried type (some (err e)) s = none-Tried s
adopt_reply-Tried type (some (ok key)) s = adopt_some-Tried type key s

freighter-Tried :
    (connected : Result Bool) (key : Result String) (s : WalletState)
    → Tried s (try_freighter connected key s)
unfolding try_freighter
freighter-Tried (err e) key s = none-Tried s
freighter-Tried (ok false) key s = none-Tried s
freighter-Tried (ok true) (ok key) s = some-Tried freighter key s
freighter-Tried (ok true) (err e) s = none-Tried s

or_next-Tried :
    (s : WalletState) (r : Option String × WalletState)
    (f : WalletState → Option String × WalletState)
    → Tried s r
    → ((t : WalletState) → Tried t (f t))
    → Tried s (or_next r f)
or_next-Tried s (none, t) f (keeps, holds) after = (λ h. (after t).0 (keeps h), (after t).1)
or_next-Tried s (some key, t) f (keeps, holds) after = elim (Bool-cases (key == "")) [
  | inl empty ↦ rw empty (λ h. (after t).0 (keeps h), (after t).1)
  | inr full ↦ rw full (keeps, holds)
]

third-Tried : (w : Wallets) (s : WalletState) → Tried s (connect_third w s)
unfolding try_xbull
third-Tried w s =
    or_next-Tried s (try_xbull w s) (λ t. (none, t)) (adopt_reply-Tried xbull w.xbull_key s)
      none-Tried

second-Tried : (w : Wallets) (s : WalletState) → Tried s (connect_second w s)
unfolding try_albedo
second-Tried w s =
    or_next-Tried s (try_albedo w s) (connect_third w) (adopt_reply-Tried albedo w.albedo_key s)
      (third-Tried w)

connect-Tried : (w : Wallets) (s : WalletState) → Tried s (connect w s)
unfolding connect
connect-Tried w s =
    or_next-Tried s (try_freighter w.freighter_connected w.freighter_key s) (connect_second w)
      (freighter-Tried w.freighter_connected w.freighter_key s) (second-Tried w)

-- A key that connect returns, in whatever state and whichever wallet gave it, is the address that the
-- service then shows, as connected.
pub connect-Holds :
    (w : Wallets) (s : WalletState) (key : String)
    → (connect w s).0 ≡ some key
    → Holds key (connect w s).1
connect-Holds w s key e = (connect-Tried w s).1 key e

-- In every state that calls of connect and disconnect reach from the first one, the three signals agree:
-- either all say that no wallet is connected, or there are an address and a type.
pub Reached-InStep : (s : WalletState) → Reached s → InStep s
unfolding disconnect
Reached-InStep _ start = off
Reached-InStep _ (next before (connects {s} w)) = (connect-Tried w s).0 (Reached-InStep s before)
Reached-InStep _ (next before (disconnects {s})) = off

unsigned :
    (w : Wallets) (s : WalletState) (xdr : String)
    → InStep s
    → s.is_connected ≡ false
    → sign_transaction w s xdr ≡ err no_wallet
unfolding sign_transaction sign_with
unsigned w _ xdr off off_now = refl
unsigned w _ xdr (on type key) off_now = cc

-- In a state that calls of connect and disconnect reach, signing throws that there is no wallet
-- where the service says that it is not connected.
pub sign_transaction-no_wallet :
    (w : Wallets) (s : WalletState) (xdr : String)
    → Reached s
    → s.is_connected ≡ false
    → sign_transaction w s xdr ≡ err no_wallet
sign_transaction-no_wallet w s xdr reached off_now =
    unsigned w s xdr (Reached-InStep s reached) off_now
