-- ===== src/Frontend/Wallet.antt =====
-- frontend/src/app/core/services/wallet.service.ts: the connection to one of three wallets, and
-- signing. The wallets are parameters: what each answers at the time of a call.
pub mod Reached
pub mod View
use soro_pool.Base.{
  String, Bool, true, false, Option, none, some, Result, ok, err, no_wallet, if◌then◌else◌,
}
use soro_pool.Js.Text.{text_or, or_default}
use text.Mathlib.Text.{◌==◌}

pub data WalletType : Type 0 where
  freighter albedo xbull : WalletType

-- The three signals of the service
pub record WalletState : Type 0 where
  pub is_connected : Bool
  pub wallet_address : Option String
  pub wallet_type : Option WalletType

-- The reply of `albedo.tx`
pub record AlbedoReply : Type 0 where
  pub signed_envelope_xdr : Option String
  pub result : Option String

-- What the wallets answer. A method that the page does not have is none.
pub record Wallets : Type 0 where
  pub freighter_connected : Result Bool
  pub freighter_key : Result String
  pub albedo_key : Option (Result (Option String))
  pub xbull_key : Option (Result (Option String))
  pub freighter_sign : String → Result String
  pub albedo_tx : Option (String → Result AlbedoReply)
  pub xbull_sign : Option (String → Result String)

abbrev pub initial : WalletState
initial = record { is_connected = false; wallet_address = none; wallet_type = none }

-- The three signals set for a key
abbrev pub connected_to : WalletType → String → WalletState
connected_to type key = record {
  is_connected = true;
  wallet_address = some key;
  wallet_type = some type;
}

-- The state with the key, where a call gave one; what is thrown is only logged.
abbrev pub adopt_key : WalletType → Result String → WalletState → Option String × WalletState
adopt_key type (ok key) s = (some key, connected_to type key)
adopt_key type (err e) s = (none, s)

-- The same where the key may be missing or empty.
abbrev pub adopt_some : WalletType → Option String → WalletState → Option String × WalletState
adopt_some type none s = (none, s)
adopt_some type (some key) s = if key == "" then (none, s) else (some key, connected_to type key)

abbrev pub adopt_reply :
    WalletType → Option (Result (Option String)) → WalletState → Option String × WalletState
adopt_reply type none s = (none, s)
adopt_reply type (some (err e)) s = (none, s)
adopt_reply type (some (ok key)) s = adopt_some type key s

-- `tryFreighter`
unfoldable pub try_freighter :
    Result Bool → Result String → WalletState → Option String × WalletState
try_freighter (err e) key s = (none, s)
try_freighter (ok false) key s = (none, s)
try_freighter (ok true) key s = adopt_key freighter key s

-- `tryAlbedo`
unfoldable pub try_albedo : Wallets → WalletState → Option String × WalletState
try_albedo w s = adopt_reply albedo w.albedo_key s

-- `tryXBull`
unfoldable pub try_xbull : Wallets → WalletState → Option String × WalletState
try_xbull w s = adopt_reply xbull w.xbull_key s

-- `if (key) return key`, and else the next wallet in the state that is left
abbrev pub or_next :
    Option String × WalletState
    → (WalletState → Option String × WalletState)
    → Option String × WalletState
or_next (none, s) next = next s
or_next (some key, s) next = if key == "" then next s else (some key, s)

-- `connect` from the third wallet on, and from the second
abbrev pub connect_third : Wallets → WalletState → Option String × WalletState
connect_third w s = or_next (try_xbull w s) (λ t. (none, t))

abbrev pub connect_second : Wallets → WalletState → Option String × WalletState
connect_second w s = or_next (try_albedo w s) (connect_third w)

-- `connect`
unfoldable pub connect : Wallets → WalletState → Option String × WalletState
connect w s = or_next (try_freighter w.freighter_connected w.freighter_key s) (connect_second w)

-- `disconnect`
unfoldable pub disconnect : WalletState → WalletState
disconnect s = initial

abbrev pub reply_text : Result AlbedoReply → Result String
reply_text (ok reply) =
    ok (text_or (or_default reply.signed_envelope_xdr "") (or_default reply.result ""))
reply_text (err e) = err e

-- The branches of `signTransaction`
unfoldable pub sign_with : Wallets → String → Option WalletType → Result String
sign_with w xdr none = err no_wallet
sign_with w xdr (some freighter) = w.freighter_sign xdr
sign_with w xdr (some albedo) = elim w.albedo_tx [
  | none ↦ err no_wallet
  | some tx ↦ reply_text (tx xdr)
]
sign_with w xdr (some xbull) = elim w.xbull_sign [ none ↦ err no_wallet | some sign ↦ sign xdr ]

-- `signTransaction`
unfoldable pub sign_transaction : Wallets → WalletState → String → Result String
sign_transaction w s xdr = sign_with w xdr s.wallet_type
