-- ===== src/Frontend/Wallet/View.antt =====
-- The wallet service as its callers see it: at most one wallet, with its key.
use soro_pool.Base.{
  String, ◌≡◌, refl, Bool, true, false, Bool-cases, inl, inr, Option, none, some, List, [], ◌∷◌,
  Result, ok, err, if◌then◌else◌,
}
use soro_pool.Frontend.Wallet.{
  WalletType, freighter, albedo, xbull, WalletState, Wallets, connected_to, adopt_reply,
  try_freighter, try_albedo, try_xbull, or_next, connect_third, connect_second, connect,
}
use text.Mathlib.Text.{◌==◌}

-- The wallet that is connected, with its key
abbrev pub Connection : Type 0
Connection = WalletType × String

-- What a state shows, whether its signals are in step or not.
abbrev pub shown : Option WalletType → Option String → Option Connection
shown none key = none
shown (some type) none = none
shown (some type) (some key) = some (type, key)

abbrev pub view : WalletState → Option Connection
view s = shown s.wallet_type s.wallet_address

-- The key that a wallet answers with, where it answers.
abbrev pub freighter_answer : Result Bool → Result String → Option String
freighter_answer (ok true) (ok key) = some key
freighter_answer (ok true) (err e) = none
freighter_answer (ok false) key = none
freighter_answer (err e) key = none

abbrev pub reply_answer : Option (Result (Option String)) → Option String
reply_answer none = none
reply_answer (some (err e)) = none
reply_answer (some (ok key)) = key

abbrev pub answers : Wallets → List (WalletType × Option String)
answers w =
    (freighter, freighter_answer w.freighter_connected w.freighter_key)
    ∷ (albedo, reply_answer w.albedo_key)
    ∷ (xbull, reply_answer w.xbull_key)
    ∷ []

-- The first wallet with a key that is not empty
unfoldable pub first_key : List (WalletType × Option String) → Option Connection
first_key [] = none
first_key ((type, none) ∷ rest) = first_key rest
first_key ((type, some key) ∷ rest) =
    let later = first_key rest in if key == "" then later else some (type, key)

abbrev pub or_else : {A : Type 0} → Option A → Option A → Option A
or_else none other = other
or_else (some a) other = some a

-- The connection to Freighter with the key that it answers, empty or not.
abbrev pub to_freighter : Option String → Option Connection
to_freighter none = none
to_freighter (some key) = some (freighter, key)

abbrev pub key_of : Option Connection → Option String
key_of none = none
key_of (some connection) = some connection.1

-- What is left of a call: the key, and what the state shows.
abbrev Leaves : Option Connection → Option Connection → Option String × WalletState → Type 0
Leaves found fallback r = (r.0 ≡ key_of found) × (view r.1 ≡ or_else found fallback)

reply-Leaves :
    (type : WalletType) (reply : Option (Result (Option String))) (s : WalletState)
    (rest : List (WalletType × Option String)) (next : WalletState → Option String × WalletState)
    → ((t : WalletState) → Leaves (first_key rest) (view t) (next t))
    → Leaves
        (first_key ((type, reply_answer reply) ∷ rest))
        (view s)
        (or_next (adopt_reply type reply s) next)
unfolding first_key
reply-Leaves type none s rest next goes = goes s
reply-Leaves type (some (err e)) s rest next goes = goes s
reply-Leaves type (some (ok none)) s rest next goes = goes s
reply-Leaves type (some (ok (some key))) s rest next goes = elim (Bool-cases (key == "")) [
  | inl empty ↦ rw empty (goes s)
  | inr full ↦ rw (full, full) (refl, refl)
]

third-Leaves :
    (w : Wallets) (s : WalletState)
    → Leaves (first_key ((xbull, reply_answer w.xbull_key) ∷ [])) (view s) (connect_third w s)
unfolding try_xbull first_key
third-Leaves w s = reply-Leaves xbull w.xbull_key s [] (λ t. (none, t)) (λ t. (refl, refl))

second-Leaves :
    (w : Wallets) (s : WalletState)
    → Leaves
        (first_key ((albedo, reply_answer w.albedo_key) ∷ (xbull, reply_answer w.xbull_key) ∷ []))
        (view s)
        (connect_second w s)
unfolding try_albedo
second-Leaves w s =
    reply-Leaves albedo w.albedo_key s ((xbull, reply_answer w.xbull_key) ∷ []) (connect_third w)
      (third-Leaves w)

freighter-Leaves :
    (connected : Result Bool) (key : Result String) (s : WalletState)
    (rest : List (WalletType × Option String)) (next : WalletState → Option String × WalletState)
    → ((t : WalletState) → Leaves (first_key rest) (view t) (next t))
    → Leaves
        (first_key ((freighter, freighter_answer connected key) ∷ rest))
        (or_else (to_freighter (freighter_answer connected key)) (view s))
        (or_next (try_freighter connected key s) next)
unfolding try_freighter first_key
freighter-Leaves (err e) key s rest next goes = goes s
freighter-Leaves (ok false) key s rest next goes = goes s
freighter-Leaves (ok true) (err e) s rest next goes = goes s
freighter-Leaves (ok true) (ok key) s rest next goes = elim (Bool-cases (key == "")) [
  | inl empty ↦ rw empty (goes (connected_to freighter key))
  | inr full ↦ rw full (refl, refl)
]

-- Connecting returns the key of the first wallet, in the order Freighter, Albedo, xBull, that answers with a key
-- that is not empty, and then shows that wallet with that key. Where there is none, it returns none,
-- and shows Freighter with an empty key if that is what Freighter answered, and else what it showed before.
pub connect-first_key :
    (w : Wallets) (s : WalletState)
    → ((connect w s).0 ≡ key_of (first_key (answers w)))
      × (view (connect w s).1
          ≡ or_else (first_key (answers w)) (
              or_else
                (to_freighter (freighter_answer w.freighter_connected w.freighter_key))
                (view s)))
unfolding connect
connect-first_key w s =
    freighter-Leaves w.freighter_connected w.freighter_key s _ (connect_second w) (second-Leaves w)
