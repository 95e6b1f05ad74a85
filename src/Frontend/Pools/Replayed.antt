-- ===== src/Frontend/Pools/Replayed.antt =====
-- What the pages show of the pools after an answer and the updates that follow.
use soro_pool.Base.{
  String, ◌≡◌, refl, ap, ◌∙◌, true, Bool-cases, inl, inr, Option, none, some, List, [], ◌∷◌, map,
  Result, ok, err, type_error, ◌>>=◌, if◌then◌else◌,
}
use soro_pool.Frontend.Pools.{
  PoolView, PoolsReply, PoolsValue, listed, no_array, PoolAction, load_pools, select_pool,
  update_pool_reserves, with_new_reserves, pools_reducer, PoolsStore, dispatch_pools,
  pools_of_reply, answer_pools, find_pool, find_listed,
}
use text.Mathlib.Text.{◌==◌}

-- What the pages and the socket send: `loadPoolsSuccess` is the effect's.
pub data Sent : Type 0 where
  loads : Sent
  selects : PoolView → Sent
  updates : (pool_id reserve0 reserve1 : String) → Sent

abbrev pub action_of : Sent → PoolAction
action_of loads = load_pools
action_of (selects pool) = select_pool pool
action_of (updates pool_id r0 r1) = update_pool_reserves pool_id r0 r1

unfoldable pub send_all : List Sent → PoolsStore → Result PoolsStore
send_all [] s = ok s
send_all (x ∷ xs) s = dispatch_pools (action_of x) s >>= send_all xs

abbrev pub next_reserves : Sent → String → Option (String × String) → Option (String × String)
next_reserves loads id known = known
next_reserves (selects pool) id known = known
next_reserves (updates pool_id r0 r1) id known = if id == pool_id then some (r0, r1) else known

-- The reserves of the last update that names the pool.
unfoldable pub last_reserves :
    List Sent → String → Option (String × String) → Option (String × String)
last_reserves [] id known = known
last_reserves (x ∷ xs) id known = last_reserves xs id (next_reserves x id known)

abbrev pub shown_with : PoolView → Option (String × String) → PoolView
shown_with p none = p
shown_with p (some (r0, r1)) = record p { reserve0 = some r0; reserve1 = some r1 }

-- The pool as the updates leave it.
abbrev pub replayed : List Sent → PoolView → PoolView
replayed xs p = shown_with p (last_reserves xs p.id none)

update-shown_with :
    (p : PoolView) (known : Option (String × String)) (pool_id r0 r1 : String)
    → with_new_reserves pool_id r0 r1 (shown_with p known)
      ≡ shown_with p (if p.id == pool_id then some (r0, r1) else known)
update-shown_with p none pool_id r0 r1 = elim (Bool-cases (p.id == pool_id)) [
  | inl own ↦ rw own refl
  | inr other ↦ rw other refl
]
update-shown_with p (some known) pool_id r0 r1 = elim (Bool-cases (p.id == pool_id)) [
  | inl own ↦ rw own refl
  | inr other ↦ rw other refl
]

-- The pools of the store, as the updates leave each from what it is known to have.
abbrev shown_all : List PoolView → (PoolView → Option (String × String)) → List PoolView
shown_all ps known = map (λ p. shown_with p (known p)) ps

map-shown_all :
    (ps : List PoolView) (known : PoolView → Option (String × String)) (pool_id r0 r1 : String)
    → map (with_new_reserves pool_id r0 r1) (shown_all ps known)
      ≡ shown_all ps (λ p. if p.id == pool_id then some (r0, r1) else known p)
map-shown_all [] known pool_id r0 r1 = refl
map-shown_all (p ∷ ps) known pool_id r0 r1 =
    rw (update-shown_with p (known p) pool_id r0 r1, map-shown_all ps known pool_id r0 r1) refl

-- The call returns a store with these pools.
abbrev Returns : Result PoolsStore → List PoolView → Type 0
Returns r ps = (t : PoolsStore) × (r ≡ ok t) × (t.state.pools ≡ listed ps)

dispatch-shown_all :
    (x : Sent) (s : PoolsStore) (ps : List PoolView) (known : PoolView → Option (String × String))
    → s.state.pools ≡ listed (shown_all ps known)
    → Returns (dispatch_pools (action_of x) s) (shown_all ps (λ p. next_reserves x p.id (known p)))
unfolding dispatch_pools pools_reducer
dispatch-shown_all loads s ps known h = (_, refl, h)
dispatch-shown_all (selects pool) s ps known h = (_, refl, h)
dispatch-shown_all (updates pool_id r0 r1) s ps known h =
    rw h (_, refl, ap listed (map-shown_all ps known pool_id r0 r1))

send_all-shown_all :
    (xs : List Sent) (s : PoolsStore) (ps : List PoolView)
    (known : PoolView → Option (String × String))
    → s.state.pools ≡ listed (shown_all ps known)
    → Returns (send_all xs s) (shown_all ps (λ p. last_reserves xs p.id (known p)))
unfolding send_all last_reserves
send_all-shown_all [] s ps known h = (s, refl, h)
send_all-shown_all (x ∷ xs) s ps known h =
    let (t, runs, has) = dispatch-shown_all x s ps known h in
    rw runs (send_all-shown_all xs t ps (λ p. next_reserves x p.id (known p)) has)

map_id : (ps : List PoolView) → ps ≡ shown_all ps (λ p. none)
map_id [] = refl
map_id (p ∷ ps) = ap (λ (qs : List PoolView). p ∷ qs) (map_id ps)

shown_with-id : (p : PoolView) (known : Option (String × String)) → (shown_with p known).id ≡ p.id
shown_with-id p none = refl
shown_with-id p (some known) = refl

abbrev pub map_option : {A B : Type 0} → (A → B) → Option A → Option B
map_option f none = none
map_option f (some a) = some (f a)

find_listed-shown_all :
    (id : String) (ps : List PoolView) (known : PoolView → Option (String × String))
    → find_listed id (shown_all ps known)
      ≡ map_option (λ p. shown_with p (known p)) (find_listed id ps)
unfolding find_listed
find_listed-shown_all id [] known = refl
find_listed-shown_all id (p ∷ ps) known = elim (Bool-cases (p.id == id)) [
  | inl own ↦ rw (shown_with-id p (known p), own) refl
  | inr other ↦ rw (shown_with-id p (known p), other) (find_listed-shown_all id ps known)
]

-- The pool that a page shows when a request for the pools is answered and these actions follow.
abbrev pub found_after :
    String → List Sent → Result PoolsReply → PoolsStore → Result (Option PoolView)
found_after id xs reply s = answer_pools reply s >>= send_all xs >>= λ t. find_pool id t.state.pools

-- The pool that a page finds in a value, with its last reserves.
abbrev pub found_in : String → List Sent → PoolsValue → Result (Option PoolView)
found_in id xs (listed ps) = ok (map_option (replayed xs) (find_listed id ps))
found_in id xs no_array = err type_error

no_array-throws :
    (id : String) (xs : List Sent) (s : PoolsStore)
    → s.state.pools ≡ no_array
    → (send_all xs s >>= λ t. find_pool id t.state.pools) ≡ err type_error
unfolding send_all dispatch_pools pools_reducer
no_array-throws id [] s h = rw h refl
no_array-throws id (loads ∷ xs) s h = no_array-throws id xs _ h
no_array-throws id (selects pool ∷ xs) s h = no_array-throws id xs _ h
no_array-throws id (updates pool_id r0 r1 ∷ xs) s h = rw h refl

listed-found :
    (id : String) (xs : List Sent) (s : PoolsStore) (ps : List PoolView)
    → s.state.pools ≡ listed ps
    → (send_all xs s >>= λ t. find_pool id t.state.pools)
      ≡ ok (map_option (replayed xs) (find_listed id ps))
listed-found id xs s ps h =
    let (t, runs, has) = send_all-shown_all xs s ps (λ p. none) (h ∙ ap listed (map_id ps)) in
    rw (runs, has) (ap ok (find_listed-shown_all id ps (λ p. last_reserves xs p.id none)))

value-found :
    (id : String) (xs : List Sent) (s : PoolsStore) (value : PoolsValue)
    → s.state.pools ≡ value
    → (send_all xs s >>= λ t. find_pool id t.state.pools) ≡ found_in id xs value
value-found id xs s (listed ps) h = listed-found id xs s ps h
value-found id xs s no_array h = no_array-throws id xs s h

-- When a request for the pools is answered or fails, and any actions of the pages and updates of the socket
-- follow before the next answer, a page shows the first pool of the reply that has its id, with the
-- reserves of the last update that names the pool, or those of the reply where there is none. A request
-- that fails has no pools. Where neither the reply nor its data is an array, the page throws.
pub find_pool-send_all :
    (id : String) (xs : List Sent) (reply : Result PoolsReply) (s : PoolsStore)
    → s.is_asked ≡ true
    → found_after id xs reply s ≡ found_in id xs (pools_of_reply reply)
unfolding answer_pools pools_reducer
find_pool-send_all id xs reply s asked = rw asked (value-found id xs _ (pools_of_reply reply) refl)
