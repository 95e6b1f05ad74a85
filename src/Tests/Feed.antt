-- ===== src/Tests/Feed.antt =====
-- Runs of the price feed.
use soro_pool.Base.{
  ℕ, suc, String, ◌≡◌, refl, Bool, true, false, some, arith, Result, ok, List, [], ◌∷◌, ◌==◌,
  if◌then◌else◌,
}
use soro_pool.Frontend.Feed.{
  Request, subscribe_stats, subscribe_pool, subscribe_quote, Browser, PriceFeed, connect_feed,
  on_message,
}
use soro_pool.Frontend.Feed.Lost.{
  BrowserWorks, for_quote, ask_all, open_event, asked, connect_feed-asked,
}

-- Sockets by the order in which they were made.
record Sockets : Type 0 where
  made : ℕ
  opens : ℕ → Bool
  said : ℕ → List Request

abbrev at_socket : {A : Type 0} → ℕ → A → (ℕ → A) → ℕ → A
at_socket w x f k = if k == w then x else f k

abbrev sockets : Browser Sockets ℕ
sockets = record {
  is_open = λ w s. s.opens w;
  web_socket = λ s. (
    s.made,
    record s {
      made = suc s.made;
      opens = at_socket s.made false s.opens;
      said = at_socket s.made [] s.said;
    },
  );
  send = λ w r s. (ok tt, record s { said = at_socket w (r ∷ s.said w) s.said });
  set_timeout = λ s. s;
}

same_socket : (w : ℕ) → (w == w) ≡ true
same_socket w = ground arith

abbrev sockets_work : BrowserWorks sockets
sockets_work = record {
  sent = λ w s. s.said w;
  opened = λ w s. record s { opens = at_socket w true s.opens };
  new_sent = λ s. rw (same_socket s.made) refl;
  open_opened = λ w s. rw (same_socket w) refl;
  sent_opened = λ w s. refl;
  sent_sends = λ w r s e. rw (same_socket w) refl;
  open_sends = λ w r s e. e;
}

-- The first socket has closed, after a pool was asked for.
abbrev closed_feed : PriceFeed Sockets ℕ String
closed_feed = record {
  ws = some 0;
  pool_reserves = [];
  quote_updates = [];
  protocol_stats = [];
  page = record {
    made = 1;
    opens = λ w. false;
    said = λ w. subscribe_pool "p1" ∷ subscribe_stats ∷ [];
  };
}

connect_feed-asked_example :
    asked sockets sockets_work (
      ask_all sockets sockets_work
        (for_quote "A" "B" "7" ∷ [])
        (open_event sockets sockets_work (connect_feed sockets closed_feed)))
    ≡ subscribe_quote "A" "B" "7" ∷ subscribe_stats ∷ []
connect_feed-asked_example =
    connect_feed-asked sockets sockets_work closed_feed (for_quote "A" "B" "7" ∷ []) refl

abbrev parse_itself : String → Result String
parse_itself text = ok text

message_run :
    (on_message parse_itself (λ d. ok (some d)) "quote:update" closed_feed).1.quote_updates
    ≡ "quote:update" ∷ []
message_run = refl
