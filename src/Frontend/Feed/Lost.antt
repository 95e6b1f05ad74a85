-- ===== src/Frontend/Feed/Lost.antt =====
-- What the server has been asked for over each socket of the price feed.
use soro_pool.Base.{String, ◌≡◌, refl, ◌∙◌, ap, true, false, none, some, List, [], ◌∷◌, ◌++◌}
use soro_pool.Frontend.Feed.{
  Request, subscribe_stats, subscribe_pool, subscribe_quote, Browser, PriceFeed, has_open_socket,
  connect_feed, send_request, on_open, ask_pool, ask_quote,
}

-- A browser: a new socket has sent nothing, and an open one sends what it is given.
pub record BrowserWorks {S Socket : Type 0} (browser : Browser S Socket) : Type 0 where
  pub sent : Socket → S → List Request
  pub opened : Socket → S → S
  pub new_sent : (s : S) → sent (browser.web_socket s).0 (browser.web_socket s).1 ≡ []
  pub open_opened : (w : Socket) (s : S) → browser.is_open w (opened w s) ≡ true
  pub sent_opened : (w : Socket) (s : S) → sent w (opened w s) ≡ sent w s
  pub sent_sends :
      (w : Socket) (r : Request) (s : S)
      → browser.is_open w s ≡ true
      → sent w (browser.send w r s).1 ≡ r ∷ sent w s
  pub open_sends :
      (w : Socket) (r : Request) (s : S)
      → browser.is_open w s ≡ true
      → browser.is_open w (browser.send w r s).1 ≡ true

-- A page's call of the service
pub data Ask : Type 0 where
  for_pool : (pool_id : String) → Ask
  for_quote : (token_in token_out amount_in : String) → Ask

abbrev pub request_of : Ask → Request
request_of (for_pool pool_id) = subscribe_pool pool_id
request_of (for_quote a b amount) = subscribe_quote a b amount

abbrev pub requests : List Ask → List Request
requests [] = []
requests (x ∷ earlier) = request_of x ∷ requests earlier

module _ {S Socket D : Type 0} (browser : Browser S Socket) (works : BrowserWorks browser) where
  open works use {sent, opened, new_sent, open_opened, sent_opened, sent_sends, open_sends}

  abbrev pub ask : Ask → PriceFeed S Socket D → PriceFeed S Socket D
  ask (for_pool pool_id) f = (ask_pool browser pool_id f).1
  ask (for_quote a b amount) f = (ask_quote browser a b amount f).1

  -- The calls in the order of time, the last first.
  abbrev pub ask_all : List Ask → PriceFeed S Socket D → PriceFeed S Socket D
  ask_all [] f = f
  ask_all (x ∷ earlier) f = ask x (ask_all earlier f)

  -- What has been sent over the socket of the service.
  abbrev pub asked : PriceFeed S Socket D → List Request
  asked f = elim f.ws [ none ↦ [] | some w ↦ sent w f.page ]

  -- The socket of the service opens.
  abbrev pub open_event : PriceFeed S Socket D → PriceFeed S Socket D
  open_event f = elim f.ws [
    | none ↦ f
    | some w ↦ (on_open browser record f { page = opened w f.page }).1
  ]

  -- The service has this socket, it is open, and this has been sent over it.
  record Standing (f : PriceFeed S Socket D) (w : Socket) (over : List Request) : Type 0 where
    is_socket : f.ws ≡ some w
    is_open_now : browser.is_open w f.page ≡ true
    has_sent : sent w f.page ≡ over

  send_request-Standing :
      (r : Request) (f : PriceFeed S Socket D) (w : Socket) {over : List Request}
      → Standing f w over
      → Standing (send_request browser r f).1 w (r ∷ over)
  unfolding send_request
  send_request-Standing r f w h = rw h.is_socket record {
    is_socket = refl;
    is_open_now = open_sends w r f.page h.is_open_now;
    has_sent = sent_sends w r f.page h.is_open_now ∙ ap (λ l. r ∷ l) h.has_sent;
  }

  ask-Standing :
      (x : Ask) (f : PriceFeed S Socket D) (w : Socket) {over : List Request}
      → Standing f w over
      → Standing (ask x f) w (request_of x ∷ over)
  ask-Standing (for_pool pool_id) f w h = send_request-Standing (subscribe_pool pool_id) f w h
  ask-Standing (for_quote a b amount) f w h =
      send_request-Standing (subscribe_quote a b amount) f w h

  ask_all-Standing :
      (asks : List Ask) (f : PriceFeed S Socket D) (w : Socket) {over : List Request}
      → Standing f w over
      → Standing (ask_all asks f) w (requests asks ++ over)
  ask_all-Standing [] f w h = h
  ask_all-Standing (x ∷ earlier) f w h =
      ask-Standing x (ask_all earlier f) w (ask_all-Standing earlier f w h)

  opened-Standing :
      (f : PriceFeed S Socket D)
      → has_open_socket browser f ≡ false
      → Standing
          (open_event (connect_feed browser f))
          (browser.web_socket f.page).0
          (subscribe_stats ∷ [])
  unfolding connect_feed send_request
  opened-Standing f lost =
      let w = (browser.web_socket f.page).0 in
      let s = (browser.web_socket f.page).1 in
      let is_there = open_opened w s in
      rw lost record {
        is_socket = refl;
        is_open_now = open_sends w subscribe_stats (opened w s) is_there;
        has_sent =
            sent_sends w subscribe_stats (opened w s) is_there
            ∙ ap (λ l. subscribe_stats ∷ l) (sent_opened w s ∙ new_sent f.page);
      }

  asked-Standing :
      (f : PriceFeed S Socket D) (w : Socket) {over : List Request}
      → Standing f w over
      → asked f ≡ over
  asked-Standing f w h = rw h.is_socket h.has_sent

  -- Where the service has no open socket, whatever was asked for over the sockets before: once `connect` has made
  -- a socket and it has opened, the server is asked over it for the statistics and for what the pages
  -- ask for from then on, and for nothing else.
  pub connect_feed-asked :
      (f : PriceFeed S Socket D) (asks : List Ask)
      → has_open_socket browser f ≡ false
      → asked (ask_all asks (open_event (connect_feed browser f)))
        ≡ requests asks ++ (subscribe_stats ∷ [])
  connect_feed-asked f asks lost =
      let w = (browser.web_socket f.page).0 in
      asked-Standing (ask_all asks (open_event (connect_feed browser f))) w
        (ask_all-Standing asks (open_event (connect_feed browser f)) w (opened-Standing f lost))
