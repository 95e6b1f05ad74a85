-- ===== src/Indexer/Events/Once.antt =====
-- That an event is handed on once, and that the set of keys is bounded.
use soro_pool.Base.{
  ℕ, zero, suc, ◌-◌, ◌≤◌, String, ◌≡◌, refl, ◌∙◌, true, false, List, [], ◌∷◌, ltb, length, drop,
  arith, Bool-cases, inl, inr, All,
}
use soro_pool.Indexer.Events.{
  IndexerEvent, Indexers, ProcessorState, dedup_key, evict, add_key, process_event, process_all,
  process_events,
}
use soro_pool.Routing.Paths.{contains}
use text.Mathlib.TextEquality.{eq_iff}

length-drop : {A : Type 0} (n : ℕ) (xs : List A) → length (drop n xs) ≡ length xs - n
length-drop zero xs = omega arith
length-drop (suc n) [] = omega arith
length-drop (suc n) (x ∷ xs) = length-drop n xs ∙ omega arith

module _ (Data : Type 0) where
  evict-bounded : (keys : List String) → length (evict Data keys) ≤ 10_000
  unfolding evict
  evict-bounded keys = ground (arith, length-drop (length keys - 5000) keys)

  contains-add : (keys : List String) (key : String) → contains (add_key Data keys key) key ≡ true
  unfolding contains add_key
  contains-add [] key = ground (arith, (eq_iff key key).1 refl)
  contains-add (k ∷ ks) key = ground (arith, contains-add ks key)

  contains-add_more :
      (keys : List String) (key other : String)
      → contains keys other ≡ true
      → contains (add_key Data keys key) other ≡ true
  unfolding contains add_key
  contains-add_more [] key other h = cc
  contains-add_more (k ∷ ks) key other h = ground (arith, contains-add_more ks key other)

  module _ {S : Type 0} (services : Indexers Data S) where
    -- The keys of all events of a batch are in the set.
    Seen : List String → List (IndexerEvent Data) → Type 0
    Seen keys = All (λ e. contains keys (dedup_key Data e) ≡ true)

    process_event-seen :
        (e : IndexerEvent Data) (s : ProcessorState Data S)
        → contains (process_event Data services e s).keys (dedup_key Data e) ≡ true
    unfolding process_event
    process_event-seen e s = elim (Bool-cases (contains s.keys (dedup_key Data e))) [
      | inl known ↦ rw known known
      | inr fresh ↦ rw fresh (contains-add s.keys (dedup_key Data e))
    ]

    process_event-keeps :
        (e : IndexerEvent Data) (s : ProcessorState Data S) (key : String)
        → contains s.keys key ≡ true
        → contains (process_event Data services e s).keys key ≡ true
    unfolding process_event
    process_event-keeps e s key h = elim (Bool-cases (contains s.keys (dedup_key Data e))) [
      | inl known ↦ rw known h
      | inr fresh ↦ rw fresh (contains-add_more s.keys (dedup_key Data e) key h)
    ]

    process_all-keeps :
        (es : List (IndexerEvent Data)) (s : ProcessorState Data S) (key : String)
        → contains s.keys key ≡ true
        → contains (process_all Data services es s).keys key ≡ true
    unfolding process_all
    process_all-keeps [] s key h = h
    process_all-keeps (e ∷ es) s key h =
        process_all-keeps es (process_event Data services e s) key (process_event-keeps e s key h)

    process_all-Seen :
        (es : List (IndexerEvent Data)) (s : ProcessorState Data S)
        → Seen (process_all Data services es s).keys es
    unfolding process_all Seen
    process_all-Seen [] s = tt
    process_all-Seen (e ∷ es) s =
        let t = process_event Data services e s in
        (process_all-keeps es t (dedup_key Data e) (process_event-seen e s), process_all-Seen es t)

    process_all-skips :
        (es : List (IndexerEvent Data)) (s : ProcessorState Data S)
        → Seen s.keys es
        → process_all Data services es s ≡ s
    unfolding process_all process_event Seen
    process_all-skips [] s h = refl
    process_all-skips (e ∷ es) s (known, h) = rw known (process_all-skips es s h)

    -- However many events come, the set holds at most 10000 keys after a batch.
    pub process_events-bounded :
        (es : List (IndexerEvent Data)) (s : ProcessorState Data S)
        → length (process_events Data services es s).keys ≤ 10_000
    unfolding process_events
    process_events-bounded es s = evict-bounded (process_all Data services es s).keys

    -- Where the set of keys, with the batch in it, has at most 10000 keys, processing the same batch of
    -- events again changes nothing: neither the set nor what the services have stored.
    pub process_events-idempotent :
        (es : List (IndexerEvent Data)) (s : ProcessorState Data S)
        → length (process_all Data services es s).keys ≤ 10_000
        → process_events Data services es (process_events Data services es s)
          ≡ process_events Data services es s
    unfolding process_events evict
    process_events-idempotent es s few =
        let done = process_all Data services es s in
        let small : ltb 10_000 (length done.keys) ≡ false = ground arith in
        rw (small, process_all-skips es done (process_all-Seen es s), small) refl
