-- ===== src/Analytics/Tvl/Resampled.antt =====
-- What is left of the snapshots of the value locked after they are resampled.
use mathlib.Core.List.{Memᴰ}
use mathlib.Core.Path.{subst}
use soro_pool.Base.{
  ℕ, ◌+◌, ◌≤◌, ◌<◌, ◌≡◌, refl, sym, true, false, Bool-cases, inl, inr, Option, none, some, List, [],
  ◌∷◌, ◌++◌, All, All-append, every_member, ltb, ltb→lt, arith, lt→ltb,
}
use soro_pool.Analytics.Tvl.{TvlSnapshot, push_last, resample_from, resample_snapshots}

-- The snapshot that a bucket is stood for by
abbrev last_of : List TvlSnapshot → Option TvlSnapshot
last_of [] = none
last_of (x ∷ []) = some x
last_of (x ∷ y ∷ bucket) = last_of (y ∷ bucket)

last_of-append : (bucket : List TvlSnapshot) (x : TvlSnapshot) → last_of (bucket ++ x ∷ []) ≡ some x
last_of-append [] x = refl
last_of-append (y ∷ []) x = refl
last_of-append (y ∷ z ∷ bucket) x = last_of-append (z ∷ bucket) x

Memᴰ-append : {a : TvlSnapshot} (xs ys : List TvlSnapshot) → Memᴰ a ys → Memᴰ a (xs ++ ys)
Memᴰ-append [] ys m = m
Memᴰ-append (x ∷ xs) ys m = Memᴰ.tail (Memᴰ-append xs ys m)

Memᴰ-before : {a : TvlSnapshot} (xs ys : List TvlSnapshot) → Memᴰ a xs → Memᴰ a (xs ++ ys)
Memᴰ-before [] ys m = elim m [ ]
Memᴰ-before (x ∷ xs) ys (Memᴰ.head e) = Memᴰ.head e
Memᴰ-before (x ∷ xs) ys (Memᴰ.tail m) = Memᴰ.tail (Memᴰ-before xs ys m)

push_last-keeps :
    {a : TvlSnapshot} (out bucket : List TvlSnapshot) → Memᴰ a out → Memᴰ a (push_last out bucket)
unfolding push_last
push_last-keeps out [] m = m
push_last-keeps out (x ∷ []) m = Memᴰ-before out (x ∷ []) m
push_last-keeps out (x ∷ y ∷ bucket) m = push_last-keeps out (y ∷ bucket) m

push_last-last :
    (out bucket : List TvlSnapshot) (x : TvlSnapshot)
    → last_of bucket ≡ some x
    → Memᴰ x (push_last out bucket)
unfolding push_last
push_last-last out [] x e = cc
push_last-last out (y ∷ []) x e = Memᴰ-append out (y ∷ []) (Memᴰ.head (cc))
push_last-last out (y ∷ z ∷ bucket) x e = push_last-last out (z ∷ bucket) x e

-- A branch on whether a snapshot falls into the bucket.
resample-keeps :
    {a : TvlSnapshot} (ms : ℕ) (out bucket : List TvlSnapshot) (start : ℕ)
    (snaps : List TvlSnapshot)
    → Memᴰ a out
    → Memᴰ a (resample_from ms out bucket start snaps)
unfolding resample_from
resample-keeps ms out bucket start [] m = push_last-keeps out bucket m
resample-keeps ms out bucket start (snap ∷ snaps) m =
    elim (Bool-cases (ltb snap.time (start + ms))) [
      | inl within ↦ rw within (resample-keeps ms out (bucket ++ snap ∷ []) start snaps m)
      | inr past ↦ rw past (
          resample-keeps ms (push_last out bucket) (snap ∷ []) snap.time snaps
            (push_last-keeps out bucket m))
    ]

-- In the order of their times
abbrev pub InOrder : ℕ → List TvlSnapshot → Type 0
InOrder from [] = Unit
InOrder from (x ∷ xs) = (from ≤ x.time) × InOrder x.time xs

-- One of the snapshots is no earlier than x, and less than ms later.
abbrev pub Covered : ℕ → List TvlSnapshot → TvlSnapshot → Type 0
Covered ms out x = (y : TvlSnapshot) × Memᴰ y out × (x.time ≤ y.time) × (y.time < x.time + ms)

-- The bucket is stood for, and every snapshot that follows is covered.
abbrev Stands : ℕ → ℕ → TvlSnapshot → List TvlSnapshot → List TvlSnapshot → Type 0
Stands ms start last snaps out =
    ((y : TvlSnapshot) × Memᴰ y out × (last.time ≤ y.time) × (y.time < start + ms))
    × All (Covered ms out) snaps

within_step :
    (ms : ℕ) (out bucket : List TvlSnapshot) (start : ℕ) (snap : TvlSnapshot)
    (snaps : List TvlSnapshot)
    → ltb snap.time (start + ms) ≡ true
    → resample_from ms out (bucket ++ snap ∷ []) start snaps
      ≡ resample_from ms out bucket start (snap ∷ snaps)
unfolding resample_from
within_step ms out bucket start snap snaps within = rw within refl

past_step :
    (ms : ℕ) (out bucket : List TvlSnapshot) (start : ℕ) (snap : TvlSnapshot)
    (snaps : List TvlSnapshot)
    → ltb snap.time (start + ms) ≡ false
    → resample_from ms (push_last out bucket) (snap ∷ []) snap.time snaps
      ≡ resample_from ms out bucket start (snap ∷ snaps)
unfolding resample_from
past_step ms out bucket start snap snaps past = rw past refl

resample-Stands :
    (ms : ℕ) (out bucket : List TvlSnapshot) (start : ℕ) (last : TvlSnapshot)
    (snaps : List TvlSnapshot)
    → 0 < ms
    → last_of bucket ≡ some last
    → start ≤ last.time
    → last.time < start + ms
    → InOrder last.time snaps
    → Stands ms start last snaps (resample_from ms out bucket start snaps)
unfolding resample_from
resample-Stands ms out bucket start last [] some_ms ends low high sorted =
    ((last, push_last-last out bucket last ends, omega arith, high), tt)
resample-Stands ms out bucket start last (snap ∷ snaps) some_ms ends low high (after, sorted) =
    elim (Bool-cases (ltb snap.time (start + ms))) [
      | inl within ↦
          let ((y, m, least, most), rest) =
            resample-Stands ms out (bucket ++ snap ∷ []) start snap snaps some_ms
              (last_of-append bucket snap) (omega arith) (ltb→lt snap.time (start + ms) within)
              sorted in
          subst (Stands ms start last (snap ∷ snaps))
            (within_step ms out bucket start snap snaps within)
            ((y, m, omega arith, most), ((y, m, least, omega arith), rest))
      | inr past ↦
          let ((y, m, least, most), rest) =
            resample-Stands ms (push_last out bucket) (snap ∷ []) snap.time snap snaps some_ms refl
              (omega arith) (omega arith) sorted in
          let kept =
            resample-keeps ms (push_last out bucket) (snap ∷ []) snap.time snaps
              (push_last-last out bucket last ends) in
          subst (Stands ms start last (snap ∷ snaps))
            (past_step ms out bucket start snap snaps past)
            ((last, kept, omega arith, high), ((y, m, least, most), rest))
    ]

module _ (P : TvlSnapshot → Type 0) where
  push_last-All :
      (out bucket : List TvlSnapshot) → All P out → All P bucket → All P (push_last out bucket)
  unfolding push_last
  push_last-All out [] h k = h
  push_last-All out (x ∷ []) h k = All-append P out (x ∷ []) h k
  push_last-All out (x ∷ y ∷ bucket) h (_, k) = push_last-All out (y ∷ bucket) h k

  resample-All :
      (ms : ℕ) (out bucket : List TvlSnapshot) (start : ℕ) (snaps : List TvlSnapshot)
      → All P out
      → All P bucket
      → All P snaps
      → All P (resample_from ms out bucket start snaps)
  unfolding resample_from
  resample-All ms out bucket start [] h k l = push_last-All out bucket h k
  resample-All ms out bucket start (snap ∷ snaps) h k (p, l) =
      elim (Bool-cases (ltb snap.time (start + ms))) [
        | inl within ↦ rw within (
            resample-All ms out (bucket ++ snap ∷ []) start snaps h
              (All-append P bucket (snap ∷ []) k (p, tt)) l)
        | inr past ↦ rw past (
            resample-All ms (push_last out bucket) (snap ∷ []) snap.time snaps
              (push_last-All out bucket h k) (p, tt) l)
      ]

first_bucket :
    (ms : ℕ) (snap : TvlSnapshot) (snaps : List TvlSnapshot)
    → 0 < ms
    → resample_snapshots (snap ∷ snaps) ms ≡ resample_from ms [] (snap ∷ []) snap.time snaps
unfolding resample_snapshots resample_from
first_bucket ms snap snaps some_ms = rw (lt→ltb snap.time (snap.time + ms) (omega arith)) refl

-- Resampling snapshots in the order of their times, to a positive number of milliseconds, makes none up,
-- and covers each: one that is kept is no earlier, and less than that number of milliseconds later.
pub resample_snapshots-Covered :
    (ms : ℕ) (snaps : List TvlSnapshot)
    → 0 < ms
    → InOrder 0 snaps
    → All (Covered ms (resample_snapshots snaps ms)) snaps
      × All (λ y. Memᴰ y snaps) (resample_snapshots snaps ms)
unfolding resample_snapshots
resample_snapshots-Covered ms [] some_ms sorted = (tt, tt)
resample_snapshots-Covered ms (snap ∷ snaps) some_ms (_, sorted) =
    let (first, rest) =
      resample-Stands ms [] (snap ∷ []) snap.time snap snaps some_ms refl (omega arith)
        (omega arith) sorted in
    let all = snap ∷ snaps in
    let own : All (λ y. Memᴰ y all) (resample_from ms [] (snap ∷ []) snap.time snaps) =
      resample-All (λ y. Memᴰ y all) ms [] (snap ∷ []) snap.time snaps tt (Memᴰ.head refl, tt)
        (every_member (λ y. Memᴰ y all) snaps (λ x m. Memᴰ.tail m)) in
    subst (λ out. All (Covered ms out) all × All (λ y. Memᴰ y all) out)
      (sym (first_bucket ms snap snaps some_ms)) ((first, rest), own)
