-- ===== src/Js/Sort.antt =====
-- `Array.prototype.sort` with a comparator: stable. `after a b` says that the comparator is
-- positive at (a, b), so that a is to stand behind b.
use soro_pool.Base.{
  take, All-take, ◌≡◌, refl, ap, ◌⊎◌, Bool, true, false, List, [], ◌∷◌, arith, if◌then◌else◌, All,
  Bool-cases, inl, inr, length, ℕ, suc, zero,
}
use mathlib.Core.List.{Memᴰ}

module _ {A : Type 0} (after : A → A → Bool) where
  pub insert_sorted : A → List A → List A
  insert_sorted x [] = x ∷ []
  insert_sorted x (y ∷ ys) = if after x y then y ∷ insert_sorted x ys else x ∷ y ∷ ys

  unfoldable pub sort : List A → List A
  unfolding insert_sorted
  sort [] = []
  sort (x ∷ xs) = insert_sorted x (sort xs)

  -- No item stands behind one that is to follow it.
  abbrev pub IsOrdered : List A → Type 0
  IsOrdered [] = Unit
  IsOrdered (x ∷ xs) = All (λ y. after x y ≡ false) xs × IsOrdered xs

  pub IsOrdered-take : (n : ℕ) (xs : List A) → IsOrdered xs → IsOrdered (take n xs)
  IsOrdered-take zero xs h = tt
  IsOrdered-take (suc n) [] h = tt
  IsOrdered-take (suc n) (x ∷ xs) (below, h) =
      (All-take (λ y. after x y ≡ false) n xs below, IsOrdered-take n xs h)

  pub length-insert_sorted : (x : A) (ys : List A) → length (insert_sorted x ys) ≡ suc (length ys)
  unfolding insert_sorted
  length-insert_sorted x [] = refl
  length-insert_sorted x (y ∷ ys) = ground (arith, length-insert_sorted x ys)

  pub length-sort : (xs : List A) → length (sort xs) ≡ length xs
  unfolding sort
  length-sort [] = refl
  length-sort (x ∷ xs) = ground (arith, length-insert_sorted x (sort xs), length-sort xs)

  module _ (P : A → Type 0) where
    All-insert_sorted : (x : A) (ys : List A) → P x → All P ys → All P (insert_sorted x ys)
    unfolding insert_sorted
    All-insert_sorted x [] p h = (p, tt)
    All-insert_sorted x (y ∷ ys) p (q, h) = elim (Bool-cases (after x y)) [
      | inl t ↦ rw t (q, All-insert_sorted x ys p h)
      | inr f ↦ rw f (p, (q, h))
    ]

    -- What holds of every item holds of every item of the sorted list.
    pub All-sort : (xs : List A) → All P xs → All P (sort xs)
    unfolding sort
    All-sort [] h = tt
    All-sort (x ∷ xs) (p, h) = All-insert_sorted x (sort xs) p (All-sort xs h)

  Memᴰ-insert_sorted_self : (x : A) (ys : List A) → Memᴰ x (insert_sorted x ys)
  unfolding insert_sorted
  Memᴰ-insert_sorted_self x [] = Memᴰ.head refl
  Memᴰ-insert_sorted_self x (y ∷ ys) = elim (Bool-cases (after x y)) [
    | inl t ↦ rw t (Memᴰ.tail (Memᴰ-insert_sorted_self x ys))
    | inr f ↦ rw f (Memᴰ.head refl)
  ]

  Memᴰ-insert_sorted : (a x : A) (ys : List A) → Memᴰ a ys → Memᴰ a (insert_sorted x ys)
  unfolding insert_sorted
  Memᴰ-insert_sorted a x [] m = elim m [ ]
  Memᴰ-insert_sorted a x (y ∷ ys) (Memᴰ.head e) = elim (Bool-cases (after x y)) [
    | inl t ↦ rw t (Memᴰ.head e)
    | inr f ↦ rw f (Memᴰ.tail (Memᴰ.head e))
  ]
  Memᴰ-insert_sorted a x (y ∷ ys) (Memᴰ.tail m) = elim (Bool-cases (after x y)) [
    | inl t ↦ rw t (Memᴰ.tail (Memᴰ-insert_sorted a x ys m))
    | inr f ↦ rw f (Memᴰ.tail (Memᴰ.tail m))
  ]

  -- Sorting loses no item.
  pub Memᴰ-sort : (a : A) (xs : List A) → Memᴰ a xs → Memᴰ a (sort xs)
  unfolding sort
  Memᴰ-sort a [] m = elim m [ ]
  Memᴰ-sort a (x ∷ xs) (Memᴰ.head e) = rw e (Memᴰ-insert_sorted_self x (sort xs))
  Memᴰ-sort a (x ∷ xs) (Memᴰ.tail m) = Memᴰ-insert_sorted a x (sort xs) (Memᴰ-sort a xs m)

  -- The comparator is that of a total preorder.
  module _ (asym : (a b : A) → after a b ≡ true → after b a ≡ false)
      (trans : (a b c : A) → after a b ≡ false → after b c ≡ false → after a c ≡ false) where
    before-All :
        (x y : A) (ys : List A)
        → after x y ≡ false
        → All (λ z. after y z ≡ false) ys
        → All (λ z. after x z ≡ false) ys
    before-All x y [] h k = tt
    before-All x y (z ∷ zs) h (p, k) = (trans x y z h p, before-All x y zs h k)

    insert_sorted-IsOrdered : (x : A) (ys : List A) → IsOrdered ys → IsOrdered (insert_sorted x ys)
    unfolding insert_sorted
    insert_sorted-IsOrdered x [] h = (tt, tt)
    insert_sorted-IsOrdered x (y ∷ ys) (below, h) = elim (Bool-cases (after x y)) [
      | inl t ↦ rw t (
        All-insert_sorted (λ z. after y z ≡ false) x ys (asym x y t) below,
        insert_sorted-IsOrdered x ys h,
      )
      | inr f ↦ rw f ((f, before-All x y ys f below), (below, h))
    ]

    pub sort-IsOrdered : (xs : List A) → IsOrdered (sort xs)
    unfolding sort
    sort-IsOrdered [] = tt
    sort-IsOrdered (x ∷ xs) = insert_sorted-IsOrdered x (sort xs) (sort-IsOrdered xs)

-- An item of an ordered list is among the first n, or those are n and none of them is to follow it.
module _ {A : Type 0} (after : A → A → Bool) where
  abbrev pub Within : ℕ → A → List A → Type 0
  Within n x xs =
      Memᴰ x (take n xs) ⊎ ((length (take n xs) ≡ n) × All (λ y. after y x ≡ false) (take n xs))

  before_member :
      (x y : A) (ys : List A) → All (λ z. after y z ≡ false) ys → Memᴰ x ys → after y x ≡ false
  before_member x y [] h m = elim m [ ]
  before_member x y (z ∷ zs) (first, rest) (Memᴰ.head e) = rw e first
  before_member x y (z ∷ zs) (first, rest) (Memᴰ.tail m) = before_member x y zs rest m

  further :
      (n : ℕ) (x y : A) (ys : List A)
      → after y x ≡ false
      → Within n x ys
      → Within (suc n) x (y ∷ ys)
  further n x y ys first (inl m) = inl (Memᴰ.tail m)
  further n x y ys first (inr (full, below)) = inr (ap suc full, (first, below))

  pub member-Within : (n : ℕ) (x : A) (xs : List A) → IsOrdered after xs → Memᴰ x xs → Within n x xs
  member-Within zero x xs h m = inr (refl, tt)
  member-Within (suc n) x [] h m = elim m [ ]
  member-Within (suc n) x (y ∷ ys) (first, h) (Memᴰ.head e) = inl (Memᴰ.head e)
  member-Within (suc n) x (y ∷ ys) (first, h) (Memᴰ.tail m) =
      further n x y ys (before_member x y ys first m) (member-Within n x ys h m)

-- Sorting, and taking from the front, keep what holds of every two items.
module _ {A : Type 0} (R : A → A → Type 0) where
  abbrev pub Pairwise : List A → Type 0
  Pairwise [] = Unit
  Pairwise (x ∷ xs) = All (R x) xs × Pairwise xs

  pub Pairwise-take : (n : ℕ) (xs : List A) → Pairwise xs → Pairwise (take n xs)
  Pairwise-take zero xs h = tt
  Pairwise-take (suc n) [] h = tt
  Pairwise-take (suc n) (x ∷ xs) (apart, h) = (All-take (R x) n xs apart, Pairwise-take n xs h)

  module _ (after : A → A → Bool) (symmetric : (a b : A) → R a b → R b a) where
    Pairwise-insert_sorted :
        (x : A) (ys : List A) → All (R x) ys → Pairwise ys → Pairwise (insert_sorted after x ys)
    unfolding insert_sorted
    Pairwise-insert_sorted x [] apart h = (tt, tt)
    Pairwise-insert_sorted x (y ∷ ys) (r, apart) (below, h) = elim (Bool-cases (after x y)) [
      | inl t ↦ rw t (
        All-insert_sorted after (R y) x ys (symmetric x y r) below,
        Pairwise-insert_sorted x ys apart h,
      )
      | inr f ↦ rw f ((r, apart), (below, h))
    ]

    pub Pairwise-sort : (xs : List A) → Pairwise xs → Pairwise (sort after xs)
    unfolding sort
    Pairwise-sort [] h = tt
    Pairwise-sort (x ∷ xs) (apart, h) =
        Pairwise-insert_sorted x (sort after xs) (All-sort after (R x) xs apart)
          (Pairwise-sort xs h)
