-- ===== src/Common/Sorting.antt =====
-- Stable sorting by a number, and how many elements reach a bound.
pub mod Reverse
pub mod Count
use Prim.Native.Nat.{ℕ, zero, suc, min, ◌<◌, ◌+◌, ◌-◌, ◌≤◌}
use mathlib.Core.Path.{◌≡◌, refl}
use mathlib.Core.Bool.{Bool, true, false}
use mathlib.Core.Logic.{inl, inr}
use mathlib.Core.List.{List, [], ◌∷◌, ◌++◌}
use native.Mathlib.Omega.{arith}
use puncture.Common.Tests.{Bool-cases, leb, if◌then◌else◌}
use puncture.Common.Lists.{length}

module _ {ℓ} {A : Type ℓ} where
  abbrev pub take : ℕ → List A → List A
  take zero xs = []
  take (suc n) [] = []
  take (suc n) (x ∷ xs) = x ∷ take n xs

  abbrev pub drop : ℕ → List A → List A
  drop zero xs = xs
  drop (suc n) [] = []
  drop (suc n) (x ∷ xs) = drop n xs

  -- Before the first element that does not go first.
  abbrev insert_by : (A → A → Bool) → A → List A → List A
  insert_by first x [] = x ∷ []
  insert_by first x (y ∷ ys) =
      let rest = insert_by first x ys in if first x y then x ∷ y ∷ ys else y ∷ rest

  unfoldable pub sort_by : (A → A → Bool) → List A → List A
  sort_by first [] = []
  sort_by first (x ∷ xs) = insert_by first x (sort_by first xs)

  module _ (key : A → ℕ) where
    -- `sort_by_key`: equal keys keep their order.
    unfoldable pub sort_by_key : List A → List A
    unfolding sort_by
    sort_by_key = sort_by (λ x y. leb (key x) (key y))

    -- `ORDER BY key DESC`, where equal keys keep their order.
    unfoldable pub order_desc : List A → List A
    unfolding sort_by
    order_desc = sort_by (λ x y. leb (key y) (key x))

    -- The number of elements whose key is at least t.
    abbrev pub count_from : ℕ → List A → ℕ
    count_from t [] = 0
    count_from t (x ∷ xs) = (if leb t (key x) then 1 else 0) + count_from t xs

    pub count_from-append :
        (t : ℕ) (xs ys : List A) → count_from t (xs ++ ys) ≡ count_from t xs + count_from t ys
    count_from-append t [] ys = omega arith
    count_from-append t (x ∷ xs) ys = omega (arith, count_from-append t xs ys)

    count_from-insert_by :
        (first : A → A → Bool) (t : ℕ) (x : A) (xs : List A)
        → count_from t (insert_by first x xs) ≡ (if leb t (key x) then 1 else 0) + count_from t xs
    count_from-insert_by first t x [] = refl
    count_from-insert_by first t x (y ∷ ys) = ground (arith, count_from-insert_by first t x ys)

    count_from-sort_by :
        (first : A → A → Bool) (t : ℕ) (xs : List A)
        → count_from t (sort_by first xs) ≡ count_from t xs
    unfolding sort_by
    count_from-sort_by first t [] = refl
    count_from-sort_by first t (x ∷ xs) =
        omega
          (arith, count_from-insert_by first t x (sort_by first xs), count_from-sort_by first t xs)

    -- All keys are at least k, and at most k.
    abbrev pub AtLeast : ℕ → List A → Type 0
    AtLeast k [] = Unit
    AtLeast k (x ∷ xs) = (k ≤ key x) × AtLeast k xs

    abbrev pub AtMost : ℕ → List A → Type 0
    AtMost k [] = Unit
    AtMost k (x ∷ xs) = (key x ≤ k) × AtMost k xs

    abbrev pub IsAscending : List A → Type 0
    IsAscending [] = Unit
    IsAscending (x ∷ xs) = AtLeast (key x) xs × IsAscending xs

    abbrev pub IsDescending : List A → Type 0
    IsDescending [] = Unit
    IsDescending (x ∷ xs) = AtMost (key x) xs × IsDescending xs

    AtLeast-mono : {k l : ℕ} (xs : List A) → k ≤ l → AtLeast l xs → AtLeast k xs
    AtLeast-mono [] h a = tt
    AtLeast-mono (x ∷ xs) h a = (omega (arith, a.0), AtLeast-mono xs h a.1)

    AtMost-mono : {k l : ℕ} (xs : List A) → k ≤ l → AtMost k xs → AtMost l xs
    AtMost-mono [] h a = tt
    AtMost-mono (x ∷ xs) h a = (omega (arith, a.0), AtMost-mono xs h a.1)

    AtLeast-insert_by :
        (first : A → A → Bool) (k : ℕ) (x : A) (xs : List A)
        → k ≤ key x
        → AtLeast k xs
        → AtLeast k (insert_by first x xs)
    AtLeast-insert_by first k x [] h a = (h, tt)
    AtLeast-insert_by first k x (y ∷ ys) h a = ground (arith, AtLeast-insert_by first k x ys h a.1)

    AtMost-insert_by :
        (first : A → A → Bool) (k : ℕ) (x : A) (xs : List A)
        → key x ≤ k
        → AtMost k xs
        → AtMost k (insert_by first x xs)
    AtMost-insert_by first k x [] h a = (h, tt)
    AtMost-insert_by first k x (y ∷ ys) h a = ground (arith, AtMost-insert_by first k x ys h a.1)

    insert_by-IsAscending :
        (x : A) (xs : List A)
        → IsAscending xs
        → IsAscending (insert_by (λ x y. leb (key x) (key y)) x xs)
    insert_by-IsAscending x [] a = (tt, tt)
    insert_by-IsAscending x (y ∷ ys) a = ground (
      arith,
      AtLeast-mono {k = key x} {l = key y} ys,
      AtLeast-insert_by (λ x y. leb (key x) (key y)) (key y) x ys,
      insert_by-IsAscending x ys a.1,
    )

    insert_by-IsDescending :
        (x : A) (xs : List A)
        → IsDescending xs
        → IsDescending (insert_by (λ x y. leb (key y) (key x)) x xs)
    insert_by-IsDescending x [] a = (tt, tt)
    insert_by-IsDescending x (y ∷ ys) a = ground (
      arith,
      AtMost-mono {k = key y} {l = key x} ys,
      AtMost-insert_by (λ x y. leb (key y) (key x)) (key y) x ys,
      insert_by-IsDescending x ys a.1,
    )

    pub sort_by_key-IsAscending : (xs : List A) → IsAscending (sort_by_key xs)
    unfolding sort_by_key
    sort_by_key-IsAscending [] = tt
    sort_by_key-IsAscending (x ∷ xs) = insert_by-IsAscending x _ (sort_by_key-IsAscending xs)

    order_desc-IsDescending : (xs : List A) → IsDescending (order_desc xs)
    unfolding order_desc
    order_desc-IsDescending [] = tt
    order_desc-IsDescending (x ∷ xs) = insert_by-IsDescending x _ (order_desc-IsDescending xs)

    count_from-le : (t : ℕ) (xs : List A) → count_from t xs ≤ length xs
    count_from-le t [] = omega arith
    count_from-le t (x ∷ xs) = ground (arith, count_from-le t xs)

    AtLeast-all : (t k : ℕ) (xs : List A) → t ≤ k → AtLeast k xs → count_from t xs ≡ length xs
    AtLeast-all t k [] h a = refl
    AtLeast-all t k (x ∷ xs) h a = ground (arith, AtLeast-all t k xs h a.1)

    AtMost-none : (t k : ℕ) (xs : List A) → k < t → AtMost k xs → count_from t xs ≡ 0
    AtMost-none t k [] h a = refl
    AtMost-none t k (x ∷ xs) h a = ground (arith, AtMost-none t k xs h a.1)

    count_from-take :
        (t n : ℕ) (xs : List A)
        → IsDescending xs
        → count_from t (take n xs) ≡ min n (count_from t xs)
    count_from-take t zero xs d = omega arith
    count_from-take t (suc n) [] d = omega arith
    count_from-take t (suc n) (x ∷ xs) d =
        ground (arith, count_from-take t n xs d.1, AtMost-none t (key x) xs)

    count_from-drop_nil : (t n : ℕ) → count_from t (drop n []) ≡ 0
    count_from-drop_nil t zero = refl
    count_from-drop_nil t (suc n) = refl

    count_from-drop :
        (t n : ℕ) (xs : List A)
        → IsAscending xs
        → count_from t (drop (length xs - n) xs) ≡ min n (count_from t xs)
    count_from-drop t n [] a = omega (arith, count_from-drop_nil t (0 - n))
    count_from-drop t n (x ∷ xs) a = elim (Bool-cases (leb n (length xs))) [
      | inl few ↦
          rw (less few) (
            ground
              (arith, count_from-drop t n xs a.1, AtLeast-all t (key x) xs, count_from-le t xs))
      | inr many ↦ rw (all many) (ground (arith, count_from-le t xs))
    ]
      where
        less : leb n (length xs) ≡ true → suc (length xs) - n ≡ suc (length xs - n)
        less e = ground arith

        all : leb n (length xs) ≡ false → suc (length xs) - n ≡ zero
        all e = ground arith

    drop-AtLeast : (n k : ℕ) (xs : List A) → AtLeast k xs → AtLeast k (drop n xs)
    drop-AtLeast zero k xs a = a
    drop-AtLeast (suc n) k [] a = tt
    drop-AtLeast (suc n) k (x ∷ xs) a = drop-AtLeast n k xs a.1

    pub drop-IsAscending : (n : ℕ) (xs : List A) → IsAscending xs → IsAscending (drop n xs)
    drop-IsAscending zero xs a = a
    drop-IsAscending (suc n) [] a = tt
    drop-IsAscending (suc n) (x ∷ xs) a = drop-IsAscending n xs a.1

    pub count_from-zero : (xs : List A) → count_from 0 xs ≡ length xs
    count_from-zero [] = refl
    count_from-zero (x ∷ xs) = ground (arith, count_from-zero xs)

    -- The first n of a list in descending order hold as many keys from t on as there are, up to n.
    pub count_from-newest :
        (t n : ℕ) (xs : List A) → count_from t (take n (order_desc xs)) ≡ min n (count_from t xs)
    unfolding order_desc
    count_from-newest t n xs = omega (
      arith,
      count_from-take t n (order_desc xs) (order_desc-IsDescending xs),
      count_from-sort_by (λ x y. leb (key y) (key x)) t xs,
    )

    -- So do the last n of a list in ascending order.
    pub count_from-last :
        (t n : ℕ) (xs : List A)
        → count_from t (drop (length (sort_by_key xs) - n) (sort_by_key xs))
          ≡ min n (count_from t xs)
    unfolding sort_by_key
    count_from-last t n xs = omega (
      arith,
      count_from-drop t n (sort_by_key xs) (sort_by_key-IsAscending xs),
      count_from-sort_by (λ x y. leb (key x) (key y)) t xs,
    )
