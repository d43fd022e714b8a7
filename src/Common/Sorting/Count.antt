-- ===== src/Common/Sorting/Count.antt =====
-- How many elements of a list pass a test, after sorting it and cutting it.
use puncture.Common.{
  ℕ, zero, suc, ◌+◌, ◌≤◌, Bool, ◌≡◌, refl, List, [], ◌∷◌, ◌++◌, map, arith, if◌then◌else◌,
}
use puncture.Common.Sorting.{take, drop, insert_by, sort_by, sort_by_key, order_desc}

module _ {ℓ} {A : Type ℓ} where
  abbrev pub count : (A → Bool) → List A → ℕ
  count test [] = 0
  count test (x ∷ xs) = (if test x then 1 else 0) + count test xs

  module _ (test : A → Bool) where
    pub count-append : (xs ys : List A) → count test (xs ++ ys) ≡ count test xs + count test ys
    count-append [] ys = omega arith
    count-append (x ∷ xs) ys = omega (arith, count-append xs ys)

    pub count-take : (n : ℕ) (xs : List A) → count test (take n xs) ≤ count test xs
    count-take zero xs = omega arith
    count-take (suc n) [] = omega arith
    count-take (suc n) (x ∷ xs) = omega (arith, count-take n xs)

    pub count-drop : (n : ℕ) (xs : List A) → count test (drop n xs) ≤ count test xs
    count-drop zero xs = omega arith
    count-drop (suc n) [] = omega arith
    count-drop (suc n) (x ∷ xs) = omega (arith, count-drop n xs)

    count-insert_by :
        (first : A → A → Bool) (x : A) (xs : List A)
        → count test (insert_by first x xs) ≡ (if test x then 1 else 0) + count test xs
    count-insert_by first x [] = refl
    count-insert_by first x (y ∷ ys) = ground (arith, count-insert_by first x ys)

    count-sort_by :
        (first : A → A → Bool) (xs : List A) → count test (sort_by first xs) ≡ count test xs
    unfolding sort_by
    count-sort_by first [] = refl
    count-sort_by first (x ∷ xs) =
        omega (arith, count-insert_by first x (sort_by first xs), count-sort_by first xs)

    pub count-sort_by_key :
        (key : A → ℕ) (xs : List A) → count test (sort_by_key key xs) ≡ count test xs
    unfolding sort_by_key
    count-sort_by_key key xs = count-sort_by _ xs

    pub count-order_desc :
        (key : A → ℕ) (xs : List A) → count test (order_desc key xs) ≡ count test xs
    unfolding order_desc
    count-order_desc key xs = count-sort_by _ xs

pub count-map :
    {A B : Type 0} (test : B → Bool) (f : A → B) (xs : List A)
    → count test (map f xs) ≡ count (λ x. test (f x)) xs
count-map test f [] = refl
count-map test f (x ∷ xs) = omega (arith, count-map test f xs)
