-- ===== src/Common/Sorting/Reverse.antt =====
-- Sorting only moves elements, and a list in ascending order is descending in reverse.
use Prim.Native.Nat.{ℕ, ◌≤◌}
use mathlib.Core.Bool.{Bool}
use mathlib.Core.Logic.{inl, inr}
use mathlib.Core.List.{List, [], ◌∷◌, ◌++◌, reverse, reverse-cons, reverse_perm, Perm}
use mathlib.Core.List.Perm
use puncture.Common.Tests.{Bool-cases, leb}
use puncture.Common.Sorting.{
  insert_by, sort_by, sort_by_key, AtLeast, AtMost, IsAscending, IsDescending,
  sort_by_key-IsAscending,
}

module _ {ℓ} {A : Type ℓ} where
  insert_by-perm :
      (first : A → A → Bool) (x : A) (xs : List A) → Perm (insert_by first x xs) (x ∷ xs)
  insert_by-perm first x [] = Perm.refl _
  insert_by-perm first x (y ∷ ys) = elim (Bool-cases (first x y)) [
    | inl e ↦ rw e (Perm.refl _)
    | inr e ↦ rw e (Perm.trans (Perm.cons y (insert_by-perm first x ys)) (Perm.swap x y ys))
  ]

  sort_by-perm : (first : A → A → Bool) (xs : List A) → Perm (sort_by first xs) xs
  unfolding sort_by
  sort_by-perm first [] = Perm.refl _
  sort_by-perm first (x ∷ xs) =
      Perm.trans (insert_by-perm first x (sort_by first xs)) (Perm.cons x (sort_by-perm first xs))

  module _ (key : A → ℕ) where
    AtLeast-snoc :
        (k : ℕ) (x : A) (xs : List A) → AtLeast key k xs → k ≤ key x → AtLeast key k (xs ++ x ∷ [])
    AtLeast-snoc k x [] a h = (h, tt)
    AtLeast-snoc k x (y ∷ ys) a h = (a.0, AtLeast-snoc k x ys a.1 h)

    AtMost-snoc :
        (k : ℕ) (x : A) (xs : List A) → AtMost key k xs → key x ≤ k → AtMost key k (xs ++ x ∷ [])
    AtMost-snoc k x [] a h = (h, tt)
    AtMost-snoc k x (y ∷ ys) a h = (a.0, AtMost-snoc k x ys a.1 h)

    reverse-AtLeast : (k : ℕ) (xs : List A) → AtLeast key k xs → AtLeast key k (reverse xs)
    reverse-AtLeast k [] a = tt
    reverse-AtLeast k (x ∷ xs) a =
        rw (reverse-cons x xs) (AtLeast-snoc k x (reverse xs) (reverse-AtLeast k xs a.1) a.0)

    snoc-IsDescending :
        (x : A) (xs : List A)
        → IsDescending key xs
        → AtLeast key (key x) xs
        → IsDescending key (xs ++ x ∷ [])
    snoc-IsDescending x [] d a = (tt, tt)
    snoc-IsDescending x (y ∷ ys) d a =
        (AtMost-snoc (key y) x ys d.0 a.0, snoc-IsDescending x ys d.1 a.1)

    reverse-IsDescending : (xs : List A) → IsAscending key xs → IsDescending key (reverse xs)
    reverse-IsDescending [] a = tt
    reverse-IsDescending (x ∷ xs) a = rw (reverse-cons x xs) (
        snoc-IsDescending x (reverse xs) (reverse-IsDescending xs a.1)
          (reverse-AtLeast (key x) xs a.0))

    pub reverse-sort_by_key-IsDescending :
        (xs : List A) → IsDescending key (reverse (sort_by_key key xs))
    reverse-sort_by_key-IsDescending xs =
        reverse-IsDescending (sort_by_key key xs) (sort_by_key-IsAscending key xs)

    pub reverse-sort_by_key-perm : (xs : List A) → Perm (reverse (sort_by_key key xs)) xs
    unfolding sort_by_key
    reverse-sort_by_key-perm xs =
        Perm.trans (reverse_perm (sort_by_key key xs))
          (sort_by-perm (λ x y. leb (key x) (key y)) xs)
