-- ===== src/Observability/Order.antt =====
-- The order of the statistics of packages/observability/src/index.ts: what is sorted is
-- ascending and of the same values, and the summary's fields follow one another.
use Prim.Native.Nat.{min}
use uscs.Common.{
  ℕ, zero, suc, ◌+◌, ◌≤◌, ◌<◌, max, ◌≡◌, refl, ap, ◌∙◌, inl, inr, Bool-cases, List, [], ◌∷◌, length,
  arith, leb, ◌==◌, if◌then◌else◌, All,
}
use uscs.Observability.{insert_sorted, sort, at, minimum, maximum}

-- How often a number stands in a list.
abbrev pub count : ℕ → List ℕ → ℕ
count a [] = 0
count a (x ∷ xs) = (if x == a then 1 else 0) + count a xs

-- Every element is at most the ones behind it.
abbrev pub Ascending : List ℕ → Type 0
Ascending [] = Unit
Ascending (x ∷ xs) = All (λ y. x ≤ y) xs × Ascending xs

count-insert_sorted :
    (a x : ℕ) (ys : List ℕ) → count a (insert_sorted x ys) ≡ (if x == a then 1 else 0) + count a ys
unfolding insert_sorted
count-insert_sorted a x [] = refl
count-insert_sorted a x (y ∷ ys) = ground (arith, count-insert_sorted a x ys)

pub count-sort : (a : ℕ) (xs : List ℕ) → count a (sort xs) ≡ count a xs
unfolding sort
count-sort a [] = refl
count-sort a (x ∷ xs) =
    count-insert_sorted a x (sort xs) ∙ ap (λ n. (if x == a then 1 else 0) + n) (count-sort a xs)

length-insert_sorted : (x : ℕ) (ys : List ℕ) → length (insert_sorted x ys) ≡ suc (length ys)
unfolding insert_sorted
length-insert_sorted x [] = refl
length-insert_sorted x (y ∷ ys) = ground (arith, length-insert_sorted x ys)

pub length-sort : (xs : List ℕ) → length (sort xs) ≡ length xs
unfolding sort
length-sort [] = refl
length-sort (x ∷ xs) = length-insert_sorted x (sort xs) ∙ ap suc (length-sort xs)

All-weaken : (x y : ℕ) (ys : List ℕ) → x ≤ y → All (λ z. y ≤ z) ys → All (λ z. x ≤ z) ys
All-weaken x y [] h a = tt
All-weaken x y (z ∷ zs) h (p, a) = (omega arith, All-weaken x y zs h a)

All-insert_sorted :
    (b x : ℕ) (ys : List ℕ) → b ≤ x → All (λ z. b ≤ z) ys → All (λ z. b ≤ z) (insert_sorted x ys)
unfolding insert_sorted
All-insert_sorted b x [] h a = (h, tt)
All-insert_sorted b x (y ∷ ys) h (p, a) = elim (Bool-cases (leb x y)) [
  | inl e ↦ rw e (h, (p, a))
  | inr e ↦ rw e (p, All-insert_sorted b x ys h a)
]

insert_sorted-Ascending : (x : ℕ) (ys : List ℕ) → Ascending ys → Ascending (insert_sorted x ys)
unfolding insert_sorted
insert_sorted-Ascending x [] h = (tt, tt)
insert_sorted-Ascending x (y ∷ ys) (a, s) = elim (Bool-cases (leb x y)) [
  | inl e ↦ rw e ((ground arith, All-weaken x y ys (ground arith) a), (a, s))
  | inr e ↦ rw e (All-insert_sorted y x ys (ground arith) a, insert_sorted-Ascending x ys s)
]

pub sort-Ascending : (xs : List ℕ) → Ascending (sort xs)
unfolding sort
sort-Ascending [] = tt
sort-Ascending (x ∷ xs) = insert_sorted-Ascending x (sort xs) (sort-Ascending xs)

pub at-le : (s : List ℕ) (i j : ℕ) → Ascending s → i ≤ j → j < length s → at s i ≤ at s j
unfolding at
at-le [] i j a h k = omega arith
at-le (x ∷ xs) zero zero a h k = omega arith
at-le (x ∷ xs) zero (suc j) (a, s) h k = All-at x xs j a (omega arith)
  where
    All-at : (x : ℕ) (ys : List ℕ) (j : ℕ) → All (λ y. x ≤ y) ys → j < length ys → x ≤ at ys j
    All-at x [] j a k = absurd (omega arith)
    All-at x (y ∷ ys) zero (p, a) k = p
    All-at x (y ∷ ys) (suc j) (p, a) k = All-at x ys j a (omega arith)
at-le (x ∷ xs) (suc i) zero a h k = absurd (omega arith)
at-le (x ∷ xs) (suc i) (suc j) (a, s) h k = at-le xs i j s (omega arith) (omega arith)

pub count-at : (s : List ℕ) (i : ℕ) → i < length s → 1 ≤ count (at s i) s
unfolding at
count-at [] i h = absurd (omega arith)
count-at (x ∷ xs) zero h = ground arith
count-at (x ∷ xs) (suc i) h = omega (arith, count-at xs i (omega arith))

at-insert_sorted_first : (x y : ℕ) (ys : List ℕ) → at (insert_sorted x (y ∷ ys)) 0 ≡ min x y
unfolding insert_sorted at
at-insert_sorted_first x y ys = ground arith

-- The first of the sorted values is the least.
pub minimum-sort : (x : ℕ) (xs : List ℕ) → minimum (x ∷ xs) ≡ at (sort (x ∷ xs)) 0
unfolding minimum sort
minimum-sort x [] = unfold insert_sorted at in refl
minimum-sort x (y ∷ ys) = first (sort (y ∷ ys)) (length-sort (y ∷ ys)) (minimum-sort y ys)
  where
    first :
        (s : List ℕ)
        → length s ≡ suc (length ys)
        → minimum (y ∷ ys) ≡ at s 0
        → min x (minimum (y ∷ ys)) ≡ at (insert_sorted x s) 0
    first [] l h = absurd (omega arith)
    first (z ∷ zs) l h = rw (at-insert_sorted_first x z zs) (unfold at in omega (arith, h))

at-insert_sorted_last :
    (x y : ℕ) (ys : List ℕ)
    → Ascending (y ∷ ys)
    → at (insert_sorted x (y ∷ ys)) (suc (length ys)) ≡ max x (at (y ∷ ys) (length ys))
unfolding insert_sorted at
at-insert_sorted_last x y [] h = ground arith
at-insert_sorted_last x y (z ∷ zs) (a, s) = ground (
  arith,
  at-insert_sorted_last x z zs s,
  at-le (y ∷ z ∷ zs) 0 (suc (length zs)) (a, s) (omega arith) (omega arith),
)

-- The last of the sorted values is the greatest.
pub maximum-sort : (x : ℕ) (xs : List ℕ) → maximum (x ∷ xs) ≡ at (sort (x ∷ xs)) (length xs)
unfolding maximum sort
maximum-sort x [] = unfold insert_sorted at in refl
maximum-sort x (y ∷ ys) =
    final (sort (y ∷ ys)) (length-sort (y ∷ ys)) (sort-Ascending (y ∷ ys)) (maximum-sort y ys)
  where
    final :
        (s : List ℕ)
        → length s ≡ suc (length ys)
        → Ascending s
        → maximum (y ∷ ys) ≡ at s (length ys)
        → max x (maximum (y ∷ ys)) ≡ at (insert_sorted x s) (suc (length ys))
    final [] l a h = absurd (omega arith)
    final (z ∷ zs) l a h =
        let e : length zs ≡ length ys = omega (arith, l) in
        rw (h, ← e, at-insert_sorted_last x z zs a) refl
