-- ===== src/Availability/Measure.antt =====
-- What the lengths after `union` add up to: the number of covered instants.
use nautobot_maps.Prelude.{
  ℕ, zero, suc, ◌+◌, ◌-◌, ◌≤◌, min, ◌≡◌, refl, Bool, true, false, ◌&&◌, ◌||◌, List, [], ◌∷◌, arith,
  if◌then◌else◌, ◌<◌, ◌∙◌, sym,
}
use nautobot_maps.Availability.Interval.{Time, Interval, total_length, union}
use nautobot_maps.Availability.Union.{union-IsNormal, covers-union}
use nautobot_maps.Availability.Cover.{holds, covers, NormalFrom, EndsBy, covers-before, IsNormal}

-- How many instants below `n` pass the test.
unfoldable pub count_below : ℕ → (Time → Bool) → ℕ
count_below zero p = 0
count_below (suc n) p = (if p n then 1 else 0) + count_below n p

pub count_below-congr :
    (n : ℕ) (p q : Time → Bool) → ((t : Time) → p t ≡ q t) → count_below n p ≡ count_below n q
unfolding count_below
count_below-congr zero p q h = refl
count_below-congr (suc n) p q h = ground (arith, h n, count_below-congr n p q h)

count_below-false : (n : ℕ) → count_below n (λ t. false) ≡ 0
unfolding count_below
count_below-false zero = refl
count_below-false (suc n) = omega (arith, count_below-false n)

count_below-holds : (n : ℕ) (i : Interval) → count_below n (λ t. holds t i) ≡ min n i.1 - i.0
unfolding count_below
count_below-holds zero i = omega arith
count_below-holds (suc n) i = ground (arith, count_below-holds n i)

-- Of two tests that never both pass, the counts add up.
count_below-or :
    (n : ℕ) (p q : Time → Bool)
    → ((t : Time) → (p t && q t) ≡ false)
    → count_below n (λ t. p t || q t) ≡ count_below n p + count_below n q
unfolding count_below
count_below-or zero p q h = refl
count_below-or (suc n) p q h = ground (arith, h n, count_below-or n p q h)

pub count_below_mono :
    (n : ℕ) (p q : Time → Bool)
    → ((t : Time) → p t ≡ true → q t ≡ true)
    → count_below n p ≤ count_below n q
unfolding count_below
count_below_mono zero p q h = omega arith
count_below_mono (suc n) p q h = ground (arith, h n, count_below_mono n p q h)

head_apart :
    (b : Time) (i : Interval) (l : List Interval) (t : Time)
    → NormalFrom b (i ∷ l)
    → (holds t i && covers t l) ≡ false
head_apart b i l t n = ground (arith, covers-before t (suc i.1) l n.2)

total_length-count :
    (n b : ℕ) (l : List Interval)
    → NormalFrom b l
    → EndsBy n l
    → total_length l ≡ count_below n (λ t. covers t l)
unfolding total_length covers
total_length-count n b [] m e = omega (arith, count_below-false n)
total_length-count n b (i ∷ l) m e = omega (
  arith,
  count_below-or n (λ t. holds t i) (λ t. covers t l) (λ t. head_apart b i l t m),
  count_below-holds n i,
  total_length-count n (suc i.1) l m.2 e.1,
)

covers_lt : (n t : ℕ) (l : List Interval) → EndsBy n l → covers t l ≡ true → t < n
unfolding covers
covers_lt n t [] e h = cc
covers_lt n t (i ∷ l) e h = ground (arith, covers_lt n t l e.1)

-- A normal list ends by `n` if it covers nothing from `n` on.
covers-EndsBy :
    (n b : ℕ) (l : List Interval)
    → NormalFrom b l
    → ((t : Time) → covers t l ≡ true → t < n)
    → EndsBy n l
unfolding covers
covers-EndsBy n b [] m h = tt
covers-EndsBy n b (i ∷ l) m h =
    (ground (arith, h (i.1 - 1)), covers-EndsBy n (suc i.1) l m.2 (λ t c. ground (arith, h t)))

-- The length of a normal list is the number of instants that it covers.
pub total_length_of_covers :
    (n : ℕ) (l : List Interval) (p : Time → Bool)
    → IsNormal l
    → ((t : Time) → covers t l ≡ p t)
    → ((t : Time) → p t ≡ true → t < n)
    → total_length l ≡ count_below n p
total_length_of_covers n l p m h bound =
    total_length-count n 0 l m (covers-EndsBy n 0 l m (λ t c. bound t (ground (arith, h t))))
    ∙ count_below-congr n (λ t. covers t l) p h

-- After `union` the lengths add up to the number of instants that some interval covers, so what
-- overlaps counts once. `n` is any time by which all have ended.
pub total_length-union :
    (n : ℕ) (l : List Interval)
    → EndsBy n l
    → total_length (union l) ≡ count_below n (λ t. covers t l)
total_length-union n l e =
    total_length_of_covers n (union l) (λ t. covers t l) (union-IsNormal l) (λ t. covers-union t l)
      (λ t c. covers_lt n t l e c)

-- At the start of its first interval a normal list begins to cover, so the first intervals of two
-- lists that cover the same instants are the same.
heads_equal :
    (b : Time) (i j : Interval) (a c : List Interval)
    → NormalFrom b (i ∷ a)
    → NormalFrom b (j ∷ c)
    → ((t : Time) → covers t (i ∷ a) ≡ covers t (j ∷ c))
    → (i.0 ≡ j.0) × (i.1 ≡ j.1)
unfolding covers
heads_equal b i j a c m n h = ground (
  arith,
  h i.0,
  h j.0,
  h i.1,
  h j.1,
  covers-before i.0 (suc j.1) c n.2,
  covers-before j.0 (suc i.1) a m.2,
  covers-before i.1 (suc i.1) a m.2,
  covers-before j.1 (suc j.1) c n.2,
)

tails_equal :
    (i j : Interval) (a c : List Interval) (t : Time)
    → (i.0 ≡ j.0) × (i.1 ≡ j.1)
    → NormalFrom (suc i.1) a
    → NormalFrom (suc j.1) c
    → covers t (i ∷ a) ≡ covers t (j ∷ c)
    → covers t a ≡ covers t c
unfolding covers
tails_equal i j a c t e m n h =
    ground (arith, covers-before t (suc i.1) a m, covers-before t (suc j.1) c n)

-- Two normal lists that cover the same instants are the same list.
pub normal_unique :
    (b : Time) (a c : List Interval)
    → NormalFrom b a
    → NormalFrom b c
    → ((t : Time) → covers t a ≡ covers t c)
    → a ≡ c
normal_unique b [] [] m n h = refl
normal_unique b [] (j ∷ c) m n h = unfold covers in ground (arith, h j.0)
normal_unique b (i ∷ a) [] m n h = unfold covers in ground (arith, h i.0)
normal_unique b (i ∷ a) (j ∷ c) m n h =
    let e : (i.0 ≡ j.0) × (i.1 ≡ j.1) = heads_equal b i j a c m n h in
    let rest : a ≡ c =
      normal_unique (suc i.1) a c m.2 (rw (e.1) n.2) (λ t. tails_equal i j a c t e m.2 n.2 (h t)) in
    ground arith

-- Whatever the order and the overlaps of what it is given, `union` has one result for one set of
-- covered instants.
pub union_canonical :
    (a c : List Interval) → ((t : Time) → covers t a ≡ covers t c) → union a ≡ union c
union_canonical a c h =
    normal_unique 0 (union a) (union c) (union-IsNormal a) (union-IsNormal c)
      (λ t. covers-union t a ∙ h t ∙ sym (covers-union t c))
