-- ===== src/Timers/Sets.antt =====
-- The two ordered sets of polaris/src/TimerQueue.cc.
use lute.Prelude.{
  suc, [], ◌∷◌, true, false, ◌≡◌, List, ℕ, arith, Returns, ◌≢◌, ◌++◌, ◌<◌, ◌≤◌, length, ltb, sym,
  ltb→lt, Bool-cases, inl, ap, inr, ◌∙◌, Returns->>=, refl, ◌||◌, if◌then◌else◌, ◌+◌,
}
use lute.Timers.{Entry, same, before, set_has, set_erase, split_due, starts_later, max_address}

abbrev pub Each : (Entry → Type 0) → List Entry → Type 0
Each P [] = Unit {0}
Each P (x ∷ xs) = P x × Each P xs

pub Each-map :
    {P Q : Entry → Type 0} (xs : List Entry) → ((x : Entry) → P x → Q x) → Each P xs → Each Q xs
Each-map [] f h = tt
Each-map (x ∷ xs) f (h, hs) = (f x h, Each-map xs f hs)

pub Each-append :
    (P : Entry → Type 0) (xs ys : List Entry) → Each P (xs ++ ys) → Each P xs × Each P ys
Each-append P [] ys h = (tt, h)
Each-append P (x ∷ xs) ys (h, hs) = let (l, r) = Each-append P xs ys hs in ((h, l), r)

-- No address stands in two entries.
abbrev pub Apart : ℕ → List Entry → Type 0
Apart p = Each (λ y. p ≢ y.1)

abbrev pub Distinct : List Entry → Type 0
Distinct [] = Unit {0}
Distinct (x ∷ xs) = Apart x.1 xs × Distinct xs

pub Distinct-append :
    (xs ys : List Entry)
    → Distinct (xs ++ ys)
    → Distinct xs × Distinct ys × Each (λ y. Apart y.1 xs) ys
Distinct-append [] ys h = (tt, h, all ys)
  where
    all : (ys : List Entry) → Each (λ y. Unit {0}) ys
    all [] = tt
    all (y ∷ ys) = (tt, all ys)
Distinct-append (x ∷ xs) ys (h, hs) =
    let (l, r) = Each-append (λ y. x.1 ≢ y.1) xs ys h in
    let (d, e, a) = Distinct-append xs ys hs in ((l, d), e, both ys r a)
  where
    both :
        (ys : List Entry)
        → Apart x.1 ys
        → Each (λ y. Apart y.1 xs) ys
        → Each (λ y. Apart y.1 (x ∷ xs)) ys
    both [] h k = tt
    both (y ∷ ys) (h, hs) (k, ks) = (((λ e. h (sym e)), k), both ys hs ks)

abbrev pub Ordered : List Entry → Type 0
Ordered [] = Unit {0}
Ordered (x ∷ xs) = Each (λ y. x.0 ≤ y.0) xs × Ordered xs

pub same-true : (e x : Entry) → same e x ≡ true → e ≡ x
same-true (a, b) (c, d) h = ground arith

pub same-false : (p s q t : ℕ) → p ≢ q → same (p, s) (q, t) ≡ false
same-false p s q t h = ground arith

-- How often an entry stands in a list.
abbrev pub one : Entry → Entry → ℕ
one f e = if same f e then 1 else 0

abbrev pub copies : Entry → List Entry → ℕ
copies f [] = 0
copies f (x ∷ xs) = one f x + copies f xs

-- One entry less, and all else as before.
abbrev pub Taken : Entry → List Entry → List Entry → Type 0
Taken e xs ys =
    (length xs ≡ suc (length ys))
    × ((f : Entry) → same f e ≡ false → set_has f ys ≡ set_has f xs)
    × ((f : Entry) → copies f xs ≡ one f e + copies f ys)

pub set_erase_lem :
    (e : Entry) (xs : List Entry) → set_has e xs ≡ true → Returns (set_erase e xs) (Taken e xs)
unfolding set_has set_erase
set_erase_lem e [] h = absurd (cc h)
set_erase_lem e (x ∷ xs) h = elim (Bool-cases (same e x)) [
  | inl here ↦ rw here (
    refl,
    λ f other. rw (ap (same f) (sym (same-true e x here)) ∙ other) refl,
    λ f. ap (λ z. one f z + copies f xs) (sym (same-true e x here)),
  )
  | inr there ↦ rw there (
      Returns->>= (Taken e xs) (Taken e (x ∷ xs)) (set_erase e xs) _
        (set_erase_lem e xs (rw there at h))
        (λ ys (l, k, n).
          (omega (arith, l), λ f other. ap (◌||◌ (same f x)) (k f other), λ f. omega (arith, n f))))
]

pub split_due_lem :
    (now : ℕ) (xs : List Entry)
    → Each (λ x. x.1 < max_address) xs
    → let r = split_due now xs in
      (r.0 ++ r.1 ≡ xs) × Each (λ x. x.0 ≤ now) r.0 × (starts_later now r.1 ≡ true)
unfolding split_due starts_later
split_due_lem now [] h = (refl, tt, refl)
split_due_lem now ((time, p) ∷ xs) (h, hs) =
    elim (Bool-cases (before (time, p) (now, max_address))) [
      | inl due ↦
          let (whole, early, later) = split_due_lem now xs hs in
          rw due (ap (◌∷◌ (time, p)) whole, (due_lem time p now due, early), later)
      | inr not_due ↦ rw not_due (refl, tt, later_lem time p now not_due h)
    ]
  where
    due_lem : (time p now : ℕ) → before (time, p) (now, max_address) ≡ true → time ≤ now
    due_lem time p now h = ground arith

    later_lem :
        (time p now : ℕ)
        → before (time, p) (now, max_address) ≡ false
        → p < max_address
        → ltb now time ≡ true
    later_lem time p now h k = ground arith

pub all_later :
    (now : ℕ) (xs : List Entry) → Ordered xs → starts_later now xs ≡ true → Each (λ x. now < x.0) xs
unfolding starts_later
all_later now [] h k = tt
all_later now ((time, p) ∷ xs) (h, hs) k =
    let first = ltb→lt _ _ k in (first, Each-map xs (λ y e. omega arith) h)

pub Ordered-append : (xs ys : List Entry) → Ordered (xs ++ ys) → Ordered ys
Ordered-append [] ys h = h
Ordered-append (x ∷ xs) ys (h, hs) = Ordered-append xs ys hs
