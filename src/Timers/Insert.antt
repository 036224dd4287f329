-- ===== src/Timers/Insert.antt =====
-- `insert` of polaris/src/TimerQueue.cc.
use lute.Prelude.{
  suc, [], ◌∷◌, true, false, ◌≡◌, List, ◌≤◌, arith, ℕ, ◌⊎◌, ◌≢◌, subst, ap, inl, Returns, length,
  ◌∙◌, refl, inr, Bool-cases, sym, Bool, ◌||◌, Returns->>=, ◌<◌, ltb, ltb→lt, assert->>,
}
use lute.Timers.{Entry, same, before, set_has, set_insert, max_address, TimerQueue, insert}
use lute.Timers.Sets.{Each, Each-map, Apart, Distinct, Ordered}
use lute.Timers.Expired.{InStep, IsActive, sizes_lem}

-- The entry stands in its place, and all else as before.
abbrev pub Inserted : Entry → List Entry → List Entry → Type 0
Inserted e [] ys = ys ≡ e ∷ []
Inserted e (x ∷ xs) ys =
    ((before e x ≡ true) × (ys ≡ e ∷ x ∷ xs))
    ⊎ ((zs : List Entry) × (before x e ≡ true) × Inserted e xs zs × (ys ≡ x ∷ zs))

pub trichotomy : (e x : Entry) → same e x ≡ false → before e x ≡ false → before x e ≡ true
trichotomy (a, b) (c, d) h k = ground arith

before-time : (e x : Entry) → before e x ≡ true → e.0 ≤ x.0
before-time (a, b) (c, d) h = ground arith

set_insert-Inserted :
    (e : Entry) (xs : List Entry) → set_has e xs ≡ false → Returns (set_insert e xs) (Inserted e xs)
unfolding set_insert set_has
set_insert-Inserted e [] h = refl
set_insert-Inserted e (x ∷ xs) h = elim (Bool-cases (same e x)) [
  | inl equal ↦ absurd (cc (sym h ∙ ap (λ b. b || set_has e xs) equal))
  | inr other ↦ elim (Bool-cases (before e x)) [
    | inl first ↦ rw first (inl (first, refl))
    | inr later ↦
        let after = trichotomy e x other later in
        rw (later, after)
          (Returns->>= (Inserted e xs) (Inserted e (x ∷ xs)) (set_insert e xs) _
            (set_insert-Inserted e xs (sym (ap (λ b. b || set_has e xs) other) ∙ h))
            (λ ys i. inr (ys, after, i, refl)))
  ]
]

pub Each-Inserted :
    (P : Entry → Type 0) (e : Entry) (xs ys : List Entry)
    → Inserted e xs ys
    → P e
    → Each P xs
    → Each P ys
Each-Inserted P e [] ys i h k = subst (Each P) (sym i) (h, tt)
Each-Inserted P e (x ∷ xs) ys (inl (b, w)) h k = subst (Each P) (sym w) (h, k)
Each-Inserted P e (x ∷ xs) ys (inr (zs, b, i, w)) h (k, ks) =
    subst (Each P) (sym w) (k, Each-Inserted P e xs zs i h ks)

length-Inserted : (e : Entry) (xs ys : List Entry) → Inserted e xs ys → length ys ≡ suc (length xs)
length-Inserted e [] ys i = ap length i
length-Inserted e (x ∷ xs) ys (inl (b, w)) = ap length w
length-Inserted e (x ∷ xs) ys (inr (zs, b, i, w)) = ap length w ∙ ap suc (length-Inserted e xs zs i)

Distinct-Inserted :
    (e : Entry) (xs ys : List Entry) → Inserted e xs ys → Apart e.1 xs → Distinct xs → Distinct ys
Distinct-Inserted e [] ys i a d = subst Distinct (sym i) (tt, tt)
Distinct-Inserted e (x ∷ xs) ys (inl (b, w)) a d = subst Distinct (sym w) (a, d)
Distinct-Inserted e (x ∷ xs) ys (inr (zs, b, i, w)) (a, away) (d, ds) = subst Distinct (sym w) (
  Each-Inserted (λ y. x.1 ≢ y.1) e xs zs i (λ k. a (sym k)) d,
  Distinct-Inserted e xs zs i away ds,
)

Ordered-Inserted : (e : Entry) (xs ys : List Entry) → Inserted e xs ys → Ordered xs → Ordered ys
Ordered-Inserted e [] ys i o = subst Ordered (sym i) (tt, tt)
Ordered-Inserted e (x ∷ xs) ys (inl (b, w)) (o, os) =
    let first = before-time e x b in
    subst Ordered (sym w) ((first, Each-map xs (λ y h. omega arith) o), (o, os))
Ordered-Inserted e (x ∷ xs) ys (inr (zs, b, i, w)) (o, os) =
    subst Ordered (sym w) (
      Each-Inserted (λ y. x.0 ≤ y.0) e xs zs i (before-time x e b) o,
      Ordered-Inserted e xs zs i os,
    )

set_has-Inserted :
    (f e : Entry) (xs ys : List Entry)
    → Inserted e xs ys
    → set_has f xs ≡ true
    → set_has f ys ≡ true
unfolding set_has
set_has-Inserted f e [] ys i h = absurd (cc h)
set_has-Inserted f e (x ∷ xs) ys (inl (b, w)) h = ap (set_has f) w ∙ or_later (same f e) h
  where
    or_later : (b : Bool) {c : Bool} → c ≡ true → (b || c) ≡ true
    or_later true h = refl
    or_later false h = h
set_has-Inserted f e (x ∷ xs) ys (inr (zs, b, i, w)) h = elim (Bool-cases (same f x)) [
  | inl first ↦ ap (set_has f) w ∙ ap (λ b. b || set_has f zs) first
  | inr later ↦
      ap (set_has f) w
      ∙ ap (λ b. b || set_has f zs) later
      ∙ set_has-Inserted f e xs zs i (sym (ap (λ b. b || set_has f xs) later) ∙ h)
]

same_refl : (e : Entry) → same e e ≡ true
same_refl (a, b) = ground arith

pub has_itself : (e : Entry) (xs ys : List Entry) → Inserted e xs ys → set_has e ys ≡ true
unfolding set_has
has_itself e [] ys i = ap (set_has e) i ∙ ap (λ b. b || false) (same_refl e)
has_itself e (x ∷ xs) ys (inl (b, w)) =
    ap (set_has e) w ∙ ap (λ b. b || set_has e (x ∷ xs)) (same_refl e)
has_itself e (x ∷ xs) ys (inr (zs, b, i, w)) =
    ap (set_has e) w ∙ ap (λ b. same e x || b) (has_itself e xs zs i) ∙ or_true (same e x)
  where
    or_true : (b : Bool) → (b || true) ≡ true
    or_true true = refl
    or_true false = refl

absent_lem : (t p : ℕ) (xs : List Entry) → Apart p xs → set_has (t, p) xs ≡ false
unfolding set_has
absent_lem t p [] a = refl
absent_lem t p ((u, q) ∷ xs) (a, away) = rw (other t p u q a, absent_lem t p xs away) refl
  where
    other : (t p u q : ℕ) → p ≢ q → same (t, p) (u, q) ≡ false
    other t p u q h = ground arith

module _ (Seconds : Type 0) (add_time : ℕ → Seconds → ℕ) where
  -- What `insert` changes, and what it says of the earliest timer.
  abbrev pub Adds : ℕ → TimerQueue Seconds add_time → Bool × TimerQueue Seconds add_time → Type 0
  Adds p q r =
      InStep Seconds add_time r.1
      × Inserted ((q.objects p).expiration, p) q.timers r.1.timers
      × Inserted (p, (q.objects p).sequence) q.active r.1.active
      × (r.1.objects ≡ q.objects)
      × (r.0 ≡ true → Each (λ x. (q.objects p).expiration < x.0) q.timers)

  earliest_lem :
      (when : ℕ) (xs : List Entry)
      → Ordered xs
      → (elim xs [ [] ↦ true | first ∷ rest ↦ ltb when first.0 ]) ≡ true
      → Each (λ x. when < x.0) xs
  earliest_lem when [] o h = tt
  earliest_lem when (x ∷ xs) (o, os) h =
      let first = ltb→lt _ _ h in (first, Each-map xs (λ y k. omega arith) o)

  -- From two sets that are in step, a timer that is in neither of them goes to its place among the
  -- others; every assert holds, and the two sets stay in step. The result is true only if the timer
  -- is due before all the others.
  pub insert-Adds :
      (p : ℕ) (q : TimerQueue Seconds add_time)
      → InStep Seconds add_time q
      → p < max_address
      → Apart p q.timers
      → set_has (p, (q.objects p).sequence) q.active ≡ false
      → Returns (insert Seconds add_time p q) (Adds p q)
  unfolding insert
  insert-Adds p q step low apart idle =
      assert->> (Adds p q) _ _ (sizes_lem Seconds add_time q step.sizes) (
        Returns->>= (Inserted entry q.timers) (Adds p q) (set_insert entry q.timers) _
          (set_insert-Inserted entry q.timers
            (absent_lem (q.objects p).expiration p q.timers apart))
          (λ timers i.
            Returns->>= (Inserted number q.active) (Adds p q) (set_insert number q.active) _
              (set_insert-Inserted number q.active idle)
              (λ active j.
                assert->> (Adds p q) _ _
                  (sizes_lem Seconds add_time (after timers active) (equal timers active i j))
                  (
                    in_step timers active i j,
                    i,
                    j,
                    refl,
                    earliest_lem (q.objects p).expiration q.timers step.ordered,
                  ))))
    where
      entry : Entry
      entry = ((q.objects p).expiration, p)

      number : Entry
      number = (p, (q.objects p).sequence)

      after : List Entry → List Entry → TimerQueue Seconds add_time
      after timers active = record q { timers = timers; active = active }

      equal :
          (timers active : List Entry)
          → Inserted entry q.timers timers
          → Inserted number q.active active
          → length timers ≡ length active
      equal timers active i j = omega (
        arith,
        length-Inserted entry q.timers timers i,
        length-Inserted number q.active active j,
        step.sizes,
      )

      in_step :
          (timers active : List Entry)
          → Inserted entry q.timers timers
          → Inserted number q.active active
          → InStep Seconds add_time (after timers active)
      in_step timers active i j = record {
        sizes = equal timers active i j;
        known =
            Each-Inserted (IsActive Seconds add_time q.objects active) entry q.timers timers i
              (has_itself number q.active active j)
              (Each-map q.timers
                (λ x h. set_has-Inserted (x.1, (q.objects x.1).sequence) number q.active active j h)
                step.known);
        distinct = Distinct-Inserted entry q.timers timers i apart step.distinct;
        ordered = Ordered-Inserted entry q.timers timers i step.ordered;
        addressed =
            Each-Inserted (λ x. x.1 < max_address) entry q.timers timers i low step.addressed;
      }
