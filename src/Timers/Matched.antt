-- ===== src/Timers/Matched.antt =====
-- The two sets of polaris/src/TimerQueue.cc hold the same timers: `activeTimers_` has one entry for each
-- of `timers_`, with its sequence number, and no other.
use lute.Timers.Insert.{Inserted, Adds, Each-Inserted, insert-Adds}
use lute.Timers.Sets.{copies, Apart, one, same-false, Each, Distinct}
use lute.Timers.Expired.{InStep, Objects, keys}
use lute.Timers.{TimerQueue, Entry, set_has, same, max_address, insert}
use lute.Prelude.{
  [], ◌∷◌, true, false, inl, inr, ◌++◌, ℕ, List, ◌≡◌, Bool-cases, ◌<◌, arith, ◌+◌, ap, ◌∙◌,
  if◌then◌else◌, sym, ◌||◌, refl, Returns, Bool, Returns_map, subst,
}

module _ (Seconds : Type 0) (add_time : ℕ → Seconds → ℕ) where
  pub record Matched (q : TimerQueue Seconds add_time) : Type 0 where
    pub in_step : InStep Seconds add_time q
    -- An entry has the time at which its timer expires.
    pub timed : Each (λ x. x.0 ≡ (q.objects x.1).expiration) q.timers
    pub matched :
        (f : Entry) → copies f q.active ≡ copies f (keys Seconds add_time q.objects q.timers)

  pub keys-append :
      (objects : Objects Seconds add_time) (f : Entry) (xs ys : List Entry)
      → copies f (keys Seconds add_time objects (xs ++ ys))
        ≡ copies f (keys Seconds add_time objects xs) + copies f (keys Seconds add_time objects ys)
  keys-append objects f [] ys = omega arith
  keys-append objects f (x ∷ xs) ys = omega (arith, keys-append objects f xs ys)

  keys-Inserted :
      (objects : Objects Seconds add_time) (f e : Entry) (xs ys : List Entry)
      → Inserted e xs ys
      → copies f (keys Seconds add_time objects ys)
        ≡ one f (e.1, (objects e.1).sequence) + copies f (keys Seconds add_time objects xs)
  keys-Inserted objects f e [] ys i = ap (λ zs. copies f (keys Seconds add_time objects zs)) i
  keys-Inserted objects f e (x ∷ xs) ys (inl (b, w)) =
      ap (λ zs. copies f (keys Seconds add_time objects zs)) w
  keys-Inserted objects f e (x ∷ xs) ys (inr (zs, b, i, w)) =
      ap (λ zs. copies f (keys Seconds add_time objects zs)) w
      ∙ omega (arith, keys-Inserted objects f e xs zs i)

  -- A timer that no entry of the set names.
  keys-Apart :
      (objects : Objects Seconds add_time) (p s : ℕ) (xs : List Entry)
      → Apart p xs
      → copies (p, s) (keys Seconds add_time objects xs) ≡ 0
  keys-Apart objects p s [] a = refl
  keys-Apart objects p s (x ∷ xs) (a, away) = omega (
    arith,
    keys-Apart objects p s xs away,
    ap {B = ℕ} (λ b. if b then 1 else 0) (same-false p s x.1 (objects x.1).sequence a),
  )

copies-Inserted :
    (f e : Entry) (xs ys : List Entry) → Inserted e xs ys → copies f ys ≡ one f e + copies f xs
copies-Inserted f e [] ys i = ap (copies f) i
copies-Inserted f e (x ∷ xs) ys (inl (b, w)) = ap (copies f) w
copies-Inserted f e (x ∷ xs) ys (inr (zs, b, i, w)) =
    ap (copies f) w ∙ omega (arith, copies-Inserted f e xs zs i)

pub set_has-copies : (f : Entry) (xs : List Entry) → set_has f xs ≡ true → 0 < copies f xs
unfolding set_has
set_has-copies f [] h = cc
set_has-copies f (x ∷ xs) h = elim (Bool-cases (same f x)) [
  | inl here ↦ omega (arith, ap {B = ℕ} (λ b. if b then 1 else 0) here)
  | inr there ↦ omega (arith, set_has-copies f xs (sym (ap (λ b. b || set_has f xs) there) ∙ h))
]

set_has_of_copies : (f : Entry) (xs : List Entry) → copies f xs ≡ 0 → set_has f xs ≡ false
unfolding set_has
set_has_of_copies f [] h = refl
set_has_of_copies f (x ∷ xs) h = elim (Bool-cases (same f x)) [
  | inl here ↦ absurd (omega (arith, h, ap {B = ℕ} (λ b. if b then 1 else 0) here))
  | inr there ↦ ap (λ b. b || set_has f xs) there ∙ set_has_of_copies f xs (omega (arith, h))
]

module _ (Seconds : Type 0) (add_time : ℕ → Seconds → ℕ) where
  pub insert-Matched :
      (p : ℕ) (q : TimerQueue Seconds add_time)
      → Matched Seconds add_time q
      → p < max_address
      → Apart p q.timers
      → Returns {A = Bool × TimerQueue Seconds add_time} (insert Seconds add_time p q) (λ r.
        Matched Seconds add_time r.1
        × (r.1.objects ≡ q.objects)
        × Inserted ((q.objects p).expiration, p) q.timers r.1.timers)
  insert-Matched p q m low apart =
      Returns_map (Adds Seconds add_time p q)
        (λ r.
          Matched Seconds add_time r.1
          × (r.1.objects ≡ q.objects)
          × Inserted ((q.objects p).expiration, p) q.timers r.1.timers)
        _
        (λ r (step, i, j, same_objects, first). (
          record {
            in_step = step;
            timed =
                subst
                  (λ (objects : Objects Seconds add_time).
                    Each (λ x. x.0 ≡ (objects x.1).expiration) r.1.timers)
                  (sym same_objects)
                  (Each-Inserted (λ x. x.0 ≡ (q.objects x.1).expiration)
                    ((q.objects p).expiration, p) q.timers r.1.timers i refl m.timed);
            matched = λ f.
                copies-Inserted f (p, (q.objects p).sequence) q.active r.1.active j
                ∙ ap (λ n. one f (p, (q.objects p).sequence) + n) (m.matched f)
                ∙ sym (
                    keys-Inserted Seconds add_time q.objects f ((q.objects p).expiration, p)
                      q.timers r.1.timers i)
                ∙ ap (λ objects. copies f (keys Seconds add_time objects r.1.timers))
                    (sym same_objects);
          },
          same_objects,
          i,
        ))
        (insert-Adds Seconds add_time p q m.in_step low apart (
          set_has_of_copies (p, (q.objects p).sequence) q.active
            (m.matched (p, (q.objects p).sequence)
              ∙ keys-Apart Seconds add_time q.objects p (q.objects p).sequence q.timers apart)))

  -- The timers that are due, which are in neither set any more.
  pub record Expires (expired : List Entry) (q : TimerQueue Seconds add_time) : Type 0 where
    pub matching : Matched Seconds add_time q
    pub apart : Each (λ y. Apart y.1 q.timers) expired
    pub distinct : Distinct expired
    pub addressed : Each (λ x. x.1 < max_address) expired
