-- ===== src/Timers/Cancel.antt =====
-- `cancelInLoop` of polaris/src/TimerQueue.cc.
use lute.Timers.Expired.{sizes_lem}
use lute.Timers.Insert.{Inserted, has_itself, trichotomy}
use lute.Timers.{
  TimerQueue, Entry, set_erase, set_has, max_address, same, note_canceling, cancel_in_loop,
  set_insert, before,
}
use lute.Timers.Sets.{
  Each, Distinct, Ordered, Apart, copies, Taken, same-false, one, same-true, set_erase_lem,
}
use lute.Timers.Expired.{Objects, keys, IsActive}
use lute.Timers.Matched.{Matched, set_has-copies}
use lute.Prelude.{
  none, some, [], ◌∷◌, true, false, inl, inr, ◌++◌, ◌>>=◌, ℕ, List, length, subst, ◌≡◌, ◌<◌,
  Returns, ◌⊎◌, sym, arith, suc, Bool-cases, ap, ◌∙◌, ◌+◌, ◌≢◌, ◌≤◌, Bool, ◌||◌, Returns->>=, refl,
  if◌then◌else◌, assert->>,
}

-- The entry has left its place, and all else is as before.
abbrev Erased : Entry → List Entry → List Entry → Type 0
Erased e [] ys = ⊥
Erased e (x ∷ xs) ys = ((e ≡ x) × (ys ≡ xs)) ⊎ ((zs : List Entry) × Erased e xs zs × (ys ≡ x ∷ zs))

set_erase-Erased :
    (e : Entry) (xs : List Entry) → set_has e xs ≡ true → Returns (set_erase e xs) (Erased e xs)
unfolding set_erase set_has
set_erase-Erased e [] h = absurd (cc h)
set_erase-Erased e (x ∷ xs) h = elim (Bool-cases (same e x)) [
  | inl here ↦ rw here (inl (same-true e x here, refl))
  | inr there ↦ rw there (
      Returns->>= (Erased e xs) (Erased e (x ∷ xs)) (set_erase e xs) _
        (set_erase-Erased e xs (rw there at h)) (λ zs z. inr (zs, z, refl)))
]

Each-Erased :
    (P : Entry → Type 0) (e : Entry) (xs ys : List Entry) → Erased e xs ys → Each P xs → Each P ys
Each-Erased P e [] ys z h = absurd z
Each-Erased P e (x ∷ xs) ys (inl (s, w)) (h, hs) = subst (Each P) (sym w) hs
Each-Erased P e (x ∷ xs) ys (inr (zs, z, w)) (h, hs) =
    subst (Each P) (sym w) (h, Each-Erased P e xs zs z hs)

Distinct-Erased :
    (e : Entry) (xs ys : List Entry) → Erased e xs ys → Distinct xs → Distinct ys × Apart e.1 ys
Distinct-Erased e [] ys z h = absurd z
Distinct-Erased e (x ∷ xs) ys (inl (s, w)) (h, hs) =
    subst (λ ys. Distinct ys × Apart e.1 ys) (sym w)
      (hs, subst (λ (y : Entry). Apart y.1 xs) (sym s) h)
Distinct-Erased e (x ∷ xs) ys (inr (zs, z, w)) (h, hs) =
    let (d, a) = Distinct-Erased e xs zs z hs in
    subst (λ ys. Distinct ys × Apart e.1 ys) (sym w)
      ((Each-Erased (λ y. x.1 ≢ y.1) e xs zs z h, d), ((λ k. here e xs zs z h (sym k)), a))
  where
    here : (e : Entry) (xs zs : List Entry) → Erased e xs zs → Apart x.1 xs → x.1 ≢ e.1
    here e [] zs z a = absurd z
    here e (y ∷ xs) zs (inl (s, w)) (a, away) = subst (λ (y : Entry). x.1 ≢ y.1) (sym s) a
    here e (y ∷ xs) zs (inr (ys, z, w)) (a, away) = here e xs ys z away

Ordered-Erased : (e : Entry) (xs ys : List Entry) → Erased e xs ys → Ordered xs → Ordered ys
Ordered-Erased e [] ys z o = absurd z
Ordered-Erased e (x ∷ xs) ys (inl (s, w)) (o, os) = subst Ordered (sym w) os
Ordered-Erased e (x ∷ xs) ys (inr (zs, z, w)) (o, os) =
    subst Ordered (sym w) (Each-Erased (λ y. x.0 ≤ y.0) e xs zs z o, Ordered-Erased e xs zs z os)

length-Erased : (e : Entry) (xs ys : List Entry) → Erased e xs ys → length xs ≡ suc (length ys)
length-Erased e [] ys z = absurd z
length-Erased e (x ∷ xs) ys (inl (s, w)) = ap (λ zs. suc (length zs)) (sym w)
length-Erased e (x ∷ xs) ys (inr (zs, z, w)) = ap suc (length-Erased e xs zs z ∙ ap length (sym w))

module _ (Seconds : Type 0) (add_time : ℕ → Seconds → ℕ) where
  keys-Erased :
      (objects : Objects Seconds add_time) (f e : Entry) (xs ys : List Entry)
      → Erased e xs ys
      → copies f (keys Seconds add_time objects xs)
        ≡ one f (e.1, (objects e.1).sequence) + copies f (keys Seconds add_time objects ys)
  keys-Erased objects f e [] ys z = absurd z
  keys-Erased objects f e (x ∷ xs) ys (inl (s, w)) =
      ap
        (λ (y : Entry).
          one f (y.1, (objects y.1).sequence) + copies f (keys Seconds add_time objects xs))
        (sym s)
      ∙ ap (λ zs. one f (e.1, (objects e.1).sequence) + copies f (keys Seconds add_time objects zs))
          (sym w)
  keys-Erased objects f e (x ∷ xs) ys (inr (zs, z, w)) = omega (
    arith,
    keys-Erased objects f e xs zs z,
    ap (λ zs. copies f (keys Seconds add_time objects zs)) w,
  )

  -- An entry for an active timer is found in `timers_` by its time and its address.
  keys-found :
      (objects : Objects Seconds add_time) (p s : ℕ) (xs : List Entry)
      → 0 < copies (p, s) (keys Seconds add_time objects xs)
      → Each (λ x. x.0 ≡ (objects x.1).expiration) xs
      → (s ≡ (objects p).sequence) × (set_has ((objects p).expiration, p) xs ≡ true)
  unfolding set_has
  keys-found objects p s [] h t = absurd (omega arith)
  keys-found objects p s (x ∷ xs) h (t, ts) =
      elim (Bool-cases (same (p, s) (x.1, (objects x.1).sequence))) [
        | inl here ↦
            let (address, number) = parts (same-true _ _ here) in
            (
              number ∙ ap (λ a. (objects a).sequence) (sym address),
              ap (λ b. b || set_has ((objects p).expiration, p) xs)
                  (same_of (t ∙ ap (λ a. (objects a).expiration) (sym address)) address),
            )
        | inr there ↦
            let (number, found) =
              keys-found objects p s xs
                (omega (arith, h, ap {B = ℕ} (λ b. if b then 1 else 0) there)) ts in
            (number, or_true (same ((objects p).expiration, p) x) found)
      ]
    where
      parts : {a b c d : ℕ} → ◌≡◌ {A = Entry} (a, b) (c, d) → (a ≡ c) × (b ≡ d)
      parts e = (ap (λ (z : Entry). z.0) e, ap (λ (z : Entry). z.1) e)

      same_of : {a b c d : ℕ} → c ≡ a → b ≡ d → same (a, b) (c, d) ≡ true
      same_of e f = ground arith

      or_true : (b : Bool) {c : Bool} → c ≡ true → (b || c) ≡ true
      or_true true e = refl
      or_true false e = e

  still-IsActive :
      (objects : Objects Seconds add_time) (p s : ℕ) (active active' xs : List Entry)
      → Taken (p, s) active active'
      → Apart p xs
      → Each (IsActive Seconds add_time objects active) xs
      → Each (IsActive Seconds add_time objects active') xs
  still-IsActive objects p s active active' [] t a h = tt
  still-IsActive objects p s active active' (x ∷ xs) t (a, away) (h, hs) = (
    t.1 (x.1, (objects x.1).sequence) (same-false x.1 (objects x.1).sequence p s (λ e. a (sym e)))
        ∙ h,
    still-IsActive objects p s active active' xs t away hs,
  )

  -- The queue without a timer that was in it.
  abbrev Removed : ℕ → ℕ → TimerQueue Seconds add_time → List Entry → List Entry → Type 0
  Removed p s q timers active =
      Erased ((q.objects p).expiration, p) q.timers timers × Taken (p, s) q.active active

  Removed-Matched :
      (p s : ℕ) (q : TimerQueue Seconds add_time) (timers active : List Entry)
      → Matched Seconds add_time q
      → s ≡ (q.objects p).sequence
      → Removed p s q timers active
      → Matched Seconds add_time
          (record q { timers = timers; active = active; deleted = q.deleted ++ p ∷ [] })
        × Apart p timers
  Removed-Matched p s q timers active m number (z, t) =
      let e : Entry = ((q.objects p).expiration, p) in
      let (distinct, gone) = Distinct-Erased e q.timers timers z m.in_step.distinct in
      (
        record {
          in_step = record {
            sizes = omega (arith, m.in_step.sizes, length-Erased e q.timers timers z, t.0);
            known = still-IsActive q.objects p s q.active active timers t gone (
                Each-Erased (IsActive Seconds add_time q.objects q.active) e q.timers timers z
                  m.in_step.known);
            distinct = distinct;
            ordered = Ordered-Erased e q.timers timers z m.in_step.ordered;
            addressed =
                Each-Erased (λ x. x.1 < max_address) e q.timers timers z m.in_step.addressed;
          };
          timed = Each-Erased (λ x. x.0 ≡ (q.objects x.1).expiration) e q.timers timers z m.timed;
          matched = λ f. omega (
            arith,
            m.matched f,
            t.2 f,
            keys-Erased q.objects f e q.timers timers z,
            ap (λ n. one f (p, n)) number,
          );
        },
        gone,
      )

  set_insert-cases :
      (e : Entry) (xs : List Entry)
      → ((set_insert e xs ≡ none) × (set_has e xs ≡ true))
        ⊎ ((ys : List Entry) × (set_insert e xs ≡ some ys) × Inserted e xs ys)
  unfolding set_insert set_has
  set_insert-cases e [] = inr (e ∷ [], refl, refl)
  set_insert-cases e (x ∷ xs) = elim (Bool-cases (before e x)) [
    | inl first ↦ inr (e ∷ x ∷ xs, rw first refl, inl (first, refl))
    | inr not_first ↦ elim (Bool-cases (before x e)) [
      | inl after ↦ elim (set_insert-cases e xs) [
        | inl (there, has) ↦ inl (rw (not_first, after, there) refl, or_true (same e x) has)
        | inr (ys, e', i) ↦ inr (x ∷ ys, rw (not_first, after, e') refl, inr (ys, after, i, refl))
      ]
      | inr not_after ↦ elim (Bool-cases (same e x)) [
        | inl equal ↦ inl (rw (not_first, not_after) refl, ap (λ b. b || set_has e xs) equal)
        | inr other ↦ absurd (cc (sym not_after ∙ trichotomy e x other not_first))
      ]
    ]
  ]
    where
      or_true : (b : Bool) {c : Bool} → c ≡ true → (b || c) ≡ true
      or_true true e = refl
      or_true false e = e

  note_canceling-has :
      (e : Entry) (xs : List Entry) → set_has e (note_canceling Seconds add_time e xs) ≡ true
  unfolding note_canceling
  note_canceling-has e xs = elim (set_insert-cases e xs) [
    | inl (there, has) ↦ rw (there, note_canceling) has
    | inr (ys, made, i) ↦ rw (made, note_canceling) (has_itself e xs ys i)
  ]

  -- An active timer is out of both sets and freed; for any other, the sets stay, and, while callbacks
  -- run, the timer is noted so that `reset` does not start it again.
  abbrev pub Cancels : ℕ → ℕ → TimerQueue Seconds add_time → TimerQueue Seconds add_time → Type 0
  Cancels p s q q' =
      Matched Seconds add_time q'
      × (set_has (p, s) q.active ≡ true → Apart p q'.timers × (q'.deleted ≡ q.deleted ++ p ∷ []))
      × (set_has (p, s) q.active ≡ false
          → (q'.timers ≡ q.timers)
            × (q'.active ≡ q.active)
            × (q'.deleted ≡ q.deleted)
            × (q.calling ≡ true → set_has (p, s) q'.canceling ≡ true))

  -- From two sets that hold the same timers, `cancelInLoop` gets through, and they still do. A timer
  -- that is active leaves both sets, so that it can never expire, and is freed once; for any other
  -- the sets stay, and in the midst of the callbacks it is noted as cancelled.
  pub cancel_in_loop-Cancels :
      (p s : ℕ) (q : TimerQueue Seconds add_time)
      → Matched Seconds add_time q
      → Returns (cancel_in_loop Seconds add_time (p, s) q) (Cancels p s q)
  unfolding cancel_in_loop
  cancel_in_loop-Cancels p s q m =
      assert->> (Cancels p s q) _ _ (sizes_lem Seconds add_time q m.in_step.sizes) (
        Returns->>= (Cancels p s q) (Cancels p s q) _ _ (cancelled (set_has (p, s) q.active) refl)
          (λ q' c.
            assert->> (Cancels p s q) _ _ (sizes_lem Seconds add_time q' c.0.in_step.sizes) c))
    where
      other : TimerQueue Seconds add_time
      other =
          if q.calling
          then record q { canceling = note_canceling Seconds add_time (p, s) q.canceling }
          else q

      kept :
          (calling : Bool)
          → q.calling ≡ calling
          → set_has (p, s) q.active ≡ false
          → Cancels p s q (
              if calling
              then record q { canceling = note_canceling Seconds add_time (p, s) q.canceling }
              else q)
      kept true on idle = (
        record {
          in_step = record {
            sizes = m.in_step.sizes;
            known = m.in_step.known;
            distinct = m.in_step.distinct;
            ordered = m.in_step.ordered;
            addressed = m.in_step.addressed;
          };
          timed = m.timed;
          matched = m.matched;
        },
        λ h. absurd (cc (sym h ∙ idle)),
        λ h. (refl, refl, refl, λ c. note_canceling-has (p, s) q.canceling),
      )
      kept false off idle = (
        m,
        (λ h. absurd (cc (sym h ∙ idle))),
        λ h. (refl, refl, refl, λ c. absurd (cc (sym c ∙ off))),
      )

      cancelled :
          (active : Bool)
          → set_has (p, s) q.active ≡ active
          → Returns
              (if active
                then (set_erase ((q.objects p).expiration, p) q.timers >>= λ timers.
                    set_erase (p, s) q.active >>= λ active.
                    some (record q {
                      timers = timers;
                      active = active;
                      deleted = q.deleted ++ p ∷ [];
                    }))
                else some other)
              (Cancels p s q)
      cancelled false idle = kept q.calling refl idle
      cancelled true there =
          let (number, found) =
            keys-found q.objects p s q.timers
              (omega (arith, m.matched (p, s), set_has-copies (p, s) q.active there)) m.timed in
          Returns->>= (Erased ((q.objects p).expiration, p) q.timers) (Cancels p s q) _ _
            (set_erase-Erased ((q.objects p).expiration, p) q.timers found)
            (λ timers z.
              Returns->>= (Taken (p, s) q.active) (Cancels p s q) _ _
                (set_erase_lem (p, s) q.active there)
                (λ active t.
                  let (matched, gone) = Removed-Matched p s q timers active m number (z, t) in
                  (matched, (λ h. (gone, refl)), λ h. absurd (cc (sym h ∙ there)))))
