-- ===== src/Timers/Expired.antt =====
-- `getExpired` of polaris/src/TimerQueue.cc.
use lute.Prelude.{
  [], ◌∷◌, true, false, ◌≡◌, ℕ, length, Returns, List, ◌++◌, arith, ◌∙◌, ◌<◌, ◌+◌, ==_iff, ◌≤◌, sym,
  subst, Returns->>=, Returns_map, assert->>, refl, ap, length-append,
}
use lute.Timers.{
  Entry, same, set_has, set_erase, split_due, starts_later, max_address, TimerQueue, Timer,
  erase_active, get_expired, sizes_agree,
}
use lute.Timers.Sets.{
  Each, Each-append, Apart, Distinct, Distinct-append, Ordered, Ordered-append, all_later,
  same-false, set_erase_lem, split_due_lem, copies, Taken,
}

module _ (Seconds : Type 0) (add_time : ℕ → Seconds → ℕ) where
  abbrev pub Objects : Type 0
  Objects = ℕ → Timer Seconds add_time

  -- A timer stands among the active ones, by its address and its number.
  abbrev pub IsActive : Objects → List Entry → Entry → Type 0
  IsActive objects active x = set_has (x.1, (objects x.1).sequence) active ≡ true

  -- The two sets are of one size, every timer is active, each has its own address, and the entries
  -- stand in the order of their times.
  pub record InStep (q : TimerQueue Seconds add_time) : Type 0 where
    pub sizes : length q.timers ≡ length q.active
    pub known : Each (IsActive q.objects q.active) q.timers
    pub distinct : Distinct q.timers
    pub ordered : Ordered q.timers
    pub addressed : Each (λ x. x.1 < max_address) q.timers

  -- The entries of the active ones for those of `timers_`.
  abbrev pub keys : Objects → List Entry → List Entry
  keys objects [] = []
  keys objects (x ∷ xs) = (x.1, (objects x.1).sequence) ∷ keys objects xs

  -- What is left of the active ones: all others.
  abbrev pub Leaves : Objects → List Entry → List Entry → List Entry → Type 0
  Leaves objects es active active' =
      (length active ≡ length es + length active')
      × ((q s : ℕ) → Apart q es → set_has (q, s) active' ≡ set_has (q, s) active)
      × ((f : Entry) → copies f active ≡ copies f (keys objects es) + copies f active')

  erase_active_lem :
      (objects : Objects) (es active : List Entry)
      → Each (IsActive objects active) es
      → Distinct es
      → Returns (erase_active Seconds add_time objects es active) (Leaves objects es active)
  unfolding erase_active
  erase_active_lem objects [] active k d = (omega arith, (λ q s a. refl), λ f. omega arith)
  erase_active_lem objects ((time, p) ∷ rest) active (k, ks) (apart, d) =
      Returns->>= (Taken (p, (objects p).sequence) active)
        (Leaves objects ((time, p) ∷ rest) active) (set_erase (p, (objects p).sequence) active) _
        (set_erase_lem (p, (objects p).sequence) active k)
        (λ ys (l, m, n).
          let still = kept ys rest m apart ks in
          Returns_map (Leaves objects rest ys) (Leaves objects ((time, p) ∷ rest) active) _
            (λ active' (l', m', n'). (
              omega (arith, l, l'),
              λ q s (n, ns). m' q s ns ∙ m (q, s) (same-false q s p (objects p).sequence n),
              λ f. omega (arith, n f, n' f),
            ))
            (erase_active_lem objects rest ys still d))
    where
      kept :
          (ys es : List Entry)
          → ((f : Entry)
              → same f (p, (objects p).sequence) ≡ false
              → set_has f ys ≡ set_has f active)
          → Apart p es
          → Each (IsActive objects active) es
          → Each (IsActive objects ys) es
      kept ys [] m a h = tt
      kept ys (x ∷ es) m (a, away) (h, hs) = (
        m (x.1, (objects x.1).sequence)
              (same-false x.1 (objects x.1).sequence p (objects p).sequence (λ e. a (sym e)))
            ∙ h,
        kept ys es m away hs,
      )

  still-IsActive :
      (objects : Objects) (due others active active' : List Entry)
      → Leaves objects due active active'
      → Each (λ y. Apart y.1 due) others
      → Each (IsActive objects active) others
      → Each (IsActive objects active') others
  still-IsActive objects due [] active active' l a h = tt
  still-IsActive objects due (x ∷ others) active active' l (a, away) (h, hs) = (
    l.1 x.1 (objects x.1).sequence a ∙ h,
    still-IsActive objects due others active active' l away hs,
  )

  pub sizes_lem :
      (q : TimerQueue Seconds add_time)
      → length q.timers ≡ length q.active
      → sizes_agree Seconds add_time q ≡ true
  unfolding sizes_agree
  sizes_lem q h = (==_iff _ _).1 h

  -- What `getExpired` gives: every timer that is due and no other.
  abbrev pub Splits :
      ℕ → TimerQueue Seconds add_time → List Entry × TimerQueue Seconds add_time → Type 0
  Splits now q r =
      (r.0 ++ r.1.timers ≡ q.timers)
      × Each (λ x. x.0 ≤ now) r.0
      × Each (λ x. now < x.0) r.1.timers
      × InStep r.1
      × (r.1.objects ≡ q.objects)
      × ((f : Entry) → copies f q.active ≡ copies f (keys q.objects r.0) + copies f r.1.active)

  -- From two sets that are in step, `getExpired` takes out exactly the timers whose time has come,
  -- in their order; every assert holds, each expired timer leaves the active ones once, and the two
  -- sets stay in step.
  pub get_expired-Splits :
      (now : ℕ) (q : TimerQueue Seconds add_time)
      → InStep q
      → Returns (get_expired Seconds add_time now q) (Splits now q)
  unfolding get_expired
  get_expired-Splits now q step = assert->> (Splits now q) _ _ (sizes_lem q step.sizes) (
      assert->> (Splits now q) _ _ later (
        Returns->>= (Leaves q.objects due q.active) (Splits now q)
          (erase_active Seconds add_time q.objects due q.active) _
          (erase_active_lem q.objects due q.active known.0 distinct.0)
          (λ active l.
            assert->> (Splits now q) _ _ (sizes_lem (left active) (equal_sizes active l))
              (parts.0, parts.1, all_later now others ordered later, in_step active l, refl, l.2))))
    where
      due : List Entry
      due = (split_due now q.timers).0

      others : List Entry
      others = (split_due now q.timers).1

      parts :
          (due ++ others ≡ q.timers) × Each (λ x. x.0 ≤ now) due × (starts_later now others ≡ true)
      parts = split_due_lem now q.timers step.addressed

      later : starts_later now others ≡ true
      later = parts.2

      known : Each (IsActive q.objects q.active) due × Each (IsActive q.objects q.active) others
      known =
          Each-append (IsActive q.objects q.active) due others
            (subst (Each (IsActive q.objects q.active)) (sym parts.0) step.known)

      distinct : Distinct due × Distinct others × Each (λ y. Apart y.1 due) others
      distinct = Distinct-append due others (subst Distinct (sym parts.0) step.distinct)

      ordered : Ordered others
      ordered = Ordered-append due others (subst Ordered (sym parts.0) step.ordered)

      left : List Entry → TimerQueue Seconds add_time
      left active = record q { timers = others; active = active }

      equal_sizes :
          (active : List Entry)
          → Leaves q.objects due q.active active
          → length others ≡ length active
      equal_sizes active l =
          omega (arith, l.0, step.sizes, ap length parts.0, length-append due others)

      in_step : (active : List Entry) → Leaves q.objects due q.active active → InStep (left active)
      in_step active l = record {
        sizes = equal_sizes active l;
        known = still-IsActive q.objects due others q.active active l distinct.2 known.1;
        distinct = distinct.1;
        ordered = ordered;
        addressed =
            (Each-append (λ x. x.1 < max_address) due others
              (subst (Each (λ x. x.1 < max_address)) (sym parts.0) step.addressed)).1;
      }
