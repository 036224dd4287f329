-- ===== src/Timers/Restarted.antt =====
-- `reset` of polaris/src/TimerQueue.cc: the timers that go back into the two sets.
use mathlib.Core.Path.{ap₂}
use lute.Timers.{TimerQueue, Entry, Timer, insert, arm_next, restart, reset_timers, set_has}
use lute.Timers.Sets.{Each, Apart, copies}
use lute.Timers.Expired.{Objects, keys}
use lute.Timers.Insert.{Inserted, Each-Inserted}
use lute.Timers.Matched.{Matched, Expires, insert-Matched}
use lute.Prelude.{
  some, [], ◌∷◌, true, false, ◌++◌, ◌>>=◌, ℕ, ◌≡◌, set_at, List, ◌≢◌, Returns, ◌∙◌, set_at_other,
  sym, Bool, ap, refl, if◌then◌else◌, Returns->>=, ◌&&◌, not, Option, subst, ltb, if_lem,
}

module _ (Seconds : Type 0) (add_time : ℕ → Seconds → ℕ) where
  -- A timer at an address that no entry of the set names.
  module _ (p : ℕ) (timer : Timer Seconds add_time) (objects : Objects Seconds add_time) where
    elsewhere : (a : ℕ) → p ≢ a → set_at p timer objects a ≡ objects a
    elsewhere a n = set_at_other p a timer objects (λ e. n (sym e))

    keys-set_at :
        (xs : List Entry)
        → Apart p xs
        → keys Seconds add_time (set_at p timer objects) xs ≡ keys Seconds add_time objects xs
    keys-set_at [] apart = refl
    keys-set_at (x ∷ xs) (a, away) =
        ap₂ (λ (t : Timer Seconds add_time) (rest : List Entry). (x.1, t.sequence) ∷ rest)
          (elsewhere x.1 a) (keys-set_at xs away)

    Each-set_at :
        (P : Entry → Timer Seconds add_time → Type 0) (xs : List Entry)
        → Apart p xs
        → Each (λ x. P x (objects x.1)) xs
        → Each (λ x. P x (set_at p timer objects x.1)) xs
    Each-set_at P [] apart h = tt
    Each-set_at P (x ∷ xs) (a, away) (h, hs) =
        (subst (P x) (sym (elsewhere x.1 a)) h, Each-set_at P xs away hs)

  -- A timer that is in neither set may be given its next time, or be a new one.
  pub Matched-set_at :
      (p : ℕ) (timer : Timer Seconds add_time) (q : TimerQueue Seconds add_time)
      → Matched Seconds add_time q
      → Apart p q.timers
      → Matched Seconds add_time (record q { objects = set_at p timer q.objects })
  Matched-set_at p timer q m apart = record {
    in_step = record {
      sizes = m.in_step.sizes;
      known =
          Each-set_at p timer q.objects (λ x t. set_has (x.1, t.sequence) q.active ≡ true) q.timers
            apart m.in_step.known;
      distinct = m.in_step.distinct;
      ordered = m.in_step.ordered;
      addressed = m.in_step.addressed;
    };
    timed = Each-set_at p timer q.objects (λ x t. x.0 ≡ t.expiration) q.timers apart m.timed;
    matched = λ f. m.matched f ∙ ap (copies f) (sym (keys-set_at p timer q.objects q.timers apart));
  }

  -- The other expired timers stay out of the sets when one goes back.
  pub Apart-Inserted :
      (e : Entry) (rest xs ys : List Entry)
      → Inserted e xs ys
      → Apart e.1 rest
      → Each (λ y. Apart y.1 xs) rest
      → Each (λ y. Apart y.1 ys) rest
  Apart-Inserted e [] xs ys i a h = tt
  Apart-Inserted e (y ∷ rest) xs ys i (a, away) (h, hs) = (
    Each-Inserted (λ x. y.1 ≢ x.1) e xs ys i (λ k. a (sym k)) h,
    Apart-Inserted e rest xs ys i away hs,
  )

  pub reset_timers-Matched :
      (expired : List Entry) (now : ℕ) (q : TimerQueue Seconds add_time)
      → Expires Seconds add_time expired q
      → Returns (reset_timers Seconds add_time expired now q) (Matched Seconds add_time)
  unfolding reset_timers
  reset_timers-Matched [] now q x = x.matching
  reset_timers-Matched ((time, p) ∷ rest) now q x =
      Returns->>= (Expires Seconds add_time rest) (Matched Seconds add_time) _ _
        (step ((q.objects p).repeat && not (set_has (p, (q.objects p).sequence) q.canceling)))
        (λ q' x'. reset_timers-Matched rest now q' x')
    where
      again : TimerQueue Seconds add_time
      again = record q { objects = set_at p (restart Seconds add_time now (q.objects p)) q.objects }

      step :
          (repeats : Bool)
          → Returns
              (if repeats
                then (insert Seconds add_time p again >>= λ r. some (r.1))
                else some (record q { deleted = q.deleted ++ p ∷ [] }))
              (Expires Seconds add_time rest)
      step false = record {
        matching = record {
          in_step = record {
            sizes = x.matching.in_step.sizes;
            known = x.matching.in_step.known;
            distinct = x.matching.in_step.distinct;
            ordered = x.matching.in_step.ordered;
            addressed = x.matching.in_step.addressed;
          };
          timed = x.matching.timed;
          matched = x.matching.matched;
        };
        apart = x.apart.1;
        distinct = x.distinct.1;
        addressed = x.addressed.1;
      }
      step true =
          Returns->>= {A = Bool × TimerQueue Seconds add_time}
            (λ r.
              Matched Seconds add_time r.1
              × (r.1.objects ≡ again.objects)
              × Inserted ((again.objects p).expiration, p) q.timers r.1.timers)
            (Expires Seconds add_time rest) (insert Seconds add_time p again) _
            (insert-Matched Seconds add_time p again
              (Matched-set_at p (restart Seconds add_time now (q.objects p)) q x.matching x.apart.0)
              x.addressed.0 x.apart.0)
            (λ r (m, o, i). record {
              matching = m;
              apart =
                  Apart-Inserted ((again.objects p).expiration, p) rest q.timers r.1.timers i
                    x.distinct.0 x.apart.1;
              distinct = x.distinct.1;
              addressed = x.addressed.1;
            })

  pub arm_next-Matched :
      (q : TimerQueue Seconds add_time)
      → Matched Seconds add_time q
      → Matched Seconds add_time (arm_next Seconds add_time q)
  unfolding arm_next
  arm_next-Matched q m = go q.timers
    where
      armed : (alarm : Option ℕ) → Matched Seconds add_time (record q { alarm = alarm })
      armed alarm = record {
        in_step = record {
          sizes = m.in_step.sizes;
          known = m.in_step.known;
          distinct = m.in_step.distinct;
          ordered = m.in_step.ordered;
          addressed = m.in_step.addressed;
        };
        timed = m.timed;
        matched = m.matched;
      }

      go :
          (xs : List Entry)
          → Matched Seconds add_time (elim xs [
            | [] ↦ q
            | first ∷ rest ↦
                if ltb 0 (q.objects first.1).expiration
                then record q { alarm = some (q.objects first.1).expiration }
                else q
          ])
      go [] = m
      go (first ∷ rest) =
          if_lem (Matched Seconds add_time) (ltb 0 (q.objects first.1).expiration) _ _
            (armed (some (q.objects first.1).expiration)) m
