-- ===== src/LoopPool/Turns.antt =====
-- The loops of polaris/src/EventLoopThreadPool.cc take turns.
use native.Mathlib.Nat.{mod-lt, mod-one, mod_self, mod-eq_of_lt, suc-mod}
use lute.Prelude.{
  some, zero, suc, [], ◌∷◌, true, false, ℕ, List, ◌<◌, ◌≡◌, Returns, length, get_elem?, arith, ◌%◌,
  refl, ◌+◌, if◌then◌else◌, ap, ◌∙◌, leb, sym, subst, Bool-cases, inl, leb→le, inr, leb-false→lt,
  Bool,
}
use lute.LoopPool.{EventLoopThreadPool, get_next_loop, get_loop_for_hash}

-- The loops in use: the base loop alone where no thread was started.
abbrev pub all_loops : EventLoopThreadPool → List ℕ
all_loops pool = elim pool.loops [ [] ↦ pool.base_loop ∷ [] | loop ∷ loops ↦ loop ∷ loops ]

-- `count` loops were handed out before.
pub record Handed (count : ℕ) (pool : EventLoopThreadPool) : Type 0 where
  pub started : pool.started ≡ true
  pub turn : pool.next ≡ count % length (all_loops pool)

get_elem?_lem : (xs : List ℕ) (i : ℕ) → i < length xs → (x : ℕ) × (get_elem? xs i ≡ some x)
get_elem?_lem [] i h = absurd (omega arith)
get_elem?_lem (x ∷ xs) zero h = (x, refl)
get_elem?_lem (x ∷ xs) (suc i) h = get_elem?_lem xs i (omega arith)

-- `++next_; if (next_ >= size) next_ = 0;` is one step modulo the size.
next_lem :
    (count next size : ℕ)
    → 0 < size
    → next ≡ count % size
    → (if leb size (next + 1) then 0 else next + 1) ≡ suc count % size
next_lem count next size pos e = elim (Bool-cases (leb size (next + 1))) [
  | inl wraps ↦
      let full : suc next ≡ size = omega (arith, leb→le _ _ wraps, mod-lt count pos) in
      rw wraps (sym (step ∙ ap (λ k. k % size) full ∙ mod_self size))
  | inr goes ↦
      let one : next + 1 ≡ suc next = omega arith in
      rw goes (one ∙ sym (step ∙ mod-eq_of_lt (omega (arith, leb-false→lt _ _ goes))))
]
  where
    step : suc count % size ≡ suc next % size
    step = suc-mod count size ∙ ap (λ k. suc k % size) (sym e)

abbrev Turn : ℕ → EventLoopThreadPool → ℕ × EventLoopThreadPool → Type 0
Turn count pool r =
    (get_elem? (all_loops pool) (count % length (all_loops pool)) ≡ some r.0)
    × Handed (suc count) r.1
    × (all_loops r.1 ≡ all_loops pool)

turn_lem :
    (count base_loop num_threads next : ℕ) (started : Bool) (loops : List ℕ)
    → let pool : EventLoopThreadPool = record {
      base_loop = base_loop;
      started = started;
      num_threads = num_threads;
      next = next;
      loops = loops;
    } in
      Handed count pool
      → Returns {A = ℕ × EventLoopThreadPool} (get_next_loop pool) (Turn count pool)
unfolding get_next_loop
turn_lem count base_loop num_threads next false loops handed = absurd (cc handed.started)
turn_lem count base_loop num_threads next true [] handed = (
  ap (get_elem? (base_loop ∷ [])) (mod-one count),
  record { started = refl; turn = handed.turn ∙ mod-one count ∙ sym (mod-one (suc count)) },
  refl,
)
turn_lem count base_loop num_threads next true (x ∷ xs) handed =
    let (loop, e) =
      get_elem?_lem (x ∷ xs) next
        (subst (λ k. k < length (x ∷ xs)) (sym handed.turn) (mod-lt count (omega arith))) in
    rw e (
      ap (get_elem? (x ∷ xs)) (sym handed.turn) ∙ e,
      record {
        started = refl;
        turn = next_lem count next (length (x ∷ xs)) (omega arith) handed.turn;
      },
      refl,
    )

-- The loops are handed out in turn: after `count` calls, the next one is the loop whose place is
-- `count` modulo their number, also where no thread was started and the base loop is the only one;
-- the state then stands for one call more.
pub get_next_loop-Handed :
    (count : ℕ) (pool : EventLoopThreadPool)
    → Handed count pool
    → Returns {A = ℕ × EventLoopThreadPool} (get_next_loop pool) (λ r.
      (get_elem? (all_loops pool) (count % length (all_loops pool)) ≡ some r.0)
      × Handed (suc count) r.1
      × (all_loops r.1 ≡ all_loops pool))
get_next_loop-Handed count pool handed =
    turn_lem count pool.base_loop pool.num_threads pool.next pool.started pool.loops handed

hash_lem :
    (hash_code base_loop num_threads next : ℕ) (started : Bool) (loops : List ℕ)
    → let pool : EventLoopThreadPool = record {
      base_loop = base_loop;
      started = started;
      num_threads = num_threads;
      next = next;
      loops = loops;
    } in
      (loop : ℕ) × (get_loop_for_hash hash_code pool ≡ some loop)
      × (get_elem? (all_loops pool) (hash_code % length (all_loops pool)) ≡ some loop)
unfolding get_loop_for_hash
hash_lem hash_code base_loop num_threads next started [] =
    (base_loop, refl, ap (get_elem? (base_loop ∷ [])) (mod-one hash_code))
hash_lem hash_code base_loop num_threads next started (x ∷ xs) =
    let (loop, e) =
      get_elem?_lem (x ∷ xs) (hash_code % length (x ∷ xs)) (mod-lt hash_code (omega arith)) in
    (loop, e, e)

-- A hash code always names a loop, the one at its place modulo the number of loops, and none is
-- looked up out of range.
pub get_loop_for_hash_lem :
    (hash_code : ℕ) (pool : EventLoopThreadPool)
    → (loop : ℕ) × (get_loop_for_hash hash_code pool ≡ some loop)
      × (get_elem? (all_loops pool) (hash_code % length (all_loops pool)) ≡ some loop)
get_loop_for_hash_lem hash_code pool =
    hash_lem hash_code pool.base_loop pool.num_threads pool.next pool.started pool.loops
