-- ===== src/LoopPool.antt =====
-- polaris/src/EventLoopThreadPool.cc: the loops that share the connections. A loop is its address;
-- `none` is a failed `assert`, a fatal line of the log or an index out of range.
pub mod Turns
use lute.Prelude.{
  none, some, ◌>>◌, zero, suc, List, ℕ, Option, if◌then◌else◌, Bool, [], false, assert, ◌∷◌, not,
  get_elem?, true, ◌%◌, ◌++◌, ◌>>=◌, ◌==◌, length, leb, ◌&&◌, ◌+◌,
}

pub record EventLoopThreadPool : Type 0 where
  pub base_loop : ℕ
  pub started : Bool
  pub num_threads : ℕ
  pub next : ℕ
  pub loops : List ℕ

unfoldable pub init : ℕ → EventLoopThreadPool
init base_loop = record {
  base_loop = base_loop;
  started = false;
  num_threads = 0;
  next = 0;
  loops = [];
}

unfoldable pub set_thread_num : ℕ → EventLoopThreadPool → EventLoopThreadPool
set_thread_num n pool = record pool { num_threads = n }

-- The loops of the threads `i`, `i + 1`, …, each from its `startLoop`.
unfoldable pub start_loops : (ℕ → ℕ) → ℕ → ℕ → List ℕ
start_loops start_loop i zero = []
start_loops start_loop i (suc n) = start_loop i ∷ start_loops start_loop (suc i) n

-- The pool, and whether the callback ran on the base loop; the flag is `isInLoopThread()` of that
-- loop, in any other thread `assertInLoopThread` ends the program.
unfoldable pub start :
    Bool → (ℕ → ℕ) → Bool → EventLoopThreadPool → Option (EventLoopThreadPool × Bool)
unfolding start_loops
start in_loop_thread start_loop has_callback pool =
    assert (not pool.started)
    >> (assert in_loop_thread
        >> some (
          record pool {
            started = true;
            loops = pool.loops ++ start_loops start_loop 0 pool.num_threads;
          },
          pool.num_threads == 0 && has_callback,
        ))

abbrev is_empty : List ℕ → Bool
is_empty [] = true
is_empty (x ∷ xs) = false

unfoldable pub get_next_loop : EventLoopThreadPool → Option (ℕ × EventLoopThreadPool)
get_next_loop pool =
    assert pool.started
    >> (if is_empty pool.loops
        then some (pool.base_loop, pool)
        else (get_elem? pool.loops pool.next >>= λ loop. some (
          loop,
          record pool {
            next = if leb (length pool.loops) (pool.next + 1) then 0 else pool.next + 1;
          },
        )))

unfoldable pub get_loop_for_hash : ℕ → EventLoopThreadPool → Option ℕ
get_loop_for_hash hash_code pool =
    if is_empty pool.loops
    then some pool.base_loop
    else get_elem? pool.loops (hash_code % length pool.loops)

unfoldable pub get_all_loops : EventLoopThreadPool → Option (List ℕ)
get_all_loops pool =
    assert pool.started >> some (if is_empty pool.loops then pool.base_loop ∷ [] else pool.loops)
