-- ===== src/Server/Names.antt =====
-- The names of the connections of polaris/src/TCPServer.cc.
use mathlib.Core.Path.{ap₂}
use lute.LoopPool.Turns.{Handed, all_loops, get_next_loop-Handed}
use lute.Http.Decimal.{decimal, length-decimal, decimal-injective}
use lute.Http.Bytes.{Bytes, equal, equal_iff}
use lute.Prelude.{
  some, suc, [], ◌∷◌, true, false, List, ℕ, ◌++◌, length, ◌<◌, ◌≡◌, ◌^◌, Bool-cases, ◌≤◌, ap, arith,
  take, sym, drop, refl, take_all, inl, ◌∙◌, length-append, inr, ◌||◌, get_elem?, Returns, ◌%◌,
  Returns->>=, ◌+◌, subst, assert->>,
}
use lute.Server.{
  TcpServer, has, store, erase, new_connection, remove_connection_in_loop, connection_name,
  connect_established_task, connect_destroyed_task,
}
use lute.LoopPool.{EventLoopThreadPool, get_next_loop}

pub append_cancel : (xs ys zs : Bytes) → xs ++ ys ≡ xs ++ zs → ys ≡ zs
append_cancel [] ys zs e = e
append_cancel (x ∷ xs) ys zs e = append_cancel xs ys zs (ap (drop 1) e)

-- The address has at most 47 characters, as `toIpPort` prints it, and the counter is an `int`.
abbrev pub IsShort : Bytes → ℕ → Type 0
IsShort ip_port id = (length ip_port ≤ 47) × (id < 2 ^ 31)

-- For an address of at most 47 characters and counters within `int`, nothing of a name is cut off,
-- so two connections of a server never share one.
pub connection_name-injective :
    (name ip_port : Bytes) (a b : ℕ)
    → IsShort ip_port a
    → IsShort ip_port b
    → connection_name name ip_port a ≡ connection_name name ip_port b
    → a ≡ b
unfolding connection_name
connection_name-injective name ip_port a b h k e =
    decimal-injective a b (omega (arith, h.1)) (omega (arith, k.1)) (
      append_cancel (b'#' ∷ []) _ _ (
        append_cancel ip_port _ _
          (append_cancel (b'-' ∷ []) _ _ (sym (whole a h) ∙ append_cancel name _ _ e ∙ whole b k))))
  where
    text : ℕ → Bytes
    text id = b'-' ∷ (ip_port ++ (b'#' ∷ decimal id))

    whole : (id : ℕ) → IsShort ip_port id → take 63 (text id) ≡ text id
    whole id s = take_all 63 (text id) (
        omega (
          arith,
          s.0,
          length-append ip_port (b'#' ∷ decimal id),
          length-decimal id (omega (arith, s.1)),
        ))

-- Each connection has a name that the server gave it before.
abbrev pub Named : TcpServer → List (Bytes × ℕ) → Type 0
Named s [] = Unit {0}
Named s ((n, loop) ∷ rest) =
    ((id : ℕ) × (id < s.next_conn_id) × (n ≡ connection_name s.name s.ip_port id)) × Named s rest

has_fresh :
    (s : TcpServer) (cs : List (Bytes × ℕ))
    → IsShort s.ip_port s.next_conn_id
    → Named s cs
    → has (connection_name s.name s.ip_port s.next_conn_id) cs ≡ false
unfolding has
has_fresh s [] h k = refl
has_fresh s ((n, loop) ∷ rest) h ((id, below, e), k) =
    elim (Bool-cases (equal (connection_name s.name s.ip_port s.next_conn_id) n)) [
      | inl same ↦ absurd (
          omega (
            arith,
            below,
            connection_name-injective s.name s.ip_port s.next_conn_id id h (h.0, omega (arith, h.1))
                ((equal_iff _ _).0 same ∙ e),
          ))
      | inr other ↦ rw other (has_fresh s rest h k)
    ]

store_fresh :
    (name : Bytes) (loop : ℕ) (cs : List (Bytes × ℕ))
    → has name cs ≡ false
    → store name loop cs ≡ cs ++ ((name, loop) ∷ [])
unfolding has store
store_fresh name loop [] h = refl
store_fresh name loop ((n, l) ∷ rest) h = ground (arith, store_fresh name loop rest)

erase_last :
    (name : Bytes) (loop : ℕ) (cs : List (Bytes × ℕ))
    → has name cs ≡ false
    → (erase name (cs ++ ((name, loop) ∷ [])) ≡ cs) × (has name (cs ++ ((name, loop) ∷ [])) ≡ true)
unfolding has erase
erase_last name loop [] h = rw ((equal_iff name name).1 refl) (refl, refl)
erase_last name loop ((n, l) ∷ rest) h = elim (Bool-cases (equal name n)) [
  | inl same ↦ absurd (cc (sym h ∙ ap (λ b. b || has name rest) same))
  | inr other ↦
      let (gone, there) =
        erase_last name loop rest (sym (ap (λ b. b || has name rest) other) ∙ h) in
      rw (other, gone, there) (refl, refl)
]

pub Named-later :
    (s s' : TcpServer) (cs : List (Bytes × ℕ))
    → s'.name ≡ s.name
    → s'.ip_port ≡ s.ip_port
    → s.next_conn_id ≤ s'.next_conn_id
    → Named s cs
    → Named s' cs
Named-later s s' [] n i h k = tt
Named-later s s' ((m, loop) ∷ rest) n i h ((id, below, e), k) = (
  (id, omega arith, e ∙ ap₂ (λ a b. connection_name a b id) (sym n) (sym i)),
  Named-later s s' rest n i h k,
)

Named-snoc :
    (s : TcpServer) (cs : List (Bytes × ℕ)) (id loop : ℕ)
    → Named s cs
    → id < s.next_conn_id
    → Named s (cs ++ ((connection_name s.name s.ip_port id, loop) ∷ []))
Named-snoc s [] id loop k below = ((id, below, refl), tt)
Named-snoc s ((m, l) ∷ rest) id loop (h, k) below = (h, Named-snoc s rest id loop k below)

-- What a new connection changes: it is the only one with its name, it lives in the loop whose turn
-- it is, and that loop is told to establish it.
pub record Grown (count : ℕ) (s s' : TcpServer) : Type 0 where
  pub loop : ℕ
  pub turn :
      get_elem? (all_loops s.thread_pool) (count % length (all_loops s.thread_pool)) ≡ some loop
  pub fresh : has (connection_name s.name s.ip_port s.next_conn_id) s.connections ≡ false
  pub added :
      s'.connections
      ≡ s.connections ++ ((connection_name s.name s.ip_port s.next_conn_id, loop) ∷ [])
  pub told :
      s'.sent_tasks
      ≡ s.sent_tasks
        ++ ((loop, connect_established_task (connection_name s.name s.ip_port s.next_conn_id)) ∷ [])
  pub named : Named s' s'.connections
  pub handed : Handed (suc count) s'.thread_pool

-- For an address of at most 47 characters, a counter within `int`, names that the server gave and
-- loops that take turns, `newConnection` never overwrites a connection: the name that it makes is
-- not in use. The new connection goes to the loop whose turn it is, which is told to establish it.
pub new_connection-Grown :
    (count : ℕ) (s : TcpServer)
    → IsShort s.ip_port s.next_conn_id
    → Named s s.connections
    → Handed count s.thread_pool
    → Returns (new_connection s) (Grown count s)
unfolding new_connection
new_connection-Grown count s short named handed =
    Returns->>= {A = ℕ × EventLoopThreadPool}
      (λ r.
        (get_elem? (all_loops s.thread_pool) (count % length (all_loops s.thread_pool)) ≡ some r.0)
        × Handed (suc count) r.1
        × (all_loops r.1 ≡ all_loops s.thread_pool))
      (Grown count s) (get_next_loop s.thread_pool) _
      (get_next_loop-Handed count s.thread_pool handed)
      (λ (loop, pool) (turn, next, same). grown loop pool turn next)
  where
    id : ℕ
    id = s.next_conn_id

    name : Bytes
    name = connection_name s.name s.ip_port id

    unused : has name s.connections ≡ false
    unused = has_fresh s s.connections short named

    stored : (loop : ℕ) → store name loop s.connections ≡ s.connections ++ ((name, loop) ∷ [])
    stored loop = store_fresh name loop s.connections unused

    grown :
        (loop : ℕ) (pool : EventLoopThreadPool)
        → get_elem? (all_loops s.thread_pool) (count % length (all_loops s.thread_pool)) ≡ some loop
        → Handed (suc count) pool
        → Grown count s (record s {
          thread_pool = pool;
          next_conn_id = s.next_conn_id + 1;
          connections = store name loop s.connections;
          sent_tasks = s.sent_tasks ++ (loop, connect_established_task name) ∷ [];
        })
    grown loop pool turn next = record {
      loop = loop;
      turn = turn;
      fresh = unused;
      added = stored loop;
      told = refl;
      named =
          let after : TcpServer = record s {
            thread_pool = pool;
            next_conn_id = s.next_conn_id + 1;
            connections = store name loop s.connections;
            sent_tasks = s.sent_tasks ++ (loop, connect_established_task name) ∷ [];
          } in
          subst (Named after) (sym (stored loop)) (
            Named-snoc after s.connections id loop
              (Named-later s after s.connections refl refl (omega arith) named) (omega arith));
      handed = next;
    }

-- Removing the connection that came last puts the map back as it was before it: the assert that it
-- is there holds, and its own loop is told to destroy it.
pub remove_connection_in_loop-Grown :
    (count : ℕ) (s s' : TcpServer) (g : Grown count s s')
    → let name = connection_name s.name s.ip_port s.next_conn_id in
      Returns (remove_connection_in_loop name g.loop s') (λ s''.
        (s''.connections ≡ s.connections)
        × (s''.sent_tasks ≡ s'.sent_tasks ++ ((g.loop, connect_destroyed_task name) ∷ [])))
unfolding remove_connection_in_loop
remove_connection_in_loop-Grown count s s' g =
    let name = connection_name s.name s.ip_port s.next_conn_id in
    let (gone, there) = erase_last name g.loop s.connections g.fresh in
    assert->> _ _ _ (ap (has name) g.added ∙ there) (ap (erase name) g.added ∙ gone, refl)
