-- ===== src/Server/Tally.antt =====
-- polaris/src/TCPServer.cc: counting the tasks and the connections of a name.
use lute.Http.Bytes.{Bytes, equal, equal_iff}
use lute.Prelude.{
  ℕ, Bool, ◌≡◌, List, ◌++◌, ◌+◌, ◌∷◌, true, false, arith, if◌then◌else◌, Bool-cases, [], refl, inl,
  inr, sym, ap, ◌||◌, ◌∙◌,
}
use lute.Server.{
  destroyed_tasks, has, erase, ConnectionTask, connect_established_task, connect_destroyed_task,
}

-- How many members pass a test.
abbrev pub tally {ℓ} : {A : Type ℓ} → (A → Bool) → List A → ℕ
tally f [] = 0
tally f (x ∷ xs) = (if f x then 1 else 0) + tally f xs

pub tally-append {ℓ} :
    {A : Type ℓ} (f : A → Bool) (xs ys : List A) → tally f (xs ++ ys) ≡ tally f xs + tally f ys
tally-append f [] ys = omega arith
tally-append f (x ∷ xs) ys = omega (arith, tally-append f xs ys)

-- Of a task, and of a connection, whether it is about the connection of that name.
abbrev pub establishes : Bytes → ℕ × ConnectionTask → Bool
establishes name (loop, connect_established_task n) = equal name n
establishes name (loop, connect_destroyed_task n) = false

abbrev pub destroys : Bytes → ℕ × ConnectionTask → Bool
destroys name (loop, connect_established_task n) = false
destroys name (loop, connect_destroyed_task n) = equal name n

abbrev pub is_called : Bytes → Bytes × ℕ → Bool
is_called name (n, loop) = equal name n

pub tally-erase :
    (name m : Bytes) (cs : List (Bytes × ℕ))
    → has m cs ≡ true
    → tally (is_called name) cs
      ≡ (if equal name m then 1 else 0) + tally (is_called name) (erase m cs)
unfolding has erase
tally-erase name m [] h = absurd (cc h)
tally-erase name m ((n, loop) ∷ rest) h = elim (Bool-cases (equal m n)) [
  | inl same ↦ rw (same, (equal_iff m n).0 same) refl
  | inr other ↦
      let there : has m rest ≡ true = sym (ap (λ b. b || has m rest) other) ∙ h in
      rw other (omega (arith, tally-erase name m rest there))
]

pub destroyed_tasks-destroys :
    (name : Bytes) (cs : List (Bytes × ℕ))
    → tally (destroys name) (destroyed_tasks cs) ≡ tally (is_called name) cs
unfolding destroyed_tasks
destroyed_tasks-destroys name [] = refl
destroyed_tasks-destroys name ((n, loop) ∷ rest) = omega (arith, destroyed_tasks-destroys name rest)

pub destroyed_tasks-establishes :
    (name : Bytes) (cs : List (Bytes × ℕ)) → tally (establishes name) (destroyed_tasks cs) ≡ 0
unfolding destroyed_tasks
destroyed_tasks-establishes name [] = refl
destroyed_tasks-establishes name ((n, loop) ∷ rest) =
    omega (arith, destroyed_tasks-establishes name rest)
