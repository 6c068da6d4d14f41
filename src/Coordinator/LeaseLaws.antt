-- ===== src/Coordinator/LeaseLaws.antt =====
-- Mutual exclusion of writer leases, over every interleaving of acquisitions and drops.
use my_sqweel.Prelude.{
  Text, List, [], ◌∷◌, ◌++◌, Option, none, some, Bool, true, false, ◌||◌, not, ◌≡◌, refl, arith,
  All, ◌==◌, is_empty, any, contains, any-append, contains-add, contains-retain, list_beq_iff,
  nat_eq, list_eq, Result, ok, err, Bool-cases, inl, inr, ◌⊎◌, is_ok, >>=-eq-ok, ◌∙◌, ap,
}
use my_sqweel.Coordinator.Leases.{
  EngineError, Writers, Scope, must_wait, mark, release, Wake, wait_turn, timed_out, notified,
  acquire_scope, mark_granted,
}

-- Two leases that may not be held together.
abbrev pub conflict : Scope → Scope → Bool
conflict none m = true
conflict (some a) none = true
conflict (some a) (some b) = a == b

abbrev pub Apart : List Scope → Type 0
Apart [] = Unit
Apart (l ∷ ls) = All (λ m. conflict l m ≡ false) ls × Apart ls

-- The writers and the leases that threads hold.
pub record World : Type 0 where
  pub writers : Writers
  pub held : List Scope

-- A thread is granted a lease when it need not wait; a held lease is dropped.
pub data Step : World → World → Type 0 where
  grant :
      (t : World) (scope : Scope)
      → must_wait t.writers scope ≡ false
      → Step t (record { writers = mark t.writers scope; held = scope ∷ t.held })
  drop_lease :
      (t : World) (before after : List Scope) (scope : Scope)
      → t.held ≡ before ++ (scope ∷ after)
      → Step t (record { writers = release t.writers scope; held = before ++ after })

pub data Reach : World → Type 0 where
  start : Reach (record { writers = record { administrative = false; databases = [] }; held = [] })
  next : {t u : World} → Reach t → Step t u → Reach u

abbrev is_administrative : Scope → Bool
is_administrative none = true
is_administrative (some d) = false

abbrev is_on : Text → Scope → Bool
is_on d none = false
is_on d (some a) = a == d

-- The writers record exactly the leases that are held, and those do not conflict.
pub record IsExclusive (t : World) : Type 0 where
  pub apart : Apart t.held
  pub admin : t.writers.administrative ≡ any is_administrative t.held
  pub listed : (d : Text) → contains t.writers.databases d ≡ any (is_on d) t.held

conflict_sym : (l m : Scope) → conflict l m ≡ false → conflict m l ≡ false
conflict_sym none m h = cc
conflict_sym (some a) none h = cc
conflict_sym (some a) (some b) h = ground (arith, list_beq_iff a b, list_beq_iff b a)

Apart-drop :
    (before after : List Scope) (l : Scope)
    → Apart (before ++ (l ∷ after))
    → All (λ m. conflict l m ≡ false) (before ++ after) × Apart (before ++ after)
Apart-drop [] after l (free, rest) = (free, rest)
Apart-drop (m ∷ before) after l (free, rest) =
    let ih = Apart-drop before after l rest in
    let both = split before free in ((conflict_sym m l both.0, ih.0), (both.1, ih.1))
  where
    split :
        (xs : List Scope)
        → All (λ n. conflict m n ≡ false) (xs ++ (l ∷ after))
        → (conflict m l ≡ false) × All (λ n. conflict m n ≡ false) (xs ++ after)
    split [] (here, more) = (here, more)
    split (x ∷ xs) (here, more) = let r = split xs more in (r.0, (here, r.1))

-- A lease without a conflict among others is the only one of its kind.
only_admin :
    (ls : List Scope) → All (λ m. conflict none m ≡ false) ls → any is_administrative ls ≡ false
only_admin [] h = refl
only_admin (m ∷ ls) (h, more) = cc

no_admin :
    (d : Text) (ls : List Scope)
    → All (λ m. conflict (some d) m ≡ false) ls
    → any is_administrative ls ≡ false
no_admin d [] h = refl
no_admin d (none ∷ ls) (h, more) = cc
no_admin d (some a ∷ ls) (h, more) = no_admin d ls more

only_on :
    (d : Text) (ls : List Scope)
    → All (λ m. conflict (some d) m ≡ false) ls
    → any (is_on d) ls ≡ false
only_on d [] h = refl
only_on d (none ∷ ls) (h, more) = cc
only_on d (some a ∷ ls) (h, more) =
    ground (arith, only_on d ls more, list_beq_iff a d, list_beq_iff d a)

free_of_held :
    (ls : List Scope) (scope : Scope)
    → any (conflict scope) ls ≡ false
    → All (λ m. conflict scope m ≡ false) ls
free_of_held [] scope h = tt
free_of_held (m ∷ ls) scope h = (ground arith, free_of_held ls scope (ground arith))

conflict-none : (ls : List Scope) → any (conflict none) ls ≡ not (is_empty ls)
conflict-none [] = refl
conflict-none (m ∷ ls) = refl

conflict-some :
    (d : Text) (ls : List Scope)
    → any (conflict (some d)) ls ≡ (any is_administrative ls || any (is_on d) ls)
conflict-some d [] = refl
conflict-some d (none ∷ ls) = refl
conflict-some d (some a ∷ ls) =
    ground (arith, conflict-some d ls, list_beq_iff a d, list_beq_iff d a)

-- The database of the first lease that is on one.
listed_nonempty :
    (ls : List Scope) (dbs : List Text)
    → ((d : Text) → contains dbs d ≡ any (is_on d) ls)
    → (any is_administrative ls || not (is_empty dbs)) ≡ not (is_empty ls)
listed_nonempty [] [] h = refl
listed_nonempty [] (d ∷ dbs) h = ground (arith, h d, list_beq_iff d d)
listed_nonempty (none ∷ ls) dbs h = refl
listed_nonempty (some a ∷ ls) [] h = ground (arith, h a, list_beq_iff a a)
listed_nonempty (some a ∷ ls) (d ∷ dbs) h = ground arith

-- While the writers record the held leases, a thread waits exactly if a conflicting lease is held.
pub must_wait_iff :
    (t : World) (scope : Scope)
    → IsExclusive t
    → must_wait t.writers scope ≡ any (conflict scope) t.held
unfolding must_wait
must_wait_iff t (some d) inv = rw (inv.admin, inv.listed d, conflict-some d t.held) refl
must_wait_iff t none inv =
    rw (inv.admin, listed_nonempty t.held t.writers.databases inv.listed, conflict-none t.held) refl

grant-IsExclusive :
    (t : World) (scope : Scope)
    → IsExclusive t
    → must_wait t.writers scope ≡ false
    → IsExclusive (record { writers = mark t.writers scope; held = scope ∷ t.held })
unfolding mark
grant-IsExclusive t none inv free = record {
  apart = (free_of_held t.held none (ground (arith, must_wait_iff t none inv)), inv.apart);
  admin = refl;
  listed = inv.listed;
}
grant-IsExclusive t (some a) inv free = record {
  apart = (free_of_held t.held (some a) (ground (arith, must_wait_iff t (some a) inv)), inv.apart);
  admin = inv.admin;
  listed = λ d. ground (arith, contains-add a t.writers.databases d, inv.listed d);
}

drop-IsExclusive :
    (t : World) (before after : List Scope) (scope : Scope)
    → IsExclusive t
    → t.held ≡ before ++ (scope ∷ after)
    → IsExclusive (record { writers = release t.writers scope; held = before ++ after })
unfolding release
drop-IsExclusive t before after none inv e =
    let parts = Apart-drop before after none (rw e at inv.apart) in
    record {
      apart = parts.1;
      admin = ground (arith, only_admin (before ++ after) parts.0);
      listed = λ d. ground (
        arith,
        inv.listed d,
        e,
        any-append (is_on d) before (none ∷ after),
        any-append (is_on d) before after,
      );
    }
drop-IsExclusive t before after (some a) inv e =
    let parts = Apart-drop before after (some a) (rw e at inv.apart) in
    record {
      apart = parts.1;
      admin = ground (
        arith,
        inv.admin,
        any-append is_administrative before (some a ∷ after),
        any-append is_administrative before after,
      );
      listed = λ d. ground (
        arith,
        inv.listed d,
        contains-retain t.writers.databases a d,
        any-append (is_on d) before (some a ∷ after),
        any-append (is_on d) before after,
        only_on a (before ++ after) parts.0,
        list_beq_iff a d,
      );
    }

Step-IsExclusive : {t u : World} → Step t u → IsExclusive t → IsExclusive u
Step-IsExclusive (grant t scope free) inv = grant-IsExclusive t scope inv free
Step-IsExclusive (drop_lease t before after scope e) inv =
    drop-IsExclusive t before after scope inv e

-- In every state that threads can reach by taking and dropping leases, the writers record exactly the
-- held leases, no two of those are on one database, and an administrative lease is held alone.
pub Reach-IsExclusive : {t : World} → Reach t → IsExclusive t
Reach-IsExclusive start = record { apart = tt; admin = refl; listed = λ d. refl }
Reach-IsExclusive (next r st) = Step-IsExclusive st (Reach-IsExclusive r)

-- The writers are those that a thread found at first or at one of its wake-ups.
abbrev pub Observed : Writers → Writers → List Wake → Type 0
Observed v w [] = v ≡ w
Observed v w (timed_out ∷ wakes) = v ≡ w
Observed v w (notified w' ∷ wakes) = (v ≡ w) ⊎ Observed v w' wakes

wait_turn-grants :
    (scope : Scope) (w : Writers) (wakes : List Wake) (v : Writers)
    → wait_turn scope w wakes ≡ ok (some v)
    → Observed v w wakes × (must_wait v scope ≡ false)
unfolding wait_turn
wait_turn-grants scope w [] v h = ground arith
wait_turn-grants scope w (timed_out ∷ wakes) v h = ground arith
wait_turn-grants scope w (notified w' ∷ wakes) v h = elim (Bool-cases (must_wait w scope)) [
  | inl busy ↦ let r = wait_turn-grants scope w' wakes v (rw busy at h) in (inr r.0, r.1)
  | inr free ↦ (inl (ground arith), ground arith)
]

mark_granted-some :
    (second : Result EngineError (Unit {0})) (scope : Scope) (turn : Option Writers) (w' : Writers)
    → mark_granted second scope turn ≡ ok (some w')
    → (v : Writers) × (turn ≡ some v) × (is_ok second ≡ true) × (w' ≡ mark v scope)
unfolding mark_granted
mark_granted-some second scope none w' h = cc
mark_granted-some (err e) scope (some v) w' h = cc
mark_granted-some (ok u) scope (some v) w' h = (v, refl, refl, ground arith)

-- A successful acquisition passed both checks, and was granted by writers that the thread found when it
-- came or at a wake-up and that did not make it wait; it returns those writers with the lease marked.
pub acquire_scope-grants :
    (first second : Result EngineError (Unit {0})) (scope : Scope) (w : Writers) (wakes : List Wake)
    (w' : Writers)
    → acquire_scope first second scope w wakes ≡ ok (some w')
    → (is_ok first ≡ true)
      × (is_ok second ≡ true)
      × ((v : Writers) × Observed v w wakes × (must_wait v scope ≡ false) × (w' ≡ mark v scope))
unfolding acquire_scope
acquire_scope-grants (err e) second scope w wakes w' h = cc
acquire_scope-grants (ok u) second scope w wakes w' h =
    let (turn, waited, granted) =
      >>=-eq-ok (wait_turn scope w wakes) (mark_granted second scope) h in
    let (v, found, passed, marked) = mark_granted-some second scope turn w' granted in
    let seen = wait_turn-grants scope w wakes v (waited ∙ ap ok found) in
    (refl, passed, (v, seen.0, seen.1, marked))
