-- ===== src/Base/Store.antt =====
-- What the services use of TypeORM: the calls of a repository over a state `S` that holds all
-- rows. A `where` clause is a predicate on rows, `{ deletedAt: IsNull() }` included, which TypeORM
-- adds by itself unless `withDeleted` is set.
use Prim.Native.Nat.{ℕ}
use mathlib.Core.Bool.{Bool}
use mathlib.Core.Option.{Option}
use mathlib.Core.List.{List}
use nangman_note.Base.Calls.{Outcome, Run}

pub record Repository (E S : Type 0) : Type 0 where
  pub find : (E → Bool) → S → Outcome (List E)
  pub find_one : (E → Bool) → S → Outcome (Option E)
  -- `findOne` with `order: { createdAt: 'DESC' }`.
  pub find_latest : (E → Bool) → S → Outcome (Option E)
  pub count : (E → Bool) → S → Outcome ℕ
  pub save : E → Run S E
  -- `update(criteria, partial)`, with the assignments of the partial entity.
  pub update : (E → Bool) → (E → E) → Run S (Unit {0})
  -- `save` of an entity that has no id yet: the database gives it one.
  pub insert : E → Run S E
