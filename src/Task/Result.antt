-- ===== src/Task/Result.antt =====
-- Errors of the operations on tasks: what `throw` throws.
use metaclaw.Base.{Bool, true, false, Option, none, some, String}
use metaclaw.Kernel.Model.{TaskStatus}

pub data TaskError : Type 0 where
  task_exists task_not_found : (id : String) → TaskError
  illegal_transition : (from to : TaskStatus) → TaskError
  cannot_cancel cannot_park cannot_resume cannot_block cannot_unblock cannot_complete :
      (status : TaskStatus) → TaskError

pub data Result (A : Type 0) : Type 0 where
  ok : A → Result A
  err : TaskError → Result A

infixl 5 ◌>>=◌ ◌>>◌
abbrev pub ◌>>=◌ : {A B : Type 0} → Result A → (A → Result B) → Result B
ok a >>= f = f a
err e >>= f = err e

abbrev pub ◌>>◌ : {B : Type 0} → Result (Unit {0}) → Result B → Result B
m >> k = m >>= λ _. k

abbrev pub guard : Bool → TaskError → Result (Unit {0})
guard true e = ok tt
guard false e = err e

abbrev pub or_fail : {A : Type 0} → Option A → TaskError → Result A
or_fail none e = err e
or_fail (some a) e = ok a
