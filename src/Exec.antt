-- ===== src/Exec.antt =====
-- Async methods that read and write the database and Redis, and that may throw. What was written
-- before a throw stays written, so the world comes back beside the error too.
pub mod Cases
use nestjs_team_tasks_api.Prelude.{String, Bool, true, false, Option, none, some}

-- The exceptions: NestJS's HTTP exceptions with their messages, TypeORM's `QueryFailedError` with
-- the driver's code, and any other error.
pub data Failure : Type 0 where
  conflict forbidden not_found unauthorized service_unavailable : String → Failure
  query_failed : String → Failure
  other_error : String → Failure

pub data Result {ℓ} (A : Type ℓ) : Type ℓ where
  ok : A → Result A
  throw : Failure → Result A

abbrev pub Exec {ℓ} : Type ℓ → Type ℓ → Type ℓ
Exec W A = W → Result A × W

module _ {ℓ} {W A : Type ℓ} where
  abbrev pub pure : A → Exec W A
  pure a w = (ok a, w)

  abbrev pub fail : Failure → Exec W A
  fail e w = (throw e, w)

  abbrev pub lift : Result A → Exec W A
  lift r w = (r, w)

  -- a method that reads and does not write
  abbrev pub read : (W → Result A) → Exec W A
  read f w = (f w, w)

  abbrev pub recover : Result A × W → (Failure → Exec W A) → Result A × W
  recover (ok a, w) handler = (ok a, w)
  recover (throw e, w) handler = handler e w

  -- `try { body } catch (err) { handler }`
  abbrev pub try_catch : Exec W A → (Failure → Exec W A) → Exec W A
  try_catch body handler w = recover (body w) handler

  -- `if (!x) throw e`, on what a query found
  abbrev pub or_throw : Option A → Failure → Exec W A
  or_throw none e w = (throw e, w)
  or_throw (some a) e w = (ok a, w)

module _ {ℓ} {W A B : Type ℓ} where
  abbrev pub continue : Result A × W → (A → Exec W B) → Result B × W
  continue (ok a, w) f = f a w
  continue (throw e, w) f = (throw e, w)

  infixl 10 ◌>>=◌
  abbrev pub ◌>>=◌ : Exec W A → (A → Exec W B) → Exec W B
  ◌>>=◌ m f w = continue (m w) f

  infixl 10 ◌>>◌
  abbrev pub ◌>>◌ : Exec W A → Exec W B → Exec W B
  m >> n = m >>= λ _. n

module _ {W : Type 0} where
  -- `if (b) throw e`
  abbrev pub throw_if : Bool → Failure → Exec W (Unit {0})
  throw_if true e w = (throw e, w)
  throw_if false e w = (ok tt, w)

-- a method of a part of the state
module _ {V W A : Type 0} where
  abbrev pub put_back : (W → V → V) → V → Result A × W → Result A × V
  put_back put v (r, w) = (r, put w v)

  abbrev pub zoom : (V → W) → (W → V → V) → Exec W A → Exec V A
  zoom get put method v = put_back put v (method (get v))
