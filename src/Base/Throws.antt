-- ===== src/Base/Throws.antt =====
-- What a call that may throw comes back with: a message where the code only reads that, or one of
-- the HTTP exceptions by which the services refuse.
use Prim.Native.String.{String}
use mathlib.Core.Bool.{Bool, true, false}
use mathlib.Core.Option.{Option, none, some}

pub data Answer {ℓ} (A : Type ℓ) : Type ℓ where
  ok : A → Answer A
  thrown : String → Answer A

-- `NotFoundException`, `ForbiddenException`, `BadRequestException`, `ConflictException`.
pub data Exception : Type 0 where
  not_found forbidden bad_request conflict : String → Exception
  -- The driver's `save` refuses a document that the schema does not allow.
  not_valid : Exception

pub data Reply {ℓ} (A : Type ℓ) : Type ℓ where
  reply : A → Reply A
  refuse : Exception → Reply A

infixl 5 ◌>>=◌ ◌>>◌
abbrev pub ◌>>=◌ {ℓ κ} : {A : Type ℓ} {B : Type κ} → Reply A → (A → Reply B) → Reply B
reply a >>= f = f a
refuse e >>= f = refuse e

abbrev pub ◌>>◌ {ℓ} : {B : Type ℓ} → Reply (Unit {0}) → Reply B → Reply B
m >> k = m >>= λ _. k

-- `if (!test) throw e;`
abbrev pub require : Bool → Exception → Reply (Unit {0})
require true e = reply tt
require false e = refuse e

-- `if (!found) throw e;`
abbrev pub existing {ℓ} : {A : Type ℓ} → Option A → Exception → Reply A
existing none e = refuse e
existing (some a) e = reply a
