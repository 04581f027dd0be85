-- ===== src/Rage/Buffer/Monad.antt =====
-- Reading with `?`: a reader of the buffer moves it on and may fail; the state after a failure is
-- kept, as `&mut self` keeps it. A writer tells whether it succeeded.
use baston.Prelude.{Bool, true, false, Option, none, some}
use baston.Rage.Buffer.{MessageBuffer}

abbrev pub Reader : Type 0 → Type 0
Reader A = MessageBuffer → MessageBuffer × Option A

abbrev pub continue :
    {A B : Type 0} → MessageBuffer × Option A → (A → Reader B) → MessageBuffer × Option B
continue (b, none) f = (b, none)
continue (b, some a) f = f a b

infixl 5 ◌>>=◌
abbrev pub ◌>>=◌ : {A B : Type 0} → Reader A → (A → Reader B) → Reader B
◌>>=◌ m f b = continue (m b) f

abbrev pub pure : {A : Type 0} → A → Reader A
pure a b = (b, some a)

abbrev pub fail : {A : Type 0} → Reader A
fail b = (b, none)

abbrev pub Writer : Type 0
Writer = MessageBuffer → MessageBuffer × Bool

-- `a && b` of two writes: the second is made only if the first succeeds.
abbrev pub and_then : MessageBuffer × Bool → Writer → MessageBuffer × Bool
and_then (b, true) f = f b
and_then (b, false) f = (b, false)

infixr 4 ◌>>◌
abbrev pub ◌>>◌ : Writer → Writer → Writer
◌>>◌ m k b = and_then (m b) k
