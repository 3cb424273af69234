-- ===== src/Receiver/Steps.antt =====
-- Handlers that may throw after they have written: the work so far, with how the call ends.
use authentication_transmiss.Receiver.State.{Work}
use authentication_transmiss.Prelude.{invalid_argument, if◌then◌else◌, Bool, ok, err, Throws}

abbrev pub Ended : Type 0
Ended = Work × Throws (Unit {0})

abbrev pub returned : Work → Ended
returned w = (w, ok tt)

-- The statements after a call: not reached where it threw.
unfoldable pub and_then : Ended → (Work → Ended) → Ended
and_then (w, err e) next = (w, err e)
and_then (w, ok done) next = next w

-- A value whose computation writes nothing but may throw.
unfoldable pub with_value {ℓ} : {A : Type ℓ} → Work → Throws A → (A → Ended) → Ended
with_value w (err e) next = (w, err e)
with_value w (ok a) next = next a

-- A write that a constructor's checks stand before, with the work where they throw.
unfoldable pub if_valid : Bool → Work → Work → Ended
if_valid valid before after = if valid then returned after else (before, err invalid_argument)

-- What a caller sees where it does not catch: the state is lost with an exception.
unfoldable pub leave : Ended → Throws Work
leave (w, ok done) = ok w
leave (w, err e) = err e
