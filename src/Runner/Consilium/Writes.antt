-- ===== src/Runner/Consilium/Writes.antt =====
-- What holds of the registry after a write that may roll back.
use concierge.Prelude.{◌≡◌, refl}
use concierge.Errors.{Result, ok, err, ◌>>=◌, ◌>>◌}
use concierge.Runner.Consilium.{Registry}
use concierge.Runner.Consilium.Seats.{opened, committed}

-- What a write that succeeds makes of the registry.
abbrev pub Gives : (Registry → Type 0) → Result Registry → Type 0
Gives P (err e) = Unit
Gives P (ok next) = P next

pub bind-Gives {ℓ} :
    {A : Type ℓ} (P : Registry → Type 0) (res : Result A) (f : A → Result Registry)
    → ((a : A) → res ≡ ok a → Gives P (f a))
    → Gives P (res >>= f)
bind-Gives P (err e) f h = tt
bind-Gives P (ok a) f h = h a refl

pub then-Gives :
    (P : Registry → Type 0) (res : Result (Unit {0})) (rest : Result Registry)
    → (res ≡ ok tt → Gives P rest)
    → Gives P (res >> rest)
then-Gives P (err e) rest h = tt
then-Gives P (ok tt) rest h = h refl

pub opened-Gives :
    (P : Registry → Type 0) (reg : Registry) (res : Result Registry)
    → P reg
    → Gives P res
    → P (opened reg res).0
opened-Gives P reg (err e) k h = k
opened-Gives P reg (ok next) k h = h

pub committed-Gives :
    (P : Registry → Type 0) (reg : Registry) (res : Result Registry)
    → P reg
    → Gives P res
    → P (committed reg res).0
committed-Gives P reg (err e) k h = k
committed-Gives P reg (ok next) k h = h
