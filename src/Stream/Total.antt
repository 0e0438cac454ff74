-- ===== src/Stream/Total.antt =====
-- Reading and writing return: with an answer or an error, on any connection.
use comsrv.Base.{
  ℕ, zero, suc, inl, inr, Bool, true, false, List, [], ◌∷◌, Option, none, some, if◌then◌else◌,
}
use comsrv.Protocol.Error.{Error, ErrorKind, Result}
use comsrv.Stream.{
  Stream, Outcome, ok, err, hangs, Io, and_then, ◌>>=◌, pure, raise, lift, read_u8, read_exact,
  write_all, write_with, read_all,
}
use comsrv.Stream.Laws.{read_u8_cases, read_all-result, read_all_result, drained}

-- The outcome is an answer or an error.
abbrev pub Settles {ℓ} : {A S : Type ℓ} → Outcome A × S → Type 0
Settles (ok a, s) = Unit {0}
Settles (err e, s) = Unit {0}
Settles (hangs, s) = ⊥

pub record IsTotal {A : Type 0} (m : Io A) : Type 0 where
  pub settles : (s : Stream) → Settles (m s)

pub pure-IsTotal : {A : Type 0} (a : A) → IsTotal (pure a)
pure-IsTotal a = record { settles = λ s. tt }

pub raise-IsTotal : {A : Type 0} (e : Error) → IsTotal (raise {A = A} e)
raise-IsTotal e = record { settles = λ s. tt }

pub and_then-Settles :
    {A B : Type 0} (x : Outcome A × Stream) (f : A → Io B)
    → Settles x
    → ((a : A) → IsTotal (f a))
    → Settles (and_then x f)
and_then-Settles (ok a, s) f h k = (k a).settles s
and_then-Settles (err e, s) f h k = tt
and_then-Settles (hangs, s) f h k = h

pub bind-IsTotal :
    {A B : Type 0} (m : Io A) (f : A → Io B)
    → IsTotal m
    → ((a : A) → IsTotal (f a))
    → IsTotal (m >>= f)
bind-IsTotal m f h k = record { settles = λ s. and_then-Settles (m s) f (h.settles s) k }

pub lift-IsTotal : {A : Type 0} (x : Result A) → IsTotal (lift x)
lift-IsTotal (Result.ok a) = record { settles = λ s. tt }
lift-IsTotal (Result.err e) = record { settles = λ s. tt }

pub if-IsTotal :
    {A : Type 0} (b : Bool) {m k : Io A} → IsTotal m → IsTotal k → IsTotal (if b then m else k)
if-IsTotal true h l = h
if-IsTotal false h l = l

pub read_u8-IsTotal : IsTotal read_u8
read_u8-IsTotal = record {
  settles = λ s. elim (read_u8_cases s) [
    | inl (e, failed) ↦ rw failed tt
    | inr (b, s', got, less) ↦ rw got tt
  ];
}

pub read_exact-IsTotal : (n : ℕ) → IsTotal (read_exact n)
unfolding read_exact
read_exact-IsTotal zero = pure-IsTotal []
read_exact-IsTotal (suc n) =
    bind-IsTotal read_u8 _ read_u8-IsTotal
      (λ b. bind-IsTotal (read_exact n) _ (read_exact-IsTotal n) (λ bs. pure-IsTotal (b ∷ bs)))

write_with-Settles :
    (x : Option ErrorKind) (bytes : List ℕ) (s : Stream) → Settles (write_with x bytes s)
unfolding write_with
write_with-Settles none bytes s = tt
write_with-Settles (some kind) bytes s = tt

pub write_all-IsTotal : (bytes : List ℕ) → IsTotal (write_all bytes)
unfolding write_all
write_all-IsTotal bytes = record { settles = λ s. write_with-Settles s.write_error bytes s }

pub read_all-IsTotal : IsTotal read_all
read_all-IsTotal = record {
  settles = λ s.
      rw (read_all-result s)
        ((lift-IsTotal (read_all_result s.incoming s.ending s.pending)).settles (drained s));
}
