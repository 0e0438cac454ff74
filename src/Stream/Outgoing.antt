-- ===== src/Stream/Outgoing.antt =====
-- What was written on a connection stays written.
use comsrv.Base.{ℕ, ◌≡◌, refl, ap, sym, ◌∙◌, List, [], ◌∷◌, ◌++◌, append-nil, append_assoc}
use comsrv.Stream.{Stream, Outcome, ok, err, hangs, Io, and_then, read_from, read_u8}

-- `s'` has everything written that `s` has, and maybe more behind it.
abbrev pub Extends : Stream → Stream → Type 0
Extends s s' = (more : List ℕ) × (s'.outgoing ≡ s.outgoing ++ more)

pub same-Extends : (s s' : Stream) → s'.outgoing ≡ s.outgoing → Extends s s'
same-Extends s s' e = ([], e ∙ sym (append-nil s.outgoing))

pub Extends-trans : (a b c : Stream) → Extends a b → Extends b c → Extends a c
Extends-trans a b c (x, e) (y, f) =
    (x ++ y, f ∙ ap (λ (l : List ℕ). l ++ y) e ∙ append_assoc a.outgoing x y)

pub and_then-Extends :
    {A B : Type 0} (s : Stream) (x : Outcome A × Stream) (f : A → Io B)
    → Extends s x.1
    → ((a : A) (s' : Stream) → Extends s' (f a s').1)
    → Extends s (and_then x f).1
and_then-Extends s (ok a, s') f e k = Extends-trans s s' (f a s').1 e (k a s')
and_then-Extends s (err e', s') f e k = e
and_then-Extends s (hangs, s') f e k = e

read_from-outgoing : (p i : List ℕ) (s : Stream) → (read_from p i s).1.outgoing ≡ s.outgoing
unfolding read_from
read_from-outgoing [] [] s = refl
read_from-outgoing [] (b ∷ i) s = refl
read_from-outgoing (b ∷ p) i s = refl

pub read_u8-outgoing : (s : Stream) → (read_u8 s).1.outgoing ≡ s.outgoing
unfolding read_u8
read_u8-outgoing s = read_from-outgoing s.pending s.incoming s
