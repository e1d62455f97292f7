-- ===== src/Source/Hear/Gives.antt =====
-- Calls of a source that have a result besides.
use atolla.Prelude.{ℕ, ◌≡◌, refl, sym, ap, subst, Result, ok, fault, ◌>>=◌}
use atolla.Prelude.Int.{ℤ}
use atolla.World.{World, Incoming}
use atolla.Source.State.{Source}
use atolla.Source.Hear.{Phase, HasPhase, IsWorking}
use atolla.Source.Hear.Reads.{Reads}
use atolla.Source.Hear.Turns.{
  Course, Course-trans, waits-Course, GoesOn, GoesOn-trans, HasWaited-GoesOn, Works,
}
use atolla.Source.Hear.Updates.{IsAnswer}

-- A call with a result besides.
abbrev pub Gives : {A : Type 0} → Source → World → Phase → Result (A × Source × World) → Type 0
Gives {A} s w p r =
    (x : A) × (s' : Source) × (w' : World) × (q : Phase) × (r ≡ ok (x, s', w'))
    × IsWorking s'
    × HasPhase s' q
    × Course s p w s' q w'
    × GoesOn w w'

pub Gives-then :
    {A : Type 0} (s : Source) (w : World) (p : Phase) (r : Result (Source × World))
    (f : Source × World → Result (A × Source × World))
    → Works s w p r
    → ((s' : Source) (w' : World) (q : Phase)
        → IsWorking s'
        → HasPhase s' q
        → GoesOn w w'
        → Gives s' w' q (f (s', w')))
    → Gives s w p (r >>= f)
Gives-then s w p r f (s', w', q, ran, works, has, turn, on) next =
    let (x, t, w'', q', ran', works', has', turn', on') = next s' w' q works has on in
    (
      x,
      t,
      w'',
      q',
      rw ran ran',
      works',
      has',
      Course-trans turn turn',
      GoesOn-trans w w' w'' on on',
    )

-- One call after another.
pub Gives-bind :
    {A B : Type 0} (s : Source) (w : World) (p : Phase) (r : Result (A × Source × World))
    (f : A × Source × World → Result (B × Source × World))
    → Gives s w p r
    → ((x : A) (s' : Source) (w' : World) (q : Phase)
        → IsWorking s'
        → HasPhase s' q
        → GoesOn w w'
        → Gives s' w' q (f (x, s', w')))
    → Gives s w p (r >>= f)
Gives-bind s w p r f (x, s', w', q, ran, works, has, turn, on) next =
    let (y, t, w'', q', ran', works', has', turn', on') = next x s' w' q works has on in
    (
      y,
      t,
      w'',
      q',
      rw ran ran',
      works',
      has',
      Course-trans turn turn',
      GoesOn-trans w w' w'' on on',
    )

pub ok_then :
    {A B C : Type 0} (r : Result A) (f : A → B) (g : B → Result C)
    → ((r >>= λ x. ok (f x)) >>= g) ≡ (r >>= λ x. g (f x))
ok_then (ok x) f g = refl
ok_then (fault e) f g = refl

pub answers_on :
    {w w' : World}
    → GoesOn w w'
    → ((i : ℕ) → IsAnswer (w.incoming i))
    → (i : ℕ) → IsAnswer (w'.incoming i)
answers_on on answers i =
    subst IsAnswer (ap (λ (f : ℕ → Incoming). f i) (sym on.incoming)) (answers i)

pub read-Gives :
    (s : Source) (p : Phase) (w : World) (r : Result (ℤ × World))
    → IsWorking s
    → HasPhase s p
    → Reads w r
    → Gives s w p (r >>= λ x. ok (x.0, s, x.1))
read-Gives s p w r works has (n, w', ran, waits) = (
  n,
  s,
  w',
  p,
  rw ran refl,
  works,
  has,
  waits-Course s p w s w' refl refl refl waits,
  HasWaited-GoesOn w w' waits,
)
