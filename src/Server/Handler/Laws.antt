-- ===== src/Server/Handler/Laws.antt =====
-- Chains of handlers.
use enactspace.Shared.{◌≡◌, refl, ap, arith}
use enactspace.Server.Handler.{Handler, Result, ok, err, Session, pure, ◌>>=◌}

-- A property of sessions that the parts of a handler keep is one that the handler keeps.
pub then-Keeps :
    {A B : Type 0} (Q : Session → Type 0) (k : A → Handler B)
    → ((a : A) (s : Session) → Q s → Q (k a s).1)
    → (r : Result A) (s : Session) → Q s
    → Q (◌>>=◌ (λ _. (r, s)) k s).1
then-Keeps Q k keeps (ok a) s h = keeps a s h
then-Keeps Q k keeps (err e) s h = h

-- a chain of handlers that succeeds has a first one that did
pub then-ok :
    {A B : Type 0} (r : Result A) (s : Session) (k : A → Handler B) (b : B)
    → (◌>>=◌ (λ _. (r, s)) k s).0 ≡ ok b
    → (a : A) × (r ≡ ok a)
then-ok (ok a) s k b e = (a, refl)
then-ok (err x) s k b e = ground (arith, e)

pub then-of :
    {A B : Type 0} (r : Result A) (s : Session) (k : A → Handler B) (a : A)
    → r ≡ ok a
    → ◌>>=◌ (λ _. (r, s)) k s ≡ k a s
then-of r s k a e = rw e refl

pub then-pure :
    {A B : Type 0} (r : Result A) (s : Session) (f : A → B)
    → (◌>>=◌ (λ _. (r, s)) (λ a. pure (f a)) s).1 ≡ s
then-pure (ok a) s f = refl
then-pure (err e) s f = refl

-- a handler that may refuse, but writes nothing, is followed by what comes after it
pub guard-Keeps :
    {A B : Type 0} (Q : Session → Type 0) (k : A → Handler B) (r : Result A) (s s' : Session)
    → s' ≡ s
    → Q s
    → ((a : A) → r ≡ ok a → Q (k a s).1)
    → Q (◌>>=◌ (λ _. (r, s')) k s).1
guard-Keeps Q k (ok a) s s' e h keeps = rw e (keeps a refl)
guard-Keeps Q k (err x) s s' e h keeps = rw e h

-- the two halves of a chain that succeeds
pub then-parts :
    {A B : Type 0} (r : Result A) (s : Session) (k : A → Handler B) (b : B)
    → (◌>>=◌ (λ _. (r, s)) k s).0 ≡ ok b
    → (a : A) × (r ≡ ok a) × ((k a s).0 ≡ ok b)
then-parts (ok a) s k b e = (a, refl, e)
then-parts (err x) s k b e = ground (arith, e)

-- A handler whose steps keep `Q`, up to its last one.
pub then-Gives :
    {A B : Type 0} (Q P : Session → Type 0)
    → ((s : Session) → Q s → P s)
    → (k : A → Handler B) → ((a : A) (s : Session) → Q s → P (k a s).1)
    → (r : Result A) (s : Session) → Q s
    → P (◌>>=◌ (λ _. (r, s)) k s).1
then-Gives Q P weaken k gives (ok a) s h = gives a s h
then-Gives Q P weaken k gives (err e) s h = weaken s h

-- a handler that answers and writes nothing is followed by what comes after it
pub then-run :
    {A B : Type 0} (r : Result A) (s' s : Session) (k : A → Handler B) (a : A)
    → r ≡ ok a
    → s' ≡ s
    → ◌>>=◌ (λ _. (r, s')) k s ≡ k a s
then-run r s' s k a e same = rw (e, same) refl

-- two runs of a chain answer alike where both their parts do
pub then-reads :
    {A B : Type 0} (r r' : Result A) (s s' : Session) (k : A → Handler B)
    → r' ≡ r
    → ((a : A) → (k a s').0 ≡ (k a s).0)
    → (◌>>=◌ (λ _. (r', s')) k s').0 ≡ (◌>>=◌ (λ _. (r, s)) k s).0
then-reads (ok a) r' s s' k e h = rw e (h a)
then-reads (err x) r' s s' k e h = rw e refl

pub then-same :
    {A B : Type 0} (r : Result A) (s' s : Session) (k : A → Handler B)
    → s' ≡ s
    → ◌>>=◌ (λ _. (r, s')) k s ≡ ◌>>=◌ (λ _. (r, s)) k s
then-same r s' s k same = ap (λ (u : Session). ◌>>=◌ (λ _. (r, u)) k s) same
