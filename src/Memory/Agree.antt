-- ===== src/Memory/Agree.antt =====
-- Two computations that do the same up to a relation between their results: both fault, both still
-- run, or both end.
use libudfread.Common.{◌≡◌, refl, subst}
use libudfread.Memory.{Mem, Returns, Safe, fault, running, done, ◌>>=◌}

abbrev pub Agrees : {A B : Type 0} → (A → B → Type 0) → Mem A → Mem B → Type 0
Agrees R fault fault = Unit
Agrees R fault running = ⊥
Agrees R fault (done b) = ⊥
Agrees R running fault = ⊥
Agrees R running running = Unit
Agrees R running (done b) = ⊥
Agrees R (done a) fault = ⊥
Agrees R (done a) running = ⊥
Agrees R (done a) (done b) = R a b

pub Agrees-bind :
    {A B C D : Type 0} {R : A → B → Type 0} (S : C → D → Type 0) (m : Mem A) (n : Mem B)
    (f : A → Mem C) (g : B → Mem D)
    → Agrees R m n
    → ((a : A) (b : B) → R a b → Agrees S (f a) (g b))
    → Agrees S (m >>= f) (n >>= g)
Agrees-bind S fault fault f g h k = tt
Agrees-bind S fault running f g h k = absurd h
Agrees-bind S fault (done b) f g h k = absurd h
Agrees-bind S running fault f g h k = absurd h
Agrees-bind S running running f g h k = tt
Agrees-bind S running (done b) f g h k = absurd h
Agrees-bind S (done a) fault f g h k = absurd h
Agrees-bind S (done a) running f g h k = absurd h
Agrees-bind S (done a) (done b) f g h k = k a b h

-- A computation agrees with itself, and its result is known.
pub Agrees-self : {A : Type 0} (m : Mem A) → Agrees (λ a b. (a ≡ b) × (m ≡ done a)) m m
Agrees-self fault = tt
Agrees-self running = tt
Agrees-self (done a) = (refl, refl)

pub Agrees-weaken :
    {A B : Type 0} {R : A → B → Type 0} (S : A → B → Type 0) (m : Mem A) (n : Mem B)
    → ((a : A) (b : B) → R a b → S a b)
    → Agrees R m n
    → Agrees S m n
Agrees-weaken S fault fault k h = tt
Agrees-weaken S fault running k h = absurd h
Agrees-weaken S fault (done b) k h = absurd h
Agrees-weaken S running fault k h = absurd h
Agrees-weaken S running running k h = tt
Agrees-weaken S running (done b) k h = absurd h
Agrees-weaken S (done a) fault k h = absurd h
Agrees-weaken S (done a) running k h = absurd h
Agrees-weaken S (done a) (done b) k h = k a b h

-- A computation that agrees with one that ends in `b` ends in a result related to `b`.
pub Agrees-Returns :
    {A B : Type 0} (R : A → B → Type 0) (P : A → Type 0) (m : Mem A) (n : Mem B) (b : B)
    → Agrees R m n
    → n ≡ done b
    → ((a : A) → R a b → P a)
    → Returns P m
Agrees-Returns R P fault fault b h e k = cc
Agrees-Returns R P fault running b h e k = absurd h
Agrees-Returns R P fault (done c) b h e k = absurd h
Agrees-Returns R P running fault b h e k = absurd h
Agrees-Returns R P running running b h e k = cc
Agrees-Returns R P running (done c) b h e k = absurd h
Agrees-Returns R P (done a) fault b h e k = absurd h
Agrees-Returns R P (done a) running b h e k = absurd h
Agrees-Returns R P (done a) (done c) b h e k =
    let same : c ≡ b = cc in k a (subst (λ d. R a d) same h)

-- What holds for the result of the second, if it does not fault, carries over to the first.
pub Agrees-Safe :
    {A B : Type 0} (R : A → B → Type 0) (P : B → Type 0) (Q : A → Type 0) (m : Mem A) (n : Mem B)
    → Agrees R m n
    → Safe P n
    → ((a : A) (b : B) → R a b → P b → Q a)
    → Safe Q m
Agrees-Safe R P Q fault fault h s k = s
Agrees-Safe R P Q fault running h s k = absurd h
Agrees-Safe R P Q fault (done b) h s k = absurd h
Agrees-Safe R P Q running n h s k = tt
Agrees-Safe R P Q (done a) fault h s k = absurd h
Agrees-Safe R P Q (done a) running h s k = absurd h
Agrees-Safe R P Q (done a) (done b) h s k = k a b h s
