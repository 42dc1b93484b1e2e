-- ===== src/Datapoints/Sequences.antt =====
-- Sequences of different nodes, and the last of one.
use a2pm.Common.{ℕ, ◌≡◌, ◌≢◌, refl, sym, arith, Option, none, some, List, [], ◌∷◌, ◌++◌}

abbrev pub IsFresh : ℕ → List ℕ → Type 0
IsFresh a [] = Unit {0}
IsFresh a (x ∷ xs) = (a ≢ x) × IsFresh a xs

abbrev pub AreDistinct : List ℕ → Type 0
AreDistinct [] = Unit {0}
AreDistinct (x ∷ xs) = IsFresh x xs × AreDistinct xs

abbrev pub last_node : List ℕ → Option ℕ
last_node [] = none
last_node (x ∷ []) = some x
last_node (x ∷ y ∷ xs) = last_node (y ∷ xs)

pub last_node-some : (x : ℕ) (xs : List ℕ) → (b : ℕ) × (last_node (x ∷ xs) ≡ some b)
last_node-some x [] = (x, refl)
last_node-some x (y ∷ xs) = last_node-some y xs

pub last_node-snoc : (xs : List ℕ) (a : ℕ) → last_node (xs ++ a ∷ []) ≡ some a
last_node-snoc [] a = refl
last_node-snoc (x ∷ []) a = refl
last_node-snoc (x ∷ y ∷ xs) a = last_node-snoc (y ∷ xs) a

pub IsFresh-snoc : (x : ℕ) (xs : List ℕ) (a : ℕ) → IsFresh x xs → x ≢ a → IsFresh x (xs ++ a ∷ [])
IsFresh-snoc x [] a f ne = (ne, tt)
IsFresh-snoc x (y ∷ xs) a (f, fs) ne = (f, IsFresh-snoc x xs a fs ne)

pub AreDistinct-snoc :
    (xs : List ℕ) (a : ℕ) → AreDistinct xs → IsFresh a xs → AreDistinct (xs ++ a ∷ [])
AreDistinct-snoc [] a d f = (tt, tt)
AreDistinct-snoc (x ∷ xs) a (fx, d) (ne, f) =
    (IsFresh-snoc x xs a fx (λ e. ne (sym e)), AreDistinct-snoc xs a d f)

pub IsFresh-last : (x : ℕ) (xs : List ℕ) (b : ℕ) → IsFresh x xs → last_node xs ≡ some b → x ≢ b
IsFresh-last x [] b f e = ground (arith, e)
IsFresh-last x (y ∷ []) b (ne, f) e = ground (arith, e)
IsFresh-last x (y ∷ z ∷ xs) b (ne, f) e = IsFresh-last x (z ∷ xs) b f e

pub IsFresh-without :
    (x : ℕ) (before : List ℕ) (t : ℕ) (after : List ℕ)
    → IsFresh x (before ++ t ∷ after)
    → (x ≢ t) × IsFresh x (before ++ after)
IsFresh-without x [] t after f = f
IsFresh-without x (b ∷ before) t after (ne, f) =
    let (ne', f') = IsFresh-without x before t after f in (ne', (ne, f'))

pub IsFresh-before :
    (x : ℕ) (before after : List ℕ) → IsFresh x (before ++ after) → IsFresh x before
IsFresh-before x [] after f = tt
IsFresh-before x (b ∷ before) after (ne, f) = (ne, IsFresh-before x before after f)

pub AreDistinct-without :
    (before : List ℕ) (t : ℕ) (after : List ℕ)
    → AreDistinct (before ++ t ∷ after)
    → AreDistinct (before ++ after) × IsFresh t (before ++ after)
AreDistinct-without [] t after (f, d) = (d, f)
AreDistinct-without (b ∷ before) t after (f, d) =
    let (d', ft) = AreDistinct-without before t after d in
    let (ne, fb) = IsFresh-without b before t after f in ((fb, d'), ((λ e. ne (sym e)), ft))

pub last_node-append :
    (xs : List ℕ) (y : ℕ) (ys : List ℕ) → last_node (xs ++ y ∷ ys) ≡ last_node (y ∷ ys)
last_node-append [] y ys = refl
last_node-append (x ∷ []) y ys = refl
last_node-append (x ∷ z ∷ xs) y ys = last_node-append (z ∷ xs) y ys
