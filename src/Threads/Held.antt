-- ===== src/Threads/Held.antt =====
-- What the queues of a world hold.
use rapidlog.Prelude.{ℕ, ◌≤◌, ◌<◌, ◌≡◌, ◌≢◌, List, [], ◌∷◌, ◌++◌, arith, All}
use rapidlog.Queue.Ring.{RingBuffer}
use rapidlog.Queue.Frames.{Holds}
use rapidlog.Threads.Defs.{World, update}

pub update_self {ℓ} : {A : Type ℓ} (f : ℕ → A) (i : ℕ) (a : A) → update f i a i ≡ a
update_self f i a = ground arith

pub update_ne {ℓ} : {A : Type ℓ} (f : ℕ → A) (i j : ℕ) (a : A) → i ≢ j → update f i a j ≡ f j
update_ne f i j a h = ground arith

-- No number stands twice.
abbrev pub Distinct : List ℕ → Type 0
Distinct [] = Unit {0}
Distinct (i ∷ is) = All (λ j. i ≢ j) is × Distinct is

-- The number stands in the list.
abbrev pub IsListed : ℕ → List ℕ → Type 0
IsListed id ids = (before : List ℕ) × (after : List ℕ) × (ids ≡ before ++ (id ∷ after))

module _ (r : RingBuffer) where
  -- `held` tells the messages of each queue; a queue that does not exist yet has none.
  pub record IsHolding (w : World r) (held : ℕ → List (List ℕ)) : Type 0 where
    pub queues : (id : ℕ) → id < w.next → Holds r (w.store id) (held id)
    pub unborn : (id : ℕ) → w.next ≤ id → held id ≡ []
    pub registered : All (λ id. id < w.next) w.registry
    pub distinct : Distinct w.registry

pub All-snoc {ℓ} :
    {A : Type ℓ} (P : A → Type 0) (xs : List A) (y : A) → All P xs → P y → All P (xs ++ (y ∷ []))
All-snoc P [] y h p = (p, tt)
All-snoc P (x ∷ xs) y h p = (h.0, All-snoc P xs y h.1 p)

pub All-map {ℓ} :
    {A : Type ℓ} (P Q : A → Type 0) (xs : List A) → ((x : A) → P x → Q x) → All P xs → All Q xs
All-map P Q [] f h = tt
All-map P Q (x ∷ xs) f h = (f x h.0, All-map P Q xs f h.1)

-- A number above all others makes no repetition.
pub Distinct-snoc :
    (is : List ℕ) (n : ℕ) → All (λ i. i < n) is → Distinct is → Distinct (is ++ (n ∷ []))
Distinct-snoc [] n h d = (tt, tt)
Distinct-snoc (i ∷ is) n h d =
    (All-snoc (λ j. i ≢ j) is n d.0 (λ e. omega (arith, h.0)), Distinct-snoc is n h.1 d.1)
