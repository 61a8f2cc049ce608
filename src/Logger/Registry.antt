-- ===== src/Logger/Registry.antt =====
-- The registry of the loggers through any sequence of calls.
use rapidlog.Prelude.{
  ℕ, ◌+◌, ◌<◌, ◌≡◌, ◌≢◌, refl, ap, ap₂, ◌∙◌, sym, subst, List, [], ◌∷◌, Option, none, some, subst₂,
  some-injective, true, false, ◌&&◌, ◌==◌, Bool-cases, inl, inr, ◌⊎◌, Text, All, arith,
}
use rapidlog.Level.{LogLevel, as_usize, from_usize-as_usize}
use rapidlog.Logger.Filter.{Filter}
use rapidlog.Logger.Defs.{
  Logger, Loggers, same_text, lookup, create, new, get, set_log_level, level_of, add_filter,
  clear_filters,
}
use rapidlog.Threads.Defs.{update}
use rapidlog.Threads.Held.{update_self, update_ne}

-- One call on a logger or on the registry.
pub data Step : Loggers → Loggers → Type 0 where
  created : {w : Loggers} (name : Text) (sinks : List ℕ) → Step w (new name sinks w).1
  level_set : {w : Loggers} (id : ℕ) (l : LogLevel) → Step w (set_log_level id l w)
  filter_added : {w : Loggers} (id : ℕ) (f : Filter) → Step w (add_filter id f w)
  filters_cleared : {w : Loggers} (id : ℕ) → Step w (clear_filters id w)

pub data Steps : Loggers → Loggers → Type 0 where
  done : {w : Loggers} → Steps w w
  step : {u v w : Loggers} → Step u v → Steps v w → Steps u w

-- Each entry leads to a logger of its name.
unfoldable pub IsNamed : (ℕ → Logger) → ℕ → Text × ℕ → Type 0
IsNamed store next entry = (entry.1 < next) × ((store entry.1).name ≡ entry.0)

abbrev pub IsRegistry : Loggers → Type 0
IsRegistry w = All (IsNamed w.store w.next) w.registry

same_text-eq : (a b : Text) → same_text a b ≡ true → a ≡ b
unfolding same_text
same_text-eq [] [] h = refl
same_text-eq [] (d ∷ ds) h = cc
same_text-eq (c ∷ cs) [] h = cc
same_text-eq (c ∷ cs) (d ∷ ds) h = elim (Bool-cases (c == d)) [
  | inl e ↦
      ap₂ ◌∷◌ (ground arith) (same_text-eq cs ds (subst (λ b. (b && same_text cs ds) ≡ true) e h))
  | inr e ↦ ground arith
]

same_text_self : (a : Text) → same_text a a ≡ true
unfolding same_text
same_text_self [] = refl
same_text_self (c ∷ cs) = rw (self) (same_text_self cs)
  where
    self : (c == c) ≡ true
    self = ground arith

lookup_nil : (name : Text) → lookup name [] ≡ none
unfolding lookup
lookup_nil name = refl

lookup_here :
    (name key : Text) (k : ℕ) (es : List (Text × ℕ))
    → same_text key name ≡ true
    → lookup name ((key, k) ∷ es) ≡ some k
unfolding lookup
lookup_here name key k es e = rw e refl

lookup_later :
    (name key : Text) (k : ℕ) (es : List (Text × ℕ))
    → same_text key name ≡ false
    → lookup name ((key, k) ∷ es) ≡ lookup name es
unfolding lookup
lookup_later name key k es e = rw e refl

lookup_found :
    (P : Text × ℕ → Type 0) (name : Text) (es : List (Text × ℕ)) (id : ℕ)
    → All P es
    → lookup name es ≡ some id
    → P (name, id)
lookup_found P name [] id h e = cc (e, lookup_nil name)
lookup_found P name ((key, k) ∷ es) id h e = elim (Bool-cases (same_text key name)) [
  | inl same ↦
      subst₂ (λ n i. P (n, i)) (same_text-eq key name same)
        (some-injective k id (sym (lookup_here name key k es same) ∙ e)) h.0
  | inr other ↦ lookup_found P name es id h.1 (sym (lookup_later name key k es other) ∙ e)
]

-- The named entries stay named when a new logger gets the next number.
IsNamed-after :
    (w : Loggers) (l : Logger) (es : List (Text × ℕ))
    → All (IsNamed w.store w.next) es
    → All (IsNamed (update w.store w.next l) (w.next + 1)) es
unfolding IsNamed
IsNamed-after w l [] h = tt
IsNamed-after w l ((key, k) ∷ es) h = (
  (
    omega (arith, h.0.0),
    ap (λ (x : Logger). x.name) (update_ne w.store w.next k l (λ e. omega (arith, h.0.0))) ∙ h.0.1,
  ),
  IsNamed-after w l es h.1,
)

-- A change that keeps the name of a logger keeps all entries named.
IsNamed-change :
    (w : Loggers) (id : ℕ) (l : Logger) (es : List (Text × ℕ))
    → l.name ≡ (w.store id).name
    → All (IsNamed w.store w.next) es
    → All (IsNamed (update w.store id l) w.next) es
unfolding IsNamed
IsNamed-change w id l [] e h = tt
IsNamed-change w id l ((key, k) ∷ es) e h =
    ((h.0.0, named_at k h.0.1), IsNamed-change w id l es e h.1)
  where
    named_at : (k : ℕ) → (w.store k).name ≡ key → (update w.store id l k).name ≡ key
    named_at k n = ground arith

lookup-cases : (o : Option ℕ) → (o ≡ none) ⊎ ((id : ℕ) × (o ≡ some id))
lookup-cases none = inl refl
lookup-cases (some id) = inr (id, refl)

new_existing :
    (name : Text) (sinks : List ℕ) (w : Loggers) (id : ℕ)
    → get name w ≡ some id
    → new name sinks w ≡ (id, w)
unfolding new get
new_existing name sinks w id e = rw (e, new, get) refl

new_created :
    (name : Text) (sinks : List ℕ) (w : Loggers)
    → get name w ≡ none
    → new name sinks w ≡ create name sinks w
unfolding new get
new_created name sinks w e = rw (e, new, get) refl

get_created :
    (name : Text) (sinks : List ℕ) (w : Loggers) → get name (create name sinks w).1 ≡ some w.next
unfolding get create
get_created name sinks w = lookup_here name name w.next w.registry (same_text_self name)

-- A registered name stays what it is.
get_kept :
    (name key : Text) (id : ℕ) (sinks : List ℕ) (w : Loggers)
    → get name w ≡ some id
    → get key w ≡ none
    → get name (create key sinks w).1 ≡ some id
unfolding get create
get_kept name key id sinks w e free = elim (Bool-cases (same_text key name)) [
  | inl same ↦ cc (e, free, ap (λ n. lookup n w.registry) (same_text-eq key name same))
  | inr other ↦ lookup_later name key w.next w.registry other ∙ e
]

get_new :
    (name : Text) (sinks : List ℕ) (w : Loggers)
    → get name (new name sinks w).1 ≡ some (new name sinks w).0
unfolding create
get_new name sinks w = elim (lookup-cases (get name w)) [
  | inl e ↦ rw (new_created name sinks w e) (get_created name sinks w)
  | inr (id, e) ↦ rw (new_existing name sinks w id e) e
]

create-IsRegistry :
    (name : Text) (sinks : List ℕ) (w : Loggers) → IsRegistry w → IsRegistry (create name sinks w).1
unfolding create IsNamed
create-IsRegistry name sinks w h = (
  (omega arith, ap (λ (l : Logger). l.name) (update_self w.store w.next _)),
  IsNamed-after w _ w.registry h,
)

Step-get :
    {v w : Loggers} (name : Text) (id : ℕ) → Step v w → get name v ≡ some id → get name w ≡ some id
unfolding get set_log_level add_filter clear_filters
Step-get {v} name id (Step.created key sinks) e = elim (lookup-cases (get key v)) [
  | inl free ↦ rw (new_created key sinks v free) (get_kept name key id sinks v e free)
  | inr (k, f) ↦ rw (new_existing key sinks v k f) e
]
Step-get {v} name id (Step.level_set k l) e = e
Step-get {v} name id (Step.filter_added k f) e = e
Step-get {v} name id (Step.filters_cleared k) e = e

Step-IsRegistry : {v w : Loggers} → Step v w → IsRegistry v → IsRegistry w
unfolding set_log_level add_filter clear_filters
Step-IsRegistry {v} (Step.created key sinks) h = elim (lookup-cases (get key v)) [
  | inl free ↦ rw (new_created key sinks v free) (create-IsRegistry key sinks v h)
  | inr (k, f) ↦ rw (new_existing key sinks v k f) h
]
Step-IsRegistry {v} (Step.level_set k l) h = IsNamed-change v k _ v.registry refl h
Step-IsRegistry {v} (Step.filter_added k f) h = IsNamed-change v k _ v.registry refl h
Step-IsRegistry {v} (Step.filters_cleared k) h = IsNamed-change v k _ v.registry refl h

Steps-get :
    {v w : Loggers} (name : Text) (id : ℕ) → Steps v w → get name v ≡ some id → get name w ≡ some id
Steps-get name id Steps.done e = e
Steps-get name id (Steps.step s ss) e = Steps-get name id ss (Step-get name id s e)

pub Steps-IsRegistry : {v w : Loggers} → Steps v w → IsRegistry v → IsRegistry w
Steps-IsRegistry Steps.done h = h
Steps-IsRegistry (Steps.step s ss) h = Steps-IsRegistry ss (Step-IsRegistry s h)

named_of :
    (name : Text) (v : Loggers) (id : ℕ)
    → IsRegistry v
    → get name v ≡ some id
    → (v.store id).name ≡ name
unfolding IsNamed get
named_of name v id h e = (lookup_found (IsNamed v.store v.next) name v.registry id h e).1

-- In a registry whose entries lead to loggers of their names, a logger that `Logger::new` returns bears the name, `Logger::get` finds it, and whatever calls follow,
-- `Logger::new` of the same name, with any sinks, returns the same logger and changes nothing.
pub new-IsShared :
    (name : Text) (sinks sinks' : List ℕ) (w v : Loggers)
    → IsRegistry w
    → Steps (new name sinks w).1 v
    → (get name v ≡ some (new name sinks w).0)
      × (new name sinks' v ≡ ((new name sinks w).0, v))
      × ((v.store (new name sinks w).0).name ≡ name)
unfolding IsNamed
new-IsShared name sinks sinks' w v h ss =
    let e = Steps-get name (new name sinks w).0 ss (get_new name sinks w) in
    let h' = Steps-IsRegistry ss (Step-IsRegistry (Step.created {w = w} name sinks) h) in
    (
      e,
      new_existing name sinks' v (new name sinks w).0 e,
      named_of name v (new name sinks w).0 h' e,
    )

-- The level that is set is the level that is read, and the other loggers keep theirs.
pub level_of-set_log_level :
    (id : ℕ) (l : LogLevel) (w : Loggers)
    → (level_of ((set_log_level id l w).store id) ≡ l)
      × ((k : ℕ) → id ≢ k → (set_log_level id l w).store k ≡ w.store k)
unfolding set_log_level level_of
level_of-set_log_level id l w = (
  rw (update_self w.store id (record (w.store id) { log_level = as_usize l }))
      (rw (from_usize-as_usize l, level_of) refl),
  λ k ne. update_ne w.store id k _ ne,
)
