-- ===== src/Macros/Levels.antt =====
-- src/macros.rs: the macros of the levels, and the features that make them empty.
use rapidlog.Prelude.{
  ℕ, ◌≤◌, ◌<◌, ◌≡◌, refl, List, Bool, true, ◌||◌, not, Run, ok, if◌then◌else◌, arith, leb, le→leb,
  lt→leb_false, ◌⊎◌, inl, inr, le_or_lt,
}
use rapidlog.Level.{
  LogLevel, trace_l3, trace_l2, trace_l1, debug, info, warning, error, critical, as_usize,
}
use rapidlog.Queue.Ring.{RingBuffer}
use rapidlog.Threads.Defs.{ThreadContext, World}
use rapidlog.Macros.Defs.{Argument, CallSite, log_impl}

-- The features of the build.
pub record Features : Type 0 where
  pub max_level_debug : Bool
  pub max_level_info : Bool
  pub max_level_warning : Bool
  pub max_level_error : Bool

abbrev any_debug : Features → Bool
any_debug f = f.max_level_debug || (f.max_level_info || (f.max_level_warning || f.max_level_error))

abbrev any_info : Features → Bool
any_info f = f.max_level_info || (f.max_level_warning || f.max_level_error)

-- The `#[cfg]` of the macro of a level: whether it expands to `log_impl!`.
unfoldable pub is_compiled : Features → LogLevel → Bool
is_compiled f trace_l3 = not (any_debug f)
is_compiled f trace_l2 = not (any_debug f)
is_compiled f trace_l1 = not (any_debug f)
is_compiled f debug = not (any_info f)
is_compiled f info = not (f.max_level_warning || f.max_level_error)
is_compiled f warning = not f.max_level_error
is_compiled f error = true
is_compiled f critical = true

-- `log_debug!` and the others. An empty macro does not look at its arguments.
unfoldable pub log_macro :
    (r : RingBuffer)
    → Features
    → ℕ
    → ℕ
    → ℕ
    → LogLevel
    → List Argument
    → CallSite
    → ThreadContext
    → World r
    → Run (CallSite × ThreadContext × World r)
unfolding is_compiled log_impl
log_macro r f now meta_ptr logger_ptr logger_level args site ctx w =
    if is_compiled f site.level
    then log_impl r now meta_ptr logger_ptr logger_level args site ctx w
    else ok (site, ctx, w)

-- The lowest level that the features leave, as the README lists them.
unfoldable pub max_level : Features → ℕ
max_level f =
    if f.max_level_error
    then 6
    else if f.max_level_warning
    then 5
    else if f.max_level_info
    then 4
    else if f.max_level_debug
    then 3
    else 0

compiled_bools :
    (d i w e : Bool) (l : LogLevel)
    → let f : Features = record {
      max_level_debug = d;
      max_level_info = i;
      max_level_warning = w;
      max_level_error = e;
    } in
      is_compiled f l ≡ leb (max_level f) (as_usize l)
unfolding is_compiled max_level as_usize
compiled_bools d i w e trace_l3 = ground arith
compiled_bools d i w e trace_l2 = ground arith
compiled_bools d i w e trace_l1 = ground arith
compiled_bools d i w e debug = ground arith
compiled_bools d i w e info = ground arith
compiled_bools d i w e warning = ground arith
compiled_bools d i w e error = ground arith
compiled_bools d i w e critical = ground arith

-- The macro of a level expands to a call exactly when the level is at least the highest one that a
-- feature of the build sets, whatever other features are set.
pub is_compiled-leb :
    (f : Features) (l : LogLevel) → is_compiled f l ≡ leb (max_level f) (as_usize l)
is_compiled-leb f l =
    compiled_bools f.max_level_debug f.max_level_info f.max_level_warning f.max_level_error l

-- A log call does nothing, to its call site, its thread or any queue, if its level is below the one that
-- the build sets or below its logger's; else it is the call of `log_impl!`.
pub log_macro-cases :
    (r : RingBuffer) (f : Features) (now meta_ptr logger_ptr : ℕ) (logger_level : LogLevel)
    (args : List Argument) (site : CallSite) (ctx : ThreadContext) (w : World r)
    → let call = log_macro r f now meta_ptr logger_ptr logger_level args site ctx w in
      (((as_usize site.level < max_level f) ⊎ (as_usize site.level < as_usize logger_level))
        × (call ≡ ok (site, ctx, w)))
      ⊎ ((max_level f ≤ as_usize site.level)
          × (as_usize logger_level ≤ as_usize site.level)
          × (call ≡ log_impl r now meta_ptr logger_ptr logger_level args site ctx w))
unfolding log_macro log_impl
log_macro-cases r f now meta_ptr logger_ptr logger_level args site ctx w =
    let l = as_usize site.level in
    let e = is_compiled-leb f site.level in
    elim (le_or_lt (max_level f) l) [
      | inr low ↦ inl (inl low, rw (e, lt→leb_false (max_level f) l low) refl)
      | inl high ↦ elim (le_or_lt (as_usize logger_level) l) [
        | inr low ↦ inl (
          inr low,
          rw (e, le→leb (max_level f) l high, lt→leb_false (as_usize logger_level) l low) refl,
        )
        | inl enabled ↦ inr (high, enabled, rw (e, le→leb (max_level f) l high) refl)
      ]
    ]
