-- ===== src/Level.antt =====
-- src/level.rs: the severity levels and their numbers.
mod Runs
pub mod Names
use rapidlog.Prelude.{
  ℕ, zero, suc, Option, none, some, Bool, leb, ◌≡◌, refl, ◌↔◌, subst, sym, arith, Text, ascii,
}

-- `enum LogLevel`, in the order of the discriminants.
pub data LogLevel : Type 0 where
  trace_l3 trace_l2 trace_l1 debug info warning error critical : LogLevel

-- `LogLevel::as_usize`.
unfoldable pub as_usize : LogLevel → ℕ
as_usize trace_l3 = 0
as_usize trace_l2 = 1
as_usize trace_l1 = 2
as_usize debug = 3
as_usize info = 4
as_usize warning = 5
as_usize error = 6
as_usize critical = 7

-- `LogLevel::from_usize`.
unfoldable pub from_usize : ℕ → Option LogLevel
from_usize zero = some trace_l3
from_usize (suc zero) = some trace_l2
from_usize (suc (suc zero)) = some trace_l1
from_usize (suc (suc (suc zero))) = some debug
from_usize (suc (suc (suc (suc zero)))) = some info
from_usize (suc (suc (suc (suc (suc zero))))) = some warning
from_usize (suc (suc (suc (suc (suc (suc zero)))))) = some error
from_usize (suc (suc (suc (suc (suc (suc (suc zero))))))) = some critical
from_usize (suc (suc (suc (suc (suc (suc (suc (suc n)))))))) = none

-- The derived `Ord`: `a <= b`.
unfoldable pub le_level : LogLevel → LogLevel → Bool
unfolding as_usize
le_level a b = leb (as_usize a) (as_usize b)

-- The derived `Debug`.
unfoldable pub debug_name : LogLevel → Text
debug_name trace_l3 = ascii "TraceL3"
debug_name trace_l2 = ascii "TraceL2"
debug_name trace_l1 = ascii "TraceL1"
debug_name debug = ascii "Debug"
debug_name info = ascii "Info"
debug_name warning = ascii "Warning"
debug_name error = ascii "Error"
debug_name critical = ascii "Critical"

pub from_usize-as_usize : (l : LogLevel) → from_usize (as_usize l) ≡ some l
unfolding from_usize as_usize
from_usize-as_usize trace_l3 = refl
from_usize-as_usize _ = refl

as_usize_of_from_usize : (n : ℕ) (l : LogLevel) → from_usize n ≡ some l → n ≡ as_usize l
unfolding from_usize as_usize
as_usize_of_from_usize (suc (suc (suc (suc (suc (suc (suc (suc n)))))))) l h = cc
as_usize_of_from_usize _ l h = ground arith

-- A number reads back as a level exactly when it is that level's number.
pub from_usize-eq-some_iff : (n : ℕ) (l : LogLevel) → (from_usize n ≡ some l) ↔ (n ≡ as_usize l)
from_usize-eq-some_iff n l = (
  as_usize_of_from_usize n l,
  λ e. subst (λ k. from_usize k ≡ some l) (sym e) (from_usize-as_usize l),
)
