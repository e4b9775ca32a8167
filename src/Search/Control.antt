-- ===== src/Search/Control.antt =====
-- crates/ketebe-storage/src/query_control.rs. Other threads set the flag, and time passes: what a
-- check of the control reads is a moment, and an execution has one moment for each of its checks.
use ketebe_oss.Base.{ℕ, ◌+◌, Bool, Option, none, some, leb, if◌then◌else◌}
use ketebe_oss.Base.Result.{Result, ok, err}

pub data QueryControlError : Type 0 where
  cancelled deadline_exceeded : QueryControlError

pub record QueryControl : Type 0 where
  pub deadline : Option ℕ

pub record Moment : Type 0 where
  pub is_cancelled : Bool
  pub now : ℕ

abbrev pub unbounded : QueryControl
unbounded = record { deadline = none }

-- `Instant::checked_add`, for a clock that counts up to `last_instant`.
unfoldable pub with_timeout : ℕ → ℕ → ℕ → QueryControl
with_timeout last_instant now timeout = record {
  deadline = if leb (now + timeout) last_instant then some (now + timeout) else none;
}

unfoldable pub check : QueryControl → Moment → Result QueryControlError (Unit {0})
check control moment = if moment.is_cancelled then err cancelled else elim control.deadline [
  | none ↦ ok tt
  | some deadline ↦ if leb deadline moment.now then err deadline_exceeded else ok tt
]
