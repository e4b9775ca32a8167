-- ===== src/Scheduler/Budget.antt =====
-- The kinds of work, what they ask for, and the budget.
use ketebe_oss.Base.{ℕ, ◌-◌, String, ◌||◌, leb, ◌==◌, if◌then◌else◌}
use ketebe_oss.Base.Result.{Result, ok, err}

pub data WorkPriority : Type 0 where
  high normal low : WorkPriority

pub data WorkKind : Type 0 where
  embedding lexical_build compaction migration job : WorkKind

unfoldable pub priority : WorkKind → WorkPriority
priority embedding = high
priority lexical_build = normal
priority migration = normal
priority compaction = low
priority job = low

pub record ResourceRequest : Type 0 where
  pub cpu : ℕ
  pub memory : ℕ
  pub io : ℕ

abbrev pub new_request : ℕ → ℕ → ℕ → ResourceRequest
new_request cpu memory io = record { cpu = cpu; memory = memory; io = io }

unfoldable pub resources : WorkKind → ResourceRequest
resources embedding = new_request 1 2 0
resources lexical_build = new_request 2 2 2
resources compaction = new_request 2 2 2
resources migration = new_request 2 2 1
resources job = new_request 1 1 1

pub record ResourceBudget : Type 0 where
  pub cpu : ℕ
  pub memory : ℕ
  pub io : ℕ
  pub foreground_cpu_reserve : ℕ
  pub foreground_memory_reserve : ℕ
  pub foreground_io_reserve : ℕ
  pub max_background_tasks : ℕ

abbrev pub default_budget : ResourceBudget
default_budget = record {
  cpu = 8;
  memory = 8;
  io = 8;
  foreground_cpu_reserve = 2;
  foreground_memory_reserve = 2;
  foreground_io_reserve = 2;
  max_background_tasks = 4;
}

pub data ResourceSchedulerError : Type 0 where
  invalid_budget : String → ResourceSchedulerError
  request_exceeds_budget : WorkKind → ResourceRequest → ResourceSchedulerError
  overloaded : WorkKind → ResourceSchedulerError
  closed : ResourceSchedulerError

unfoldable pub validate : ResourceBudget → Result ResourceSchedulerError ResourceBudget
validate b =
    if b.cpu == 0 || b.memory == 0 || b.io == 0 || b.max_background_tasks == 0
    then err (invalid_budget "resource totals and max_background_tasks must be greater than zero")
    else if leb b.cpu b.foreground_cpu_reserve
        || leb b.memory b.foreground_memory_reserve
        || leb b.io b.foreground_io_reserve
    then err (invalid_budget "foreground reserves must leave at least one background resource unit")
    else ok b

-- `const fn` methods on a budget that `validate` has let through.
abbrev pub background_cpu : ResourceBudget → ℕ
background_cpu b = b.cpu - b.foreground_cpu_reserve

abbrev pub background_memory : ResourceBudget → ℕ
background_memory b = b.memory - b.foreground_memory_reserve

abbrev pub background_io : ResourceBudget → ℕ
background_io b = b.io - b.foreground_io_reserve
