-- ===== src/Config/Classes.antt =====
-- scheduler.py, the classes of schedulers, which one derives from which, and the functions
-- is_unified_scheduler, is_priority_scheduler, is_after_scheduler and is_feedback_scheduler.
use tam_simulation.Prelude.{ℕ, zero, suc, Bool, false, ◌||◌, ◌==◌, Option, none, some}

pub data Class : Type 0 where
  fifo priority limit_in_flight_fifo wfq feedback_wfq limit_in_flight_wfq priority_wfq : Class
  ltc_aware_wfq ddl_wfq priority_no_starve_wfq unified_wfq tb refund_tb priority_tb : Class
  drf priority_drf priority_no_starve_drf after_drf after_priority_feedback_drf : Class
  periodic_drf priority_periodic_no_starve_drf after_periodic_drf eff edf : Class

-- The scheduler class that a class names as its base.
unfoldable pub base : Class → Option Class
base priority = some fifo
base limit_in_flight_fifo = some fifo
base feedback_wfq = some wfq
base limit_in_flight_wfq = some wfq
base priority_wfq = some wfq
base ltc_aware_wfq = some wfq
base ddl_wfq = some wfq
base priority_no_starve_wfq = some priority_wfq
base refund_tb = some tb
base priority_tb = some tb
base priority_drf = some drf
base priority_no_starve_drf = some priority_drf
base after_drf = some drf
base after_priority_feedback_drf = some after_drf
base periodic_drf = some drf
base priority_periodic_no_starve_drf = some priority_no_starve_drf
base after_periodic_drf = some periodic_drf
base fifo = none
base wfq = none
base unified_wfq = none
base tb = none
base drf = none
base eff = none
base edf = none

-- A number for each class, to compare them by.
abbrev number : Class → ℕ
number fifo = 0
number priority = 1
number limit_in_flight_fifo = 2
number wfq = 3
number feedback_wfq = 4
number limit_in_flight_wfq = 5
number priority_wfq = 6
number ltc_aware_wfq = 7
number ddl_wfq = 8
number priority_no_starve_wfq = 9
number unified_wfq = 10
number tb = 11
number refund_tb = 12
number priority_tb = 13
number drf = 14
number priority_drf = 15
number priority_no_starve_drf = 16
number after_drf = 17
number after_priority_feedback_drf = 18
number periodic_drf = 19
number priority_periodic_no_starve_drf = 20
number after_periodic_drf = 21
number eff = 22
number edf = 23

-- isinstance, along at most `fuel` steps to a base.
abbrev pub derives : ℕ → Option Class → Class → Bool
derives zero c d = false
derives (suc fuel) none d = false
derives (suc fuel) (some c) d = number c == number d || derives fuel (base c) d

-- No chain of bases is longer than four classes.
unfoldable pub is_instance : Class → Class → Bool
unfolding base
is_instance c d = derives 5 (some c) d

unfoldable pub is_unified_scheduler : Class → Bool
is_unified_scheduler c = is_instance c unified_wfq

unfoldable pub is_priority_scheduler : Class → Bool
is_priority_scheduler c =
    is_instance c priority_wfq
    || is_instance c priority_drf
    || is_instance c after_priority_feedback_drf
    || is_instance c priority_tb

unfoldable pub is_after_scheduler : Class → Bool
is_after_scheduler c =
    is_instance c after_drf
    || is_instance c after_periodic_drf
    || is_instance c after_priority_feedback_drf

unfoldable pub is_feedback_scheduler : Class → Bool
is_feedback_scheduler c = is_instance c feedback_wfq || is_instance c after_priority_feedback_drf
