-- ===== src/Wfq/SlaFirst.antt =====
-- scheduler.py, class DDLWFQScheduler: the request with the least time left, and before it those
-- that are nearly late. The fields that the class inherits and never uses are left out.
-- `ratio` is the float division of two times, `tenth` the numbers 0.1 in the unit.
use tam_simulation.Prelude.{
  ℕ, zero, suc, ℤ, pos, ◌-ℤ◌, sub_ℕ, ltb_ℤ, Bool, true, false, Option, none, some, List, [], ◌∷◌,
  ◌++◌, ltb, ◌&&◌, if◌then◌else◌, ◌==◌, ◌+◌, pos_part, neg_part,
}
use tam_simulation.Result.{
  Result, ok, err, ◌>>=◌, zero_division_error, attribute_error, assertion_error,
}
use tam_simulation.Req.{Req, remove_req}
use tam_simulation.Scheduler.{Stored, Served}

pub record Sla : Type 0 where
  pub all_req_list : List Req
  pub notify_list : List ℕ

-- __init__
unfoldable pub init : Sla
init = record { all_req_list = []; notify_list = [] }

abbrev asserted : Option ℕ → Result ℕ
asserted none = err assertion_error
asserted (some n) = ok n

abbrev attribute : Option ℕ → Result ℕ
attribute none = err attribute_error
attribute (some n) = ok n

-- _do_put
unfoldable pub do_put : Req → Sla → Result (Stored Sla)
do_put req s = do
  _ ← asserted req.arrive_sys_time
  _ ← asserted req.latency_sla
  ok (record { state = record s { all_req_list = s.all_req_list ++ req ∷ [] }; stored = true })

-- A dictionary of request lists whose keys may be negative.
abbrev pub Groups : Type 0
Groups = List (ℤ × List Req)

abbrev same : ℤ → ℤ → Bool
same a b = pos_part a + neg_part b == pos_part b + neg_part a

-- The request joins the list of its key.
unfoldable pub join : ℤ → Req → Groups → Groups
join k req [] = (k, req ∷ []) ∷ []
join k req ((j, reqs) ∷ d) =
    let rest = join k req d in if same j k then (j, reqs ++ req ∷ []) ∷ d else (j, reqs) ∷ rest

abbrev smaller_group : ℤ × List Req → Option (ℤ × List Req) → ℤ × List Req
smaller_group group none = group
smaller_group (k, reqs) (some (j, others)) = if ltb_ℤ j k then (j, others) else (k, reqs)

-- `sorted(in_use_dict.keys())[0]`, with its list.
unfoldable pub least_group : Groups → Option (ℤ × List Req)
least_group [] = none
least_group (group ∷ d) = some (smaller_group group (least_group d))

-- `float(cur_rest_time) / cur_req.latency_sla`
abbrev percentage : (ℤ → ℕ → ℤ) → ℤ → ℕ → Result ℤ
percentage ratio rest zero = err zero_division_error
percentage ratio rest (suc sla) = ok (ratio rest (suc sla))

module _ (ratio : ℤ → ℕ → ℤ) (tenth now : ℕ) where
  -- One round of the loop over the requests: the nearly late ones, and the others.
  unfoldable pub classify : Req → Groups × Groups → Result (Groups × Groups)
  classify req (need_to_save, latency) = do
    arrived ← attribute req.arrive_sys_time
    sla ← attribute req.latency_sla
    let rest = pos sla -ℤ sub_ℕ now arrived
    p ← percentage ratio rest sla
    ok (
        if ltb sla tenth && ltb_ℤ p (pos tenth)
        then (join p req need_to_save, latency)
        else (need_to_save, join rest req latency))

  -- The loop
  unfoldable pub classify_all : List Req → Groups × Groups → Result (Groups × Groups)
  classify_all [] groups = ok groups
  classify_all (req ∷ reqs) groups = do groups' ← classify req groups; classify_all reqs groups'

abbrev in_use : Groups × Groups → Groups
in_use ([], latency) = latency
in_use (group ∷ need_to_save, latency) = group ∷ need_to_save

abbrev pub serve : Sla → Option (ℤ × List Req) → Served Sla
serve s none = record { state = s; req = none; notified = []; proceed = false }
serve s (some (k, [])) = record { state = s; req = none; notified = []; proceed = false }
serve s (some (k, req ∷ reqs)) = record {
  state = record s { all_req_list = remove_req req s.all_req_list };
  req = some req;
  notified = s.notify_list;
  proceed = false;
}

-- _do_get
unfoldable pub do_get : (ℤ → ℕ → ℤ) → ℕ → ℕ → Sla → Result (Served Sla)
do_get ratio tenth now s = do
  groups ← classify_all ratio tenth now s.all_req_list ([], [])
  ok (serve s (least_group (in_use groups)))
