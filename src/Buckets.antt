-- ===== src/Buckets.antt =====
-- The dictionaries of request lists of scheduler.py, keyed by a time: `complete_time_req_list_dict`
-- of EFFScheduler and `deadline_req_list_dict` of EDFScheduler, whose code is the same.
pub mod Least
use tam_simulation.Prelude.{ℕ, Bool, Option, none, some, List, [], ◌∷◌, ◌++◌, ltb, if◌then◌else◌}
use tam_simulation.Dict.{Dict, lookup, lookup_or, insert, remove, keys}
use tam_simulation.Req.{Req, remove_req}

-- The request joins the list of its time.
unfoldable pub store : ℕ → Req → Dict (List Req) → Dict (List Req)
store time req d = insert time (lookup_or [] time d ++ req ∷ []) d

abbrev least_of : ℕ → Option ℕ → ℕ
least_of k none = k
least_of k (some j) = if ltb j k then j else k

-- `sorted(d.keys())[0]`
unfoldable pub least : List ℕ → Option ℕ
least [] = none
least (k ∷ ks) = some (least_of k (least ks))

-- The dictionary without the first request of the list of a time; an empty list is deleted.
abbrev pub drop_first : ℕ → Req → List Req → Dict (List Req) → Dict (List Req)
drop_first time req [] d = remove time d
drop_first time req (next ∷ rest) d = insert time (remove_req req (req ∷ next ∷ rest)) d

abbrev first_at : ℕ → List Req → Dict (List Req) → Option (Req × Dict (List Req))
first_at time [] d = none
first_at time (req ∷ rest) d = some (req, drop_first time req rest d)

abbrev first_of : Option ℕ → Dict (List Req) → Option (Req × Dict (List Req))
first_of none d = none
first_of (some time) d = first_at time (lookup_or [] time d) d

-- The first request of the least time, and the dictionary without it. The code takes item 0 of a
-- list that it keeps from being empty.
unfoldable pub take_least : Dict (List Req) → Option (Req × Dict (List Req))
take_least d = first_of (least (keys d)) d
