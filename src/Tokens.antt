-- ===== src/Tokens.antt =====
-- cassandra/cassandra.py, the allocation of tokens: which physical node each virtual node of the
-- ring is assigned to. A node is its index. The lists that the node objects keep besides, which hold
-- the same, are left out.
pub mod Choosing
pub mod Neighbours
pub mod Inverse
use tam_simulation.Prelude.{
  ℕ, zero, suc, ◌+◌, ◌-◌, ◌%◌, Bool, true, false, not, Option, none, some, List, [], ◌∷◌, ◌++◌,
  length, contains, get_elem?, ltb, ◌==◌, if◌then◌else◌,
}
use tam_simulation.Result.{Result, ok, err, index_error, zero_division_error, ◌>>=◌, ◌>>◌, assert}
use tam_simulation.Dict.{Dict, lookup, lookup_or, insert, has_key}

-- TokenAllocationStrategy: vn_pn_idx_map and pn_vn_idx_map.
pub record Assigned : Type 0 where
  pub vn_pn_idx_map : Dict ℕ
  pub pn_vn_idx_map : Dict (List ℕ)

abbrev pub nothing_assigned : Assigned
nothing_assigned = record { vn_pn_idx_map = []; pn_vn_idx_map = [] }

-- _get_pre_vn_id and _get_suf_vn_id
unfoldable pub get_pre_vn_id : (vn_sum vn_id : ℕ) → ℕ
get_pre_vn_id vn_sum vn_id = (vn_id + vn_sum - 1) % vn_sum

unfoldable pub get_suf_vn_id : (vn_sum vn_id : ℕ) → ℕ
get_suf_vn_id vn_sum vn_id = (vn_id + 1 + vn_sum) % vn_sum

-- _update_assign_map: one token should be assigned once.
unfoldable pub update_assign_map : (vn pn : ℕ) → Assigned → Result Assigned
update_assign_map vn pn s = do
  assert (not (has_key vn s.vn_pn_idx_map))
  ok (record {
    vn_pn_idx_map = insert vn pn s.vn_pn_idx_map;
    pn_vn_idx_map = insert pn (lookup_or [] pn s.pn_vn_idx_map ++ vn ∷ []) s.pn_vn_idx_map;
  })

-- InOrderTokenAllocationStrategy.assign_vn_to_pn, from the virtual node `i` on.
unfoldable pub in_order : (pn_sum i : ℕ) (left : ℕ) → Assigned → Result Assigned
in_order pn_sum i zero s = ok s
in_order pn_sum i (suc left) s =
    if pn_sum == 0
    then err zero_division_error
    else (update_assign_map i (i % pn_sum) s >>= λ t. in_order pn_sum (suc i) left t)

-- RandomTokenAllocationStrategy.assign_vn_to_pn, for a shuffled list of virtual nodes.
unfoldable pub random_tokens :
    (pn_sum pn_list_idx : ℕ) (shuffled : List ℕ) → Assigned → Result Assigned
random_tokens pn_sum pn_list_idx [] s = ok s
random_tokens pn_sum pn_list_idx (vn ∷ vns) s =
    if ltb pn_list_idx pn_sum
    then (update_assign_map vn pn_list_idx s >>= λ t.
        random_tokens pn_sum ((pn_list_idx + 1) % pn_sum) vns t)
    else err index_error

abbrev pub known : ℕ → Dict ℕ → List ℕ
known vn m = elim (lookup vn m) [ none ↦ [] | some pn ↦ pn ∷ [] ]

-- avoid_pn_id_list
abbrev pub avoid_pn_ids : (vn_sum vn : ℕ) → Assigned → List ℕ
avoid_pn_ids vn_sum vn s =
    known (get_pre_vn_id vn_sum vn) s.vn_pn_idx_map
    ++ known (get_suf_vn_id vn_sum vn) s.vn_pn_idx_map

-- remain_pn_id_list: those of `left` nodes from `pn` on that are not to be avoided.
abbrev pub remain_pn_ids : (pn left : ℕ) → List ℕ → List ℕ
remain_pn_ids pn zero avoid = []
remain_pn_ids pn (suc left) avoid =
    let rest = remain_pn_ids (suc pn) left avoid in if contains pn avoid then rest else pn ∷ rest

-- random.choice, which raises an IndexError for an empty list; `draw` stands for its random number.
abbrev pub element : (xs : List ℕ) (x : ℕ) → ℕ → ℕ
element xs x zero = x
element [] x (suc i) = x
element (y ∷ xs) x (suc i) = element xs y i

abbrev pub choice : ℕ → List ℕ → Result ℕ
choice draw [] = err index_error
choice draw (x ∷ xs) = ok (element xs x (draw % suc (length xs)))

-- RandomFaultToleranceTokenAllocationStrategy.assign_vn_to_pn, from the virtual node `vn` on, with a
-- draw for each.
unfoldable pub random_ft : (vn_sum pn_sum vn : ℕ) (draws : List ℕ) → Assigned → Result Assigned
random_ft vn_sum pn_sum vn [] s = ok s
random_ft vn_sum pn_sum vn (draw ∷ draws) s =
    choice draw (remain_pn_ids 0 pn_sum (avoid_pn_ids vn_sum vn s)) >>= λ pn.
    update_assign_map vn pn s >>= λ t. random_ft vn_sum pn_sum (suc vn) draws t

-- Cassandra.compute_vn_id_list, from `i` on.
unfoldable pub compute_vn_id_list : (total_token_sum start_vn_id i access_sum : ℕ) → List ℕ
compute_vn_id_list total_token_sum start_vn_id i zero = []
compute_vn_id_list total_token_sum start_vn_id i (suc left) =
    (start_vn_id + i) % total_token_sum
    ∷ compute_vn_id_list total_token_sum start_vn_id (suc i) left

-- token_allocation_strategy_objs, each with what it draws: the shuffled tokens, or a draw for each.
pub data Strategy : Type 0 where
  random : (shuffled : List ℕ) → Strategy
  in_order_tokens : Strategy
  random_fault_tolerant : (draws : List ℕ) → Strategy

-- create_token_allocation_strategy, and assign_vn_to_pn of what it creates.
unfoldable pub assign_vn_to_pn : Strategy → (vn_sum pn_sum : ℕ) → Result Assigned
assign_vn_to_pn (random shuffled) vn_sum pn_sum = random_tokens pn_sum 0 shuffled nothing_assigned
assign_vn_to_pn in_order_tokens vn_sum pn_sum = in_order pn_sum 0 vn_sum nothing_assigned
assign_vn_to_pn (random_fault_tolerant draws) vn_sum pn_sum =
    random_ft vn_sum pn_sum 0 draws nothing_assigned
