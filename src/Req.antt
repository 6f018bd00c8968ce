-- ===== src/Req.antt =====
-- A request as the schedulers see it: stage_req.py's StageReq and seda_resource.py's ResReq, with
-- the attributes that schedulers read or write. An attribute that the code tests by `hasattr` is an
-- option. Objects are compared by identity, which is `ident`.
use tam_simulation.Prelude.{
  ℕ, ◌+◌, ℤ, Bool, Option, none, List, [], ◌∷◌, ◌==◌, pos, false, if◌then◌else◌,
}

pub record Req : Type 0 where
  pub ident : ℕ
  pub client_id : ℕ
  pub priority : ℕ
  pub stage : ℕ
  pub cost : ℕ
  pub real_cost : ℕ
  pub cost_vector : List ℕ
  pub vir_finish : ℤ
  pub enter_time : Option ℕ
  pub put_back : Bool
  pub exec_time : Option ℕ
  pub deadline : Option ℕ
  pub arrive_sys_time : Option ℕ
  pub latency_sla : Option ℕ
  pub latency_slo : Option ℕ
  pub cur_avg_ltc : Option ℕ

-- A request with nothing but its identity and its client, for tests.
abbrev pub plain : ℕ → ℕ → Req
plain i c = record {
  ident = i;
  client_id = c;
  priority = 0;
  stage = 0;
  cost = 1;
  real_cost = 1;
  cost_vector = [];
  vir_finish = pos 0;
  enter_time = none;
  put_back = false;
  exec_time = none;
  deadline = none;
  arrive_sys_time = none;
  latency_sla = none;
  latency_slo = none;
  cur_avg_ltc = none;
}

-- `requests.remove(r)` drops the first request that is `r`.
abbrev pub remove_req : Req → List Req → List Req
remove_req r [] = []
remove_req r (x ∷ xs) = let rest = x ∷ remove_req r xs in if x.ident == r.ident then xs else rest

abbrev pub count_client : ℕ → List Req → ℕ
count_client c [] = 0
count_client c (x ∷ xs) = if x.client_id == c then count_client c xs + 1 else count_client c xs
