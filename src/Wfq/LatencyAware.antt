-- ===== src/Wfq/LatencyAware.antt =====
-- scheduler.py, class LtcAwareWFQScheduler: the weight of one client follows its latency.
-- Percentages are in the unit `one`. `ratio` and `divide` are float divisions.
use tam_simulation.Prelude.{
  ℕ, zero, suc, ◌+◌, ◌-◌, ◌*◌, ℤ, Bool, Option, none, some, [], ◌∷◌, ltb, leb, ◌||◌, ◌&&◌,
  if◌then◌else◌, ◌==◌, length,
}
use tam_simulation.Result.{
  Result, ok, err, ◌>>=◌, ◌>>◌, assert, require, zero_division_error, assertion_error,
}
use tam_simulation.Dict.{Dict, lookup, insert}
use tam_simulation.Req.{Req}
use tam_simulation.Scheduler.{Stored}
use tam_simulation.Wfq
use tam_simulation.Wfq.{Wfq, set_weight}

pub record LatencyWfq : Type 0 where
  pub queue : Wfq
  pub increase_pct_thr : ℕ
  pub decrease_pct_thr : ℕ
  pub slo_client_id : ℕ
  pub last_avg_ltc_dict : Dict ℕ
  pub ltc_slo_dict : Dict ℕ

-- __init__
unfoldable pub init : ℕ → ℕ → ℕ → ℕ → ℕ → Result LatencyWfq
init one now increase decrease slo_client_id =
    assert (ltb 0 decrease && leb decrease one)
    >> assert (leb one increase)
    >> ok (record {
      queue = Wfq.init one now;
      increase_pct_thr = increase;
      decrease_pct_thr = decrease;
      slo_client_id = slo_client_id;
      last_avg_ltc_dict = [];
      ltc_slo_dict = [];
    })

abbrev asserted : Option ℕ → Result ℕ
asserted none = err assertion_error
asserted (some n) = ok n

-- _do_put
unfoldable pub do_put : ℕ → (ℤ → ℕ → ℤ) → ℕ → Req → LatencyWfq → Result (Stored LatencyWfq)
do_put one quot now req s = do
  slo ← asserted req.latency_slo
  ltc ← asserted req.cur_avg_ltc
  let latencies = insert req.client_id ltc s.last_avg_ltc_dict
  assert (leb (length latencies) 2)
  r ← Wfq.do_put one quot now req s.queue
  ok (record {
    state = record s {
      queue = r.state;
      last_avg_ltc_dict = latencies;
      ltc_slo_dict = insert req.client_id slo s.ltc_slo_dict;
    };
    stored = r.stored;
  })

-- `sum([v * self.last_avg_ltc_dict[k] for k, v in self.weights.items()])`
unfoldable pub weights_by_latency : Dict ℕ → Dict ℕ → Result ℕ
weights_by_latency [] latencies = ok 0
weights_by_latency ((k, v) ∷ weights) latencies = do
  ltc ← require (lookup k latencies)
  rest ← weights_by_latency weights latencies
  ok (v * ltc + rest)

abbrev float_div : (ℕ → ℕ → ℕ) → ℕ → ℕ → Result ℕ
float_div divide a zero = err zero_division_error
float_div divide a (suc b) = ok (divide a (suc b))

-- `if my_new_weight > 50: my_new_weight = 50`
abbrev at_most : ℕ → ℕ → ℕ
at_most bound w = if ltb bound w then bound else w

module _ (one : ℕ) (ratio divide : ℕ → ℕ → ℕ) where
  -- The new weight: the other clients' weights times latencies, over the aim of this client. The
  -- own product is one of those summed, so the difference is not negative. The quotient of two
  -- numbers is never NaN, so the test for it is left out.
  abbrev reweigh : ℕ → ℕ → LatencyWfq → Result LatencyWfq
  reweigh ltc slo s = do
    old ← require (lookup s.slo_client_id s.queue.weights)
    sum ← weights_by_latency s.queue.weights s.last_avg_ltc_dict
    if sum - old * ltc == 0 then ok s else (do
      w ← float_div divide (sum - old * ltc) slo
      q ← set_weight s.slo_client_id (at_most (50 * one) w) s.queue
      ok (record s { queue = q }))

  abbrev out_of_range : ℕ → LatencyWfq → Bool
  out_of_range pct s = ltb s.increase_pct_thr pct || ltb pct s.decrease_pct_thr

  -- One round of weight_adjuster_run, for the client's latency.
  abbrev adjust_for : Option ℕ → LatencyWfq → Result LatencyWfq
  adjust_for none s = ok s
  adjust_for (some ltc) s = do
    slo ← require (lookup s.slo_client_id s.ltc_slo_dict)
    pct ← float_div ratio ltc slo
    if out_of_range pct s then reweigh ltc slo s else ok s

  -- One round of weight_adjuster_run, which nothing starts.
  unfoldable pub adjust_weight : LatencyWfq → Result LatencyWfq
  adjust_weight s = adjust_for (lookup s.slo_client_id s.last_avg_ltc_dict) s
