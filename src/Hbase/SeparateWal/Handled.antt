-- ===== src/Hbase/SeparateWal/Handled.antt =====
-- hbase/hbase.py, SchedHandlerSepWALRegionServer: where the rpc handling is done, the log is on the
-- disks.
use mathlib.Core.Path.{subst}
use mathlib.Core.List.{append_assoc, append-nil}
use mathlib.Core.Option.{some-injective}
use tam_simulation.Prelude.{
  ℕ, suc, ◌+◌, ◌<◌, ◌≡◌, sym, ◌∙◌, ap, inl, inr, true, Option, none, some, List, [], ◌∷◌, ◌++◌,
  arith, ltb,
}
use tam_simulation.Result.{ok, ok-injective, assert, bind-eq-ok}
use tam_simulation.StageReq.{stage_req, blk_stage_req, no_reqs, req, Profiles, no_profiles, profile}
use tam_simulation.StageReq.Process.{
  Effect, process, submit_all, use_cost_list, block_if_any, process_profiles, finish,
}
use tam_simulation.StageReq.Timing.{Times, Use, Never, Silent, Run}
use tam_simulation.StageReq.Timing.Parts.{run-Parts, run-le, Silent-append}
use tam_simulation.StageReq.Timing.Requests.{run-Submitting, run-submit, run-finish}
use tam_simulation.Hdfs.{Made}
use tam_simulation.Hbase.{
  HbaseReq, RegionServer, Draws, Part, synced, append_req, receive_costs, write_req, dn_blocking,
  rpc_read_req, mem_update, nn_lookup,
}
use tam_simulation.Hbase.Durable.{Replicated, Replicated-inside, synced-Replicated}
use tam_simulation.Hbase.Replies.{profile-run}
use tam_simulation.Hbase.Sync.{run-dn_blocking, log_append-synced}
use tam_simulation.Hbase.ShortCircuit.{read_part}
use tam_simulation.Hbase.SeparateWal.{reply_profiles, handle_profiles, submit_req}

-- Where the rest of a handling is silent, so is what comes after it.
Silent-process_profiles :
    (at : Times) (stage client_id : ℕ) (w_id : Option ℕ) (ps : Profiles) (rest : List Effect)
    → Silent at (process_profiles stage client_id 0 w_id ps rest)
    → Silent at rest
Silent-process_profiles at stage client_id w_id no_profiles rest silent = silent
Silent-process_profiles at stage client_id w_id (profile costs reqs evts ps) rest silent =
    Silent-process_profiles at stage client_id w_id ps rest (
      Silent-append at
        (use_cost_list stage client_id 0 costs ++ submit_all reqs ++ block_if_any w_id evts) _
        silent)

module _ (rs : RegionServer) (r : HbaseReq) (fresh : ℕ) (draws : List ℕ) (w : Made)
    (nn dn mem : Part) (ident : ℕ) (large : 0 < rs.hdfs.replica) (some_data : 0 < r.log_append_size)
    (made : write_req rs r.client_id r.log_append_size (fresh + 2) draws ≡ ok (some w)) where
  abbrev ending : List Effect
  ending = finish ident no_reqs

  abbrev log_part : Part
  log_part = synced rs r r.client_id fresh w

  reply-Replicated :
      {at : Times} {now by : ℕ} {end : Option ℕ} {log : List Use} (w_id : Option ℕ)
      → Run at now
          (process_profiles rs.rpc_handle_stage r.client_id 0 w_id
            (reply_profiles rs r log_part mem)
            ending)
          end
          log
      → at ident ≡ some by
      → Replicated rs by r.log_append_size log
  reply-Replicated {at} {log = log} w_id run done =
      let costs = receive_costs rs r in
      let sends : List (List (ℕ × ℕ)) =
        ((rs.phy_node.cpu_res, rs.times.send_reply_cpu_time)
          ∷ (rs.phy_node.net_res, r.reply_size)
          ∷ [])
        ∷ [] in
      let append = append_req rs r (suc fresh) (
        req w.made (
          req (stage_req fresh rs.log_sync_stage r.client_id 0 [] (w.done_evt ∷ []) no_reqs no_reqs)
            no_reqs)) in
      let logged =
        use_cost_list rs.rpc_handle_stage r.client_id 0 costs
        ++ submit_all log_part.reqs
        ++ block_if_any w_id log_part.evts in
      let updated =
        use_cost_list rs.rpc_handle_stage r.client_id 0 sends ++ submit_all mem.reqs ++ [] in
      let last = profile sends mem.reqs [] no_profiles in
      elim (run-Parts logged (process_profiles rs.rpc_handle_stage r.client_id 0 w_id last ending)
        run) [
          | inl (_, silent) ↦
              let (never, _) =
                Silent-process_profiles at rs.rpc_handle_stage r.client_id w_id last ending
                  silent in
              absurd (cc)
          | inr p ↦ elim (run-Parts updated ending p.second) [
            | inl (_, (never, _)) ↦ absurd (cc)
            | inr q ↦
                let (((synced_at, synced_evt, le), _), inside) =
                  profile-run rs.rpc_handle_stage r.client_id w_id costs append (fresh ∷ [])
                    p.first in
                Replicated-inside rs synced_at _ r.log_append_size inside.before inside.own
                  (inside.after ++ p.after) log
                  (omega (arith, le, run-le q.first, run-finish no_reqs q.second done))
                  (p.whole
                    ∙ ap (λ l. l ++ p.after) inside.whole
                    ∙ append_assoc inside.before (inside.own ++ inside.after) p.after
                    ∙ ap (λ l. inside.before ++ l) (append_assoc inside.own inside.after p.after))
                  (synced-Replicated rs r r.client_id fresh draws w large some_data made inside.w_id
                    inside.run synced_evt)
          ]
        ]

  handle-Replicated :
      {at : Times} {now by : ℕ} {end : Option ℕ} {log : List Use} (w_id : Option ℕ)
      → Run at now
          (process_profiles rs.rpc_handle_stage r.client_id 0 w_id
            (handle_profiles rs r nn dn log_part mem)
            ending)
          end
          log
      → at ident ≡ some by
      → Replicated rs by r.log_append_size log
  handle-Replicated {at} {log = log} w_id run done =
      let replies = reply_profiles rs r log_part mem in
      let first =
        use_cost_list rs.rpc_handle_stage r.client_id 0
          (((rs.phy_node.cpu_res, r.rpc_time) ∷ []) ∷ [])
        ++ submit_all nn.reqs
        ++ block_if_any w_id nn.evts in
      elim (run-Parts first
        (process_profiles rs.rpc_handle_stage r.client_id 0 w_id (dn_blocking dn replies) ending)
        run) [
          | inl (_, silent) ↦
              let (never, _) =
                Silent-process_profiles at rs.rpc_handle_stage r.client_id w_id
                  (dn_blocking dn replies) ending silent in
              absurd (cc)
          | inr p ↦
              elim (run-dn_blocking rs.rpc_handle_stage r.client_id w_id replies ending dn.evts
                dn.next dn.reqs p.second) [
                  | inl silent ↦
                      let (never, _) =
                        Silent-process_profiles at rs.rpc_handle_stage r.client_id w_id replies
                          ending silent in
                      absurd (cc)
                  | inr q ↦
                      Replicated-inside rs _ _ r.log_append_size (p.before ++ q.before) q.after []
                        log (omega arith)
                        (p.whole
                          ∙ ap (λ l. p.before ++ l)
                              (q.whole ∙ ap (λ l. q.before ++ l) (sym (append-nil q.after)))
                          ∙ sym (append_assoc p.before q.before (q.after ++ [])))
                        (reply-Replicated w_id q.run done)
                ]
        ]

  rpc_read_req-Replicated :
      {at : Times} {now by : ℕ} {end : Option ℕ} {log : List Use} (w_id : Option ℕ)
      → Run at now
          (process w_id none none (
            rpc_read_req rs r (suc ident) (
              blk_stage_req ident rs.rpc_handle_stage r.client_id 0
                (handle_profiles rs r nn dn log_part mem)
                no_reqs)))
          end
          log
      → at ident ≡ some by
      → Replicated rs by r.log_append_size log
  unfolding Never process
  rpc_read_req-Replicated {at} {log = log} w_id run done =
      let handle =
        blk_stage_req ident rs.rpc_handle_stage r.client_id 0
          (handle_profiles rs r nn dn log_part mem) no_reqs in
      elim (run-Submitting w_id (suc ident) rs.rpc_read_stage r.client_id 0 _ []
        (req handle no_reqs) no_reqs run) [
          | inl ((never, _, _), _) ↦ absurd (cc)
          | inr s ↦ elim (run-submit s.run) [
            | inl (_, (never, _, _), _) ↦ absurd (cc)
            | inr t ↦
                Replicated-inside rs _ _ r.log_append_size s.before t.sub_log t.rest_log log
                  (omega arith) (s.whole ∙ ap (λ l. s.before ++ l) t.whole)
                  (handle-Replicated t.w_id t.sub done)
          ]
        ]

-- SchedHandlerSepWALRegionServer: where a request whose log is to be synchronized is completed, its
-- log has been written to the disks of `replica` different nodes, whatever was drawn and however the
-- stages are scheduled.
pub separate_wal-durable :
    (rs : RegionServer) (r : HbaseReq) (fresh : ℕ) (draws : Draws) (m : Made)
    → 0 < rs.hdfs.replica
    → r.log_sync ≡ true
    → 0 < r.log_append_size
    → submit_req rs r fresh draws ≡ ok (some m)
    → {at : Times} {now by : ℕ} {end : Option ℕ} {log : List Use} (w_id : Option ℕ)
    → Run at now (process w_id none none m.made) end log
    → at m.done_evt ≡ some by
    → Replicated rs by r.log_append_size log
unfolding submit_req
separate_wal-durable rs r fresh draws m large sync some_data e {at} {now} {by} {end} {log} w_id run
      done =
    let nn = nn_lookup rs r fresh in
    let (dn, _, e1) = bind-eq-ok (read_part rs r nn.next draws.read) _ e in
    let (w, made, e2) =
      log_append-synced rs r r.client_id dn.next draws.write _ m sync some_data e1 in
    let mem = mem_update rs r w.fresh in
    let (_, _, e3) = bind-eq-ok (assert (ltb 0 r.rpc_size)) _ e2 in
    let same = some-injective _ m (ok-injective e3) in
    rpc_read_req-Replicated rs r dn.next draws.write w nn dn mem mem.next large some_data made w_id
      (subst (λ x. Run at now (process w_id none none x.made) end log) (sym same) run)
      (subst (λ x. at x.done_evt ≡ some by) (sym same) done)
