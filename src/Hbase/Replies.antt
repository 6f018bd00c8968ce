-- ===== src/Hbase/Replies.antt =====
-- hbase/hbase.py: a reply of the region servers that handle rpcs by a BlkStageReq.
use mathlib.Core.List.{append_assoc}
use tam_simulation.Prelude.{
  ℕ, suc, ◌+◌, ◌<◌, ◌≡◌, ◌∙◌, ap, inl, inr, Option, none, some, List, [], ◌∷◌, ◌++◌, arith,
}
use tam_simulation.Result.{ok}
use tam_simulation.StageReq.{StageReq, stage_req, no_reqs, req, no_profiles, profile}
use tam_simulation.StageReq.Process.{
  Effect, submit_all, use_cost_list, block_if_any, process_profiles,
}
use tam_simulation.StageReq.Timing.{Times, Use, Never, NeverProfiles, Silent, Run}
use tam_simulation.StageReq.Timing.Parts.{AllBy, run-Parts, run-le, Silent-append}
use tam_simulation.StageReq.Timing.Requests.{
  run-through, run-done, run-submit, run-Submitted, run-block_if_any,
}
use tam_simulation.Hdfs.{Made}
use tam_simulation.Hbase.{
  HbaseReq, RegionServer, Part, synced, respond_req, receive_costs, write_req, append_req,
}
use tam_simulation.Hbase.Durable.{Inside, Replicated, Replicated-inside, synced-Replicated}
use tam_simulation.Hbase.Original.{reply_profiles}

whole-three :
    {log before y : List Use} (x own rest after : List Use)
    → log ≡ before ++ after
    → before ≡ x ++ y
    → y ≡ own ++ rest
    → log ≡ x ++ (own ++ (rest ++ after))
whole-three x own rest after e e' e'' =
    e
    ∙ ap (λ l. l ++ after) (e' ∙ ap (λ l. x ++ l) e'')
    ∙ append_assoc x (own ++ rest) after
    ∙ ap (λ l. x ++ l) (append_assoc own rest after)

-- One profile with one request.
pub profile-run :
    {at : Times} {now later : ℕ} {log : List Use} (stage client_id : ℕ) (w_id : Option ℕ)
    (costs : List (List (ℕ × ℕ))) (a : StageReq) (evts : List ℕ)
    → Run at now
        (use_cost_list stage client_id 0 costs
          ++ submit_all (req a no_reqs)
          ++ block_if_any w_id evts)
        (some later)
        log
    → AllBy at later evts × Inside at a log
profile-run stage client_id w_id costs a evts r =
    let uses = use_cost_list stage client_id 0 costs in
    let p = run-through (uses ++ submit_all (req a no_reqs)) (block_if_any w_id evts) r in
    let q = run-through uses (submit_all (req a no_reqs)) p.first in
    let t = run-Submitted q.second in
    (
      run-block_if_any w_id evts p.second,
      record {
        w_id = t.w_id;
        start = t.start;
        end = t.sub_end;
        before = q.before;
        own = t.sub_log;
        after = t.rest_log ++ p.after;
        run = t.sub;
        whole = whole-three q.before t.sub_log t.rest_log p.after p.whole q.whole t.whole;
      },
    )

-- The reply is made after the log, and so after the log's synchronization.
module _ (rs : RegionServer) (r : HbaseReq) where
  -- Replies that are not sent.
  pub Silent-reply :
      (at : Times) (stage client_id : ℕ) (w_id : Option ℕ) (log mem : Part) (ident : ℕ)
      (rest : List Effect)
      → Silent at (process_profiles stage client_id 0 w_id (reply_profiles rs r log mem ident) rest)
      → at ident ≡ none
  unfolding Never
  Silent-reply at stage client_id w_id log mem ident rest silent =
      let mem_first =
        Silent-append at
          (use_cost_list stage client_id 0 (receive_costs rs r)
            ++ submit_all log.reqs
            ++ block_if_any w_id log.evts)
          _ silent in
      let ((never, _, _), _) = Silent-append at ([] ++ submit_all mem.reqs ++ []) _ mem_first in
      never

  pub never-reply :
      (at : Times) (log mem : Part) (ident : ℕ)
      → NeverProfiles at (reply_profiles rs r log mem ident)
      → at ident ≡ none
  unfolding Never
  never-reply at log mem ident (_, (_, (((never, _, _), _), _))) = never

  -- A reply that has been sent: what follows the log's profile ran, and the reply after that.
  pub reply-Replicated :
      {at : Times} {now by : ℕ} {end : Option ℕ} {log : List Use} (stage client_id fresh : ℕ)
      (draws : List ℕ) (w : Made) (mem : Part) (ident : ℕ) (rest : List Effect) (w_id : Option ℕ)
      → 0 < rs.hdfs.replica
      → 0 < r.log_append_size
      → write_req rs rs.wal_id r.log_append_size (fresh + 2) draws ≡ ok (some w)
      → Run at now
          (process_profiles stage client_id 0 w_id
            (reply_profiles rs r (synced rs r rs.wal_id fresh w) mem ident)
            rest)
          end
          log
      → at ident ≡ some by
      → Replicated rs by r.log_append_size log
  unfolding Never
  reply-Replicated {at} {now} {by} {end} {log} stage client_id fresh draws w mem ident rest w_id
        large some_data made run done =
      let part = synced rs r rs.wal_id fresh w in
      let costs = receive_costs rs r in
      let append = append_req rs r (suc fresh) (
        req w.made (
          req (stage_req fresh rs.log_sync_stage rs.wal_id 0 [] (w.done_evt ∷ []) no_reqs no_reqs)
            no_reqs)) in
      let last = profile ([] ∷ []) (req (respond_req rs r ident) no_reqs) [] no_profiles in
      let logged =
        use_cost_list stage client_id 0 costs
        ++ submit_all part.reqs
        ++ block_if_any w_id part.evts in
      let updated = [] ++ submit_all mem.reqs ++ [] in
      elim (run-Parts logged
        (process_profiles stage client_id 0 w_id (profile ([] ∷ []) mem.reqs [] last) rest) run) [
          | inl (_, silent) ↦
              let ((never, _, _), _) =
                Silent-append at updated (process_profiles stage client_id 0 w_id last rest)
                  silent in
              absurd (cc)
          | inr p ↦
              elim (run-Parts updated (process_profiles stage client_id 0 w_id last rest)
                p.second) [
                  | inl (_, ((never, _, _), _)) ↦ absurd (cc)
                  | inr q ↦ elim (run-submit q.second) [
                    | inl (_, (never, _, _), _) ↦ absurd (cc)
                    | inr t ↦
                        let (began, _) =
                          run-done t.w_id ident rs.rpc_respond_stage r.client_id 0 _ [] no_reqs
                            no_reqs t.sub done in
                        let (((synced_at, synced_evt, le), _), inside) =
                          profile-run stage client_id w_id costs append (fresh ∷ []) p.first in
                        Replicated-inside rs synced_at by r.log_append_size inside.before inside.own
                          (inside.after ++ p.after) log
                          (omega (arith, le, run-le q.first, t.starts, began))
                          (p.whole
                            ∙ ap (λ l. l ++ p.after) inside.whole
                            ∙ append_assoc inside.before (inside.own ++ inside.after) p.after
                            ∙ ap (λ l. inside.before ++ l)
                                (append_assoc inside.own inside.after p.after))
                          (synced-Replicated rs r rs.wal_id fresh draws w large some_data made
                            inside.w_id inside.run synced_evt)
                  ]
                ]
        ]
