-- ===== src/Hbase/Sync.antt =====
-- hbase/hbase.py: where a region server has replied to a request that asked for its log to be
-- synchronized, the log is on the disks of all replicas.
use mathlib.Core.Path.{subst}
use mathlib.Core.List.{append_assoc, append-nil}
use mathlib.Core.Option.{some-injective}
use tam_simulation.Prelude.{
  ℕ, suc, ◌+◌, ◌<◌, ◌≡◌, refl, sym, ◌∙◌, ap, inl, inr, ◌⊎◌, true, Option, none, some, List, [],
  ◌++◌, arith, ltb,
}
use tam_simulation.Result.{Result, ok, err, ok-injective, assert, bind-eq-ok}
use tam_simulation.StageReq.{blk_stage_req, Reqs, no_reqs, req, Profiles, profile}
use tam_simulation.StageReq.Process.{
  Effect, process, submit_all, use_cost_list, block_if_any, process_profiles, finish,
}
use tam_simulation.StageReq.Timing.{Times, Use, Never, NeverProfiles, Silent, Run}
use tam_simulation.StageReq.Timing.Parts.{run-Parts, Silent-append}
use tam_simulation.StageReq.Timing.Requests.{run-Submitting, run-submit}
use tam_simulation.Hdfs.{Made}
use tam_simulation.Hbase.{
  HbaseReq, RegionServer, Part, Draws, synced, log_append, write_req, dn_blocking, rpc_read_req,
  with_made, mem_update, nn_lookup,
}
use tam_simulation.Hbase.Durable.{Replicated, Replicated-inside}
use tam_simulation.Hbase.Replies.{reply-Replicated, Silent-reply, never-reply}
use tam_simulation.Hbase.Original.{reply_profiles}
use tam_simulation.Hbase.Original
use tam_simulation.Hbase.ShortCircuit

-- What runs after the read from a datanode, where there is one.
pub record Later (at : Times) (es : List Effect) (end : Option ℕ) (log : List Use) : Type 0 where
  pub since : ℕ
  pub before : List Use
  pub after : List Use
  pub run : Run at since es end after
  pub whole : log ≡ before ++ after

module _ (stage client_id : ℕ) (w_id : Option ℕ) (ps : Profiles) (rest : List Effect)
    (evts : List ℕ) (next : ℕ) where
  pub Silent-dn_blocking :
      (at : Times) (reqs : Reqs)
      → Silent at (
          process_profiles stage client_id 0 w_id
            (dn_blocking (record { reqs = reqs; evts = evts; next = next }) ps)
            rest)
      → Silent at (process_profiles stage client_id 0 w_id ps rest)
  Silent-dn_blocking at no_reqs silent = silent
  Silent-dn_blocking at (req r rs) silent =
      Silent-append at ([] ++ submit_all (req r rs) ++ block_if_any w_id evts)
        (process_profiles stage client_id 0 w_id ps rest) silent

  pub run-dn_blocking :
      {at : Times} {now : ℕ} {end : Option ℕ} {log : List Use} (reqs : Reqs)
      → Run at now
          (process_profiles stage client_id 0 w_id
            (dn_blocking (record { reqs = reqs; evts = evts; next = next }) ps)
            rest)
          end
          log
      → Silent at (process_profiles stage client_id 0 w_id ps rest)
        ⊎ Later at (process_profiles stage client_id 0 w_id ps rest) end log
  run-dn_blocking {now = now} {log = log} no_reqs r =
      inr (record { since = now; before = []; after = log; run = r; whole = refl })
  run-dn_blocking (req r rs) run =
      elim (run-Parts ([] ++ submit_all (req r rs) ++ block_if_any w_id evts)
        (process_profiles stage client_id 0 w_id ps rest) run) [
          | inl (_, silent) ↦ inl silent
          | inr p ↦ inr (record {
            since = p.middle;
            before = p.before;
            after = p.after;
            run = p.second;
            whole = p.whole;
          })
        ]

never-dn_blocking :
    (at : Times) (ps : Profiles) (reqs : Reqs) (evts : List ℕ) (next : ℕ)
    → NeverProfiles at (dn_blocking (record { reqs = reqs; evts = evts; next = next }) ps)
    → NeverProfiles at ps
unfolding Never
never-dn_blocking at ps no_reqs evts next never = never
never-dn_blocking at ps (req r rs) evts next (_, never) = never

-- The rpc handling as a whole, with any costs and any lookup in its first part.
module _ (rs : RegionServer) (r : HbaseReq) (fresh : ℕ) (draws : List ℕ) (w : Made)
    (nn dn mem : Part) (ident : ℕ) (costs : List (List (ℕ × ℕ))) where
  abbrev handling : Profiles
  handling =
      profile costs nn.reqs nn.evts
        (dn_blocking dn (reply_profiles rs r (synced rs r rs.wal_id fresh w) mem ident))

  handle-Replicated :
      {at : Times} {now by : ℕ} {end : Option ℕ} {log : List Use} (stage client_id : ℕ)
      (rest : List Effect) (w_id : Option ℕ)
      → 0 < rs.hdfs.replica
      → 0 < r.log_append_size
      → write_req rs rs.wal_id r.log_append_size (fresh + 2) draws ≡ ok (some w)
      → Run at now (process_profiles stage client_id 0 w_id handling rest) end log
      → at ident ≡ some by
      → Replicated rs by r.log_append_size log
  handle-Replicated {at} {now} {by} {end} {log} stage client_id rest w_id large some_data made run
        done =
      let log_part = synced rs r rs.wal_id fresh w in
      let replies = reply_profiles rs r log_part mem ident in
      let first =
        use_cost_list stage client_id 0 costs ++ submit_all nn.reqs ++ block_if_any w_id nn.evts in
      elim (run-Parts first (process_profiles stage client_id 0 w_id (dn_blocking dn replies) rest)
        run) [
          | inl (_, silent) ↦
              let never = Silent-reply rs r at stage client_id w_id log_part mem ident rest (
                Silent-dn_blocking stage client_id w_id replies rest dn.evts dn.next at dn.reqs
                  silent) in
              absurd (cc)
          | inr p ↦
              elim (run-dn_blocking stage client_id w_id replies rest dn.evts dn.next dn.reqs
                p.second) [
                  | inl silent ↦
                      let never =
                        Silent-reply rs r at stage client_id w_id log_part mem ident rest silent in
                      absurd (cc)
                  | inr q ↦
                      Replicated-inside rs by by r.log_append_size (p.before ++ q.before) q.after []
                        log (omega arith)
                        (p.whole
                          ∙ ap (λ l. p.before ++ l)
                              (q.whole ∙ ap (λ l. q.before ++ l) (sym (append-nil q.after)))
                          ∙ sym (append_assoc p.before q.before (q.after ++ [])))
                        (reply-Replicated rs r stage client_id fresh draws w mem ident rest w_id
                          large some_data made q.run done)
                ]
        ]

  rpc_read_req-Replicated :
      {at : Times} {now by : ℕ} {end : Option ℕ} {log : List Use} (w_id : Option ℕ)
      → 0 < rs.hdfs.replica
      → 0 < r.log_append_size
      → write_req rs rs.wal_id r.log_append_size (fresh + 2) draws ≡ ok (some w)
      → Run at now
          (process w_id none none (
            rpc_read_req rs r
              (ident + 2)
              (blk_stage_req (suc ident) rs.rpc_handle_stage r.client_id 0 handling no_reqs)))
          end
          log
      → at ident ≡ some by
      → Replicated rs by r.log_append_size log
  unfolding Never process
  rpc_read_req-Replicated {at} {now} {by} {end} {log} w_id large some_data made run done =
      let handle = blk_stage_req (suc ident) rs.rpc_handle_stage r.client_id 0 handling no_reqs in
      let log_part = synced rs r rs.wal_id fresh w in
      let not_sent = λ (n : Never at handle).
        let (_, (_, never), _) = n in
        never-reply rs r at log_part mem ident (
          never-dn_blocking at (reply_profiles rs r log_part mem ident) dn.reqs dn.evts dn.next
            never) in
      elim (run-Submitting w_id (ident + 2) rs.rpc_read_stage r.client_id 0 _ []
        (req handle no_reqs) no_reqs run) [
          | inl (never, _) ↦ let nothing = not_sent never in absurd (cc)
          | inr s ↦ elim (run-submit s.run) [
            | inl (_, never, _) ↦ let nothing = not_sent never in absurd (cc)
            | inr t ↦
                Replicated-inside rs by by r.log_append_size s.before t.sub_log t.rest_log log
                  (omega arith) (s.whole ∙ ap (λ l. s.before ++ l) t.whole)
                  (handle-Replicated rs.rpc_handle_stage r.client_id (finish (suc ident) no_reqs)
                    t.w_id large some_data made t.sub done)
          ]
        ]

  finished-Replicated :
      (m : Made)
      → record {
        made =
            rpc_read_req rs r
              (ident + 2)
              (blk_stage_req (suc ident) rs.rpc_handle_stage r.client_id 0 handling no_reqs);
        done_evt = ident;
        fresh = ident + 3;
      }
        ≡ m
      → {at : Times} {now by : ℕ} {end : Option ℕ} {log : List Use} (w_id : Option ℕ)
      → 0 < rs.hdfs.replica
      → 0 < r.log_append_size
      → write_req rs rs.wal_id r.log_append_size (fresh + 2) draws ≡ ok (some w)
      → Run at now (process w_id none none m.made) end log
      → at m.done_evt ≡ some by
      → Replicated rs by r.log_append_size log
  finished-Replicated m same {at} {now} {by} {end} {log} w_id large some_data made run done =
      rpc_read_req-Replicated w_id large some_data made
        (subst (λ x. Run at now (process w_id none none x.made) end log) (sym same) run)
        (subst (λ x. at x.done_evt ≡ some by) (sym same) done)

-- A log that is to be synchronized is appended with its synchronization.
pub log_append-synced :
    {A : Type 0} (rs : RegionServer) (r : HbaseReq) (wal_id fresh : ℕ) (draws : List ℕ)
    (rest : Part → Result (Option A)) (a : A)
    → r.log_sync ≡ true
    → 0 < r.log_append_size
    → with_made (log_append rs r wal_id fresh draws) rest ≡ ok (some a)
    → (w : Made) × (write_req rs wal_id r.log_append_size (fresh + 2) draws ≡ ok (some w))
      × (rest (synced rs r wal_id fresh w) ≡ ok (some a))
unfolding log_append
log_append-synced rs r wal_id fresh draws rest a sync some_data e =
    let needed : ltb 0 r.log_append_size ≡ true = ground (arith, some_data) in
    written (write_req rs wal_id r.log_append_size (fresh + 2) draws) (rw (needed, sync) at e)
  where
    written :
        (o : Result (Option Made))
        → with_made (with_made o (λ w. ok (some (synced rs r wal_id fresh w)))) rest ≡ ok (some a)
        → (w : Made) × (o ≡ ok (some w)) × (rest (synced rs r wal_id fresh w) ≡ ok (some a))
    written (err x) e' = absurd (cc)
    written (ok none) e' = absurd (cc)
    written (ok (some w)) e' = (w, refl, e')

-- RegionServer: a reply to a request whose log is to be synchronized comes after the log has been
-- written to the disks of `replica` different nodes, whatever was drawn and however the stages are
-- scheduled.
pub original-durable :
    (rs : RegionServer) (r : HbaseReq) (fresh : ℕ) (draws : Draws) (m : Made)
    → 0 < rs.hdfs.replica
    → r.log_sync ≡ true
    → 0 < r.log_append_size
    → Original.submit_req rs r fresh draws ≡ ok (some m)
    → {at : Times} {now by : ℕ} {end : Option ℕ} {log : List Use} (w_id : Option ℕ)
    → Run at now (process w_id none none m.made) end log
    → at m.done_evt ≡ some by
    → Replicated rs by r.log_append_size log
unfolding Original.submit_req
original-durable rs r fresh draws m large sync some_data e {at} {now} {by} {end} {log} w_id run
      done =
    let nn = nn_lookup rs r fresh in
    let (dn, _, e1) = bind-eq-ok (Original.read_part rs r nn.next draws.read) _ e in
    let (w, made, e2) =
      log_append-synced rs r rs.wal_id dn.next draws.write _ m sync some_data e1 in
    let mem = mem_update rs r w.fresh in
    let (_, _, e3) = bind-eq-ok (assert (ltb 0 r.rpc_size)) _ e2 in
    finished-Replicated rs r dn.next draws.write w nn dn mem mem.next _ m
      (some-injective _ m (ok-injective e3)) w_id large some_data made run done

-- SCRegionServer, too: a reply to a request whose log is to be synchronized comes after the log has been
-- written to the disks of `replica` different nodes, whatever was drawn and however the stages are
-- scheduled.
pub short_circuit-durable :
    (rs : RegionServer) (r : HbaseReq) (fresh : ℕ) (draws : Draws) (m : Made)
    → 0 < rs.hdfs.replica
    → r.log_sync ≡ true
    → 0 < r.log_append_size
    → ShortCircuit.submit_req rs r fresh draws ≡ ok (some m)
    → {at : Times} {now by : ℕ} {end : Option ℕ} {log : List Use} (w_id : Option ℕ)
    → Run at now (process w_id none none m.made) end log
    → at m.done_evt ≡ some by
    → Replicated rs by r.log_append_size log
unfolding ShortCircuit.submit_req
short_circuit-durable rs r fresh draws m large sync some_data e {at} {now} {by} {end} {log} w_id run
      done =
    let nn = nn_lookup rs r fresh in
    let (dn, _, e1) = bind-eq-ok (ShortCircuit.read_part rs r nn.next draws.read) _ e in
    let (w, made, e2) =
      log_append-synced rs r rs.wal_id dn.next draws.write _ m sync some_data e1 in
    let mem = mem_update rs r w.fresh in
    let (_, _, e3) = bind-eq-ok (assert (ltb 0 r.rpc_size)) _ e2 in
    finished-Replicated rs r dn.next draws.write w nn dn mem mem.next _ m
      (some-injective _ m (ok-injective e3)) w_id large some_data made run done
