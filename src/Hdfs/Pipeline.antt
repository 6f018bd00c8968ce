-- ===== src/Hdfs/Pipeline.antt =====
-- hbase/hdfs.py, SimpleDataNode.get_write_req: the acknowledgement of a write down a pipeline.
use mathlib.Core.Path.{subst}
use mathlib.Core.List.{append_assoc}
use tam_simulation.Prelude.{
  ℕ, suc, ◌+◌, ◌≤◌, ◌<◌, ◌≡◌, sym, ◌∙◌, ap, inl, inr, Option, none, some, List, [], ◌∷◌, ◌++◌,
  arith,
}
use tam_simulation.StageReq.{stage_req, Reqs, no_reqs, req}
use tam_simulation.StageReq.Process.{submit_all, blocking, finish, process}
use tam_simulation.StageReq.Timing.{Times, Use, Never, Run}
use tam_simulation.StageReq.Timing.Parts.{Used, Used-left, Used-right, Used-later, AllBy}
use tam_simulation.StageReq.Timing.Requests.{run-done, run-Submitting, run-submit}
use tam_simulation.Hdfs.{DataNode, Ratios, write_resources, ack_resources, write_req, get_write_req}

-- The data are on the disk of each node by a given time.
abbrev pub AllWritten : ℕ → ℕ → List DataNode → List Use → Type 0
AllWritten by write_size [] log = Unit
AllWritten by write_size (dn ∷ dns) log =
    Used by dn.phy_node.io_res write_size log × AllWritten by write_size dns log

pub AllWritten-later :
    (by later write_size : ℕ) (dns : List DataNode) (log : List Use)
    → by ≤ later
    → AllWritten by write_size dns log
    → AllWritten later write_size dns log
AllWritten-later by later write_size [] log le h = tt
AllWritten-later by later write_size (dn ∷ dns) log le (w, h) = (
  Used-later by later dn.phy_node.io_res write_size log le w,
  AllWritten-later by later write_size dns log le h,
)

pub AllWritten-middle :
    (by write_size : ℕ) (dns : List DataNode) (before xs after : List Use)
    → AllWritten by write_size dns xs
    → AllWritten by write_size dns (before ++ (xs ++ after))
AllWritten-middle by write_size [] before xs after h = tt
AllWritten-middle by write_size (dn ∷ dns) before xs after (w, h) = (
  Used-right by dn.phy_node.io_res write_size before (xs ++ after)
      (Used-left by dn.phy_node.io_res write_size xs after w),
  AllWritten-middle by write_size dns before xs after h,
)

-- Where the acknowledgement of one node has succeeded: the node has written the data, the events
-- that the acknowledgement waits for have succeeded, and the process goes on to the requests
-- downstream.
record Acked (at : Times) (dn : DataNode) (write_size by : ℕ) (evts : List ℕ) (reqs : Reqs)
    (ident : ℕ) (log : List Use) : Type 0 where
  waited : AllBy at by evts
  before : List Use
  after : List Use
  whole : log ≡ before ++ after
  written : Used by dn.phy_node.io_res write_size before
  w_id : Option ℕ
  since : ℕ
  end : Option ℕ
  run : Run at since (submit_all reqs ++ blocking w_id [] ++ finish ident no_reqs) end after

ack-written :
    {at : Times} {now by : ℕ} {end : Option ℕ} {log : List Use} (w_id : Option ℕ) (k : Ratios)
    (dn : DataNode) (client_id write_size fresh : ℕ) (evts : List ℕ) (reqs : Reqs) (next : ℕ)
    → 0 < write_size
    → Run at now
        (process w_id none none (write_req k dn client_id write_size fresh evts reqs next).made)
        end
        log
    → at (suc fresh) ≡ some by
    → Acked at dn write_size by evts reqs fresh log
unfolding Never
ack-written {at} {by = by} w_id k dn client_id write_size fresh evts reqs next large r acked =
    let ack =
      stage_req (suc fresh) dn.packet_ack_stage client_id 0 (ack_resources k dn write_size) evts
        no_reqs no_reqs in
    elim (run-Submitting w_id fresh dn.xceive_stage client_id 0 (write_resources k dn write_size) []
      (req ack reqs) no_reqs r) [
        | inl ((never, _, _), _) ↦ absurd (cc)
        | inr s ↦ elim (run-submit s.run) [
          | inl (_, (never, _, _), _) ↦ absurd (cc)
          | inr t ↦
              let (began, waited) =
                run-done t.w_id (suc fresh) dn.packet_ack_stage client_id 0
                  (ack_resources k dn write_size) evts no_reqs no_reqs t.sub acked in
              record {
                waited = waited;
                before = s.before ++ t.sub_log;
                after = t.rest_log;
                whole =
                    s.whole
                    ∙ ap (λ l. s.before ++ l) t.whole
                    ∙ sym (append_assoc s.before t.sub_log t.rest_log);
                written = Used-left by dn.phy_node.io_res write_size s.before t.sub_log (
                    Used-later s.since by dn.phy_node.io_res write_size s.before
                      (omega (arith, began, t.starts))
                      (s.uses dn.phy_node.io_res write_size (ground arith) large));
                w_id = w_id;
                since = t.later;
                end = s.end;
                run = t.rest;
              }
        ]
      ]

pub Never-done :
    (at : Times) (k : Ratios) (dn : DataNode) (client_id write_size fresh : ℕ) (dns : List DataNode)
    → Never at (get_write_req k dn client_id write_size fresh dns).made
    → at (get_write_req k dn client_id write_size fresh dns).done_evt ≡ none
unfolding get_write_req Never
Never-done at k dn client_id write_size fresh [] (_, ((ack, _, _), _), _) = ack
Never-done at k dn client_id write_size fresh (d ∷ dns) (_, ((ack, _, _), _), _) = ack

-- Where the acknowledgement of a write has succeeded, every node of the pipeline has written the
-- data to its disk before, whatever the order and the speed of the stages.
pub acked-AllWritten :
    {at : Times} (w_id : Option ℕ) (k : Ratios) (dn : DataNode) (client_id write_size fresh : ℕ)
    (dns : List DataNode) {now by : ℕ} {end : Option ℕ} {log : List Use}
    → 0 < write_size
    → Run at now
        (process w_id none none (get_write_req k dn client_id write_size fresh dns).made)
        end
        log
    → at (get_write_req k dn client_id write_size fresh dns).done_evt ≡ some by
    → AllWritten by write_size (dn ∷ dns) log
unfolding get_write_req Never
acked-AllWritten {at} w_id k dn client_id write_size fresh [] {by = by} large r acked =
    let a = ack-written w_id k dn client_id write_size fresh [] no_reqs (fresh + 2) large r acked in
    (
      subst (Used by dn.phy_node.io_res write_size) (sym a.whole)
          (Used-left by dn.phy_node.io_res write_size a.before a.after a.written),
      tt,
    )
acked-AllWritten {at} w_id k dn client_id write_size fresh (d ∷ dns) {by = by} large r acked =
    let down = get_write_req k d client_id write_size (fresh + 2) dns in
    let a =
      ack-written w_id k dn client_id write_size fresh (down.done_evt ∷ []) (req down.made no_reqs)
        down.fresh large r acked in
    let ((earlier, down_acked, le), _) = a.waited in
    elim (run-submit a.run) [
      | inl (_, never, _) ↦
          let none_acked = Never-done at k d client_id write_size (fresh + 2) dns never in
          absurd (cc)
      | inr t ↦
          let below =
            acked-AllWritten t.w_id k d client_id write_size (fresh + 2) dns large t.sub
              down_acked in
          let whole = a.whole ∙ ap (λ l. a.before ++ l) t.whole in
          subst (AllWritten by write_size (dn ∷ d ∷ dns)) (sym whole) (
            Used-left by dn.phy_node.io_res write_size a.before (t.sub_log ++ t.rest_log) a.written,
            AllWritten-middle by write_size (d ∷ dns) a.before t.sub_log t.rest_log
                (AllWritten-later earlier by write_size (d ∷ dns) t.sub_log le below),
          )
    ]
