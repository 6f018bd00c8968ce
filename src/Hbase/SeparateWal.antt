-- ===== src/Hbase/SeparateWal.antt =====
-- hbase/hbase.py, SchedHandlerSepWALRegionServer.submit_req: the log is written as the client's, and
-- the reply is sent in the rpc handle stage.
pub mod Handled
use tam_simulation.Prelude.{
  ℕ, suc, ◌+◌, Bool, true, false, not, ◌&&◌, Option, none, some, List, [], ◌∷◌, ltb, if◌then◌else◌,
}
use tam_simulation.Result.{Result, ok, err, ◌>>=◌, ◌>>◌, assert}
use tam_simulation.StageReq.{
  StageReq, blk_stage_req, Reqs, no_reqs, req, Profiles, no_profiles, profile,
}
use tam_simulation.Hdfs.{PhyNode, Made}
use tam_simulation.Hbase.{
  HbaseReq, RegionServer, Draws, Part, with_made, nn_lookup, log_append, mem_update, dn_blocking,
  receive_costs, rpc_read_req,
}
use tam_simulation.Hbase.ShortCircuit.{read_part}

abbrev pub reply_profiles : RegionServer → HbaseReq → Part → Part → Profiles
reply_profiles rs r log mem = profile (receive_costs rs r) log.reqs log.evts (
    profile
      (((rs.phy_node.cpu_res, rs.times.send_reply_cpu_time)
          ∷ (rs.phy_node.net_res, r.reply_size)
          ∷ [])
        ∷ [])
      mem.reqs [] no_profiles)

abbrev pub handle_profiles : RegionServer → HbaseReq → (nn dn log mem : Part) → Profiles
handle_profiles rs r nn dn log mem =
    profile (((rs.phy_node.cpu_res, r.rpc_time) ∷ []) ∷ []) nn.reqs nn.evts
      (dn_blocking dn (reply_profiles rs r log mem))

-- submit_req: the completion is that of the rpc handling.
unfoldable pub submit_req : RegionServer → HbaseReq → ℕ → Draws → Result (Option Made)
submit_req rs r fresh draws = do
  let nn = nn_lookup rs r fresh
  dn ← read_part rs r nn.next draws.read
  with_made (log_append rs r r.client_id dn.next draws.write) (λ log. do
    let mem = mem_update rs r log.next
    let handle =
        blk_stage_req mem.next rs.rpc_handle_stage r.client_id 0
          (handle_profiles rs r nn dn log mem) no_reqs
    assert (ltb 0 r.rpc_size)
    ok (
        some (record {
          made = rpc_read_req rs r (suc mem.next) handle;
          done_evt = mem.next;
          fresh = mem.next + 2;
        })))
