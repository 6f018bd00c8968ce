-- ===== src/Hbase/AsyncHandler.antt =====
-- hbase/hbase.py, AsyncHandlerRegionServer.submit_req: the rpc handling does not wait for the lookup
-- and the read; each submits what comes after it.
use tam_simulation.Prelude.{ℕ, suc, ◌+◌, Option, some, [], ◌∷◌, ltb, if◌then◌else◌}
use tam_simulation.Result.{Result, ok, ◌>>=◌}
use tam_simulation.StageReq.{
  StageReq, stage_req, blk_stage_req, no_reqs, req, no_profiles, profile, add_req,
}
use tam_simulation.Hdfs.{Made, get_namenode_req}
use tam_simulation.Hbase.{
  HbaseReq, RegionServer, Draws, Part, with_made, log_append, mem_update, receive_costs,
  rpc_read_req,
}
use tam_simulation.Hbase.ShortCircuit.{read_part}

-- downstream_reqs.append, and done.callbacks.append(lambda evt: env.process(r.wait_submit()))
abbrev pub submit_after : StageReq → StageReq → StageReq
submit_after r (stage_req ident stage client_id priority resources evts reqs callbacks) =
    stage_req ident stage client_id priority resources evts (add_req r reqs) callbacks
submit_after r other = other

abbrev pub submit_on_done : StageReq → StageReq → StageReq
submit_on_done r (stage_req ident stage client_id priority resources evts reqs callbacks) =
    stage_req ident stage client_id priority resources evts reqs (add_req r callbacks)
submit_on_done r other = other

-- rpc_reply_req: the log, the memory, and the reply itself.
abbrev pub reply_req : RegionServer → HbaseReq → (log mem : Part) → StageReq
reply_req rs r log mem =
    blk_stage_req mem.next rs.rpc_handle_stage r.client_id 0
      (profile (receive_costs rs r) log.reqs log.evts (
        profile
          (((rs.phy_node.cpu_res, rs.times.send_reply_cpu_time)
              ∷ (rs.phy_node.net_res, r.reply_size)
              ∷ [])
            ∷ [])
          mem.reqs [] no_profiles))
      no_reqs

-- The read, which submits the reply once it is done, or the reply where there is no read.
abbrev pub read_then : StageReq → Part → StageReq
read_then reply dn = elim dn.reqs [ no_reqs ↦ reply | req r rs ↦ submit_on_done reply r ]

-- The lookup, which submits that behind it, where there is a lookup.
abbrev pub lookup_then : RegionServer → HbaseReq → ℕ → StageReq → StageReq
lookup_then rs r fresh next =
    if ltb 0 r.namenode_lookup_time
    then submit_after next (get_namenode_req rs.hdfs r.client_id r.namenode_lookup_time fresh).made
    else next

unfoldable pub submit_req : RegionServer → HbaseReq → ℕ → Draws → Result (Option Made)
submit_req rs r fresh draws = with_made (log_append rs r rs.wal_id fresh draws.write) (λ log. do
  let mem = mem_update rs r log.next
  let reply = reply_req rs r log mem
  dn ← read_part rs r (suc mem.next) draws.read
  let process =
      stage_req (suc dn.next) rs.rpc_handle_stage r.client_id 0
        ((rs.phy_node.cpu_res, r.rpc_time) ∷ []) []
        (req (lookup_then rs r dn.next (read_then reply dn)) no_reqs) no_reqs
  ok (
      some (record {
        made = rpc_read_req rs r (dn.next + 2) process;
        done_evt = mem.next;
        fresh = dn.next + 3;
      })))
