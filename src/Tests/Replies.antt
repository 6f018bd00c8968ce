-- ===== src/Tests/Replies.antt =====
-- Speculative processing, and replies of the servers with a stage for each resource.
use tam_simulation.Prelude.{
  ℕ, ◌+◌, ◌≡◌, refl, Option, none, some, List, [], ◌∷◌, ◌++◌, true, false, arith,
}
use tam_simulation.Result.{ok}
use tam_simulation.StageReq.{StageReq, blk_stage_req, no_reqs, profile, no_profiles}
use tam_simulation.StageReq.Process.{exit, process, process_no_res}
use tam_simulation.StageReq.Totals.{get_res_consumption}
use tam_simulation.StageReq.Speculative.{process_no_res-agrees}
use tam_simulation.StageReq.Aborting.{Aborts, process_no_res-Aborts}
use tam_simulation.StageReq.Timing.{Times, Use, Run}
use tam_simulation.Hdfs.{Made}
use tam_simulation.Hbase.{HbaseReq}
use tam_simulation.Hbase.OneStage
use tam_simulation.Hbase.OneStage.{ResServer, submit_req}
use tam_simulation.Hbase.OneStage.Early.{UsesOnly, submit_req-early}

abbrev reader : StageReq
reader =
    blk_stage_req 0 1 7 0
      (profile (((1, 5) ∷ []) ∷ []) no_reqs (3 ∷ [])
        (profile (((1, 1) ∷ (2, 4) ∷ []) ∷ []) no_reqs [] no_profiles))
      no_reqs

-- Its second profile needs the resource 2, after the first one has been gone through.
process_no_res-Aborts_example : Aborts 2 (process_no_res none (some 2) reader)
unfolding get_res_consumption
process_no_res-Aborts_example = process_no_res-Aborts 2 none reader 4 tt refl (omega arith)

process_no_res-agrees_example :
    process_no_res none (some 3) reader ≡ process none none none reader ++ exit ∷ []
unfolding get_res_consumption
process_no_res-agrees_example = process_no_res-agrees 3 none reader tt refl

abbrev server : ℕ → ResServer
server i = record {
  ident = i;
  times = record {
    send_reply_cpu_time = 1;
    receive_data_cpu_time = 1;
    read_rpc_cpu_time = 1;
    stream_cpu_ratio = 1;
    log_append_cpu_time = 1;
    datanode = record { dn_per_req_cpu_time = 1; ack_size_ratio = 2; ack_cpu_ratio = 3 };
  };
  phy_node = record { name = i; cpu_res = 10 + i; io_res = 20 + i; net_res = 30 + i };
  wal_id = 9999;
  cpu_stage = 61;
  net_stage = 62;
  io_stage = 63;
  log_sync_stage = 64;
  log_append_stage = 65;
  packet_ack_stage = 66;
}

abbrev two_servers : List ResServer
two_servers = server 1 ∷ server 2 ∷ []

abbrev put : HbaseReq
put = record {
  client_id = 7;
  rpc_size = 3;
  reply_size = 1;
  rpc_time = 2;
  mem_update_size = 0;
  log_append_size = 5;
  log_sync = true;
  namenode_lookup_time = 0;
  datanode_read_size = 0;
  short_circuit = false;
}

submitted : (m : Made) × (submit_req two_servers 2 (server 1) put 0 (0 ∷ 1 ∷ []) ≡ ok (some m))
unfolding submit_req OneStage.read_part OneStage.log_append OneStage.get_hbase_write_req
    OneStage.choose
submitted = (_, refl)

submit_req-early_example :
    (times : Times) × (end : Option ℕ) × (log : List Use) × Run times 0
      (process none none none submitted.0.made)
      end
      log
    × (times submitted.0.done_evt ≡ some 0)
    × UsesOnly 31 11 log
submit_req-early_example =
    submit_req-early two_servers 2 (server 1) put 0 (0 ∷ 1 ∷ []) submitted.0 refl refl (omega arith)
      submitted.1
