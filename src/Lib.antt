-- ===== src/Lib.antt =====
-- TAM simulation: the schedulers, resources and stages of a simulator of multi-tenant servers.
--
-- In the program a stage (stage.py) has workers that take requests from a scheduler
-- (scheduler.py), serve them, and use resources (seda_resource.py), which have schedulers of their
-- own. simpy runs the processes: it calls a scheduler's `_do_put` and `_do_get`, at times of its
-- choosing. simpy is not modelled; the theorems are about any calls at any times. A call takes the
-- time `now` for `self.env.now`, and its outcome is a state and a reply, or an exception.
--
-- The files and the code they model:
--   Prelude, Result, Dict: numbers, exceptions as values, and Python's dictionaries.
--   Req: the attributes of a request (stage_req.py, seda_resource.py) that schedulers use.
--   Scheduler: what `_do_put` and `_do_get` of every class in scheduler.py have in common, and
--     sequences of such calls.
--   Occupancy: OccupancyCalc, with an independent meter of busy time.
--   Flight: LimitInFlight. Fifo: FIFOScheduler. Priority: PriorityScheduler.
--   LimitFifo: LimitInFlightFIFOScheduler. History runs it beside the requests that its gets handed
--     out and those that were completed.
--   Wfq: WFQScheduler. Its children Select, Sums, Active, Ascending, Invariant, Putting, Serving
--     and Fairness hold its proofs; Feedback, InFlight, PriorityFirst, SlaFirst and LatencyAware
--     model FeedbackWFQScheduler, LimitInFlightWFQScheduler, PriorityWFQScheduler with
--     PriorityNoStarveWFQScheduler, DDLWFQScheduler and LtcAwareWFQScheduler.
--   Unified: UnifiedWFQScheduler.
--   TokenBucket: TokenBucket, TBScheduler, RefundTBScheduler and PriorityTBScheduler.
--   Drf: DRFScheduler; Drf.Variants: the classes that derive from it.
--   Buckets, Deadline: EFFScheduler and EDFScheduler.
--   Config: get_scheduler; Config.Classes: the predicates on scheduler classes. All of these are in
--     scheduler.py.
--   Resource: class Resource of seda_resource.py.
--   Stage: classes Stage, ActiveWorkerStage and OnDemandStage of stage.py.
--   StageReq: the requests of stage_req.py, as trees of those that they submit downstream.
--     Process: their processing, as lists of effects; Speculative, Aborting: process_no_res. Totals:
--     the sums of resources. Timing: runs of requests, by the times at which events succeed.
--   Hdfs: the requests and the choice of replicas of hbase/hdfs.py.
--   MemStore: class MemStore of hbase/hbase.py.
--   Hbase: hbase/hbase.py's RegionServer (Original), SCRegionServer (ShortCircuit),
--     SchedHandlerSepWALRegionServer (SeparateWal), AsyncHandlerRegionServer (AsyncHandler) and the
--     servers with a stage for each resource (OneStage).
--   Tokens: the allocation of tokens of cassandra/cassandra.py.
--   Ring: ConsistentHash of util/consistent_hash_util.py. Owner: the search in a sorted ring;
--     Machines: the points of a ring and the machine of a key.
--   Tests: runs on small inputs.
--
-- Numbers. Times, costs, weights and tokens, which are floats in the program, are whole multiples
-- of one unit, `one` being the number 1 in it; what may be negative is an integer. A float division
-- is a parameter (`quot`, `ratio`, `cost_share`), since its rounding is the machine's; what is
-- assumed of it is only that a quotient of numbers that are not negative is not negative. A capacity
-- is `none` for `float('inf')`. A list of what woke other schedulers holds their identities.
--
-- A request of a stage is built in the code by appending to its lists; here it is built with them,
-- after what it refers to. `fresh` numbers the requests, and an event is named by its request. In
-- StageReq.Timing a run of the simulator is any assignment of times to events that agrees with the
-- effects of the requests in their order: how long a use of a resource or a queue takes is left open.
-- What random.randrange returns is a list of draws.
--
-- Loops are recursion on lists and dictionaries. The one fuel, in Config.Classes, bounds the steps
-- from a class to its bases by 5, and no class has more than four classes on that way.
--
-- Not modelled: simpy, `__str__`, output and logs, the float divisions of the statistics, the
-- speculative stages, ConditionalStageReq, the clients (client.py), the key generators and the other
-- files of util, the physical cluster, the other region servers and the flush stages of hbase, and
-- the nodes and requests of cassandra.
pub mod Prelude
pub mod Result
pub mod Dict
pub mod Req
pub mod Occupancy
pub mod Scheduler
pub mod Flight
pub mod Fifo
pub mod Priority
pub mod LimitFifo
pub mod Wfq
pub mod Buckets
pub mod Deadline
pub mod TokenBucket
pub mod Unified
pub mod Drf
pub mod Resource
pub mod Stage
pub mod Config
pub mod Ring
pub mod MemStore
pub mod StageReq
pub mod Hdfs
pub mod Hbase
pub mod Tokens
mod Tests
