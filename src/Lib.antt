-- ===== src/Lib.antt =====
-- Verification library for lark, a C++ framework of caches, RPC and task graphs.
--
-- Cache (cache/src/cache.cpp) stores values by key, with expiry times and eviction of the least
-- recently used key; a RemoteCache sends the same operations over RPC to a CacheRpcService, which
-- runs them on a LocalCache. Rpc (rpc/src/rpc/) is the in-process backend over which they meet.
-- Dag (dag/src/) builds graphs of tasks from definitions that name their dependencies, and runs
-- them on thread pools. Toolkit (toolkit/src/) has the lexer of the two DSLs and the
-- functions on strings. Column (column/src/) is an engine for tables of numbers: kernels on
-- tensors, tables and stores of them by name, and graphs of ops.
--
--   Base     lists, association lists, bytes, integers, exceptions, decimal numerals
--   Metric   the events that the other parts emit (metric/include/metric/metric.h)
--   Rpc      messages, status, service tables (rpc/include/rpc/, rpc/src/rpc/backend.cpp);
--            Rpc.Factory: RpcFactory (rpc/src/rpc/backend.cpp);
--            Rpc.Endpoint: RpcEndpoint::Parse (rpc/include/rpc/endpoint.h);
--            Rpc.InProc and Rpc.InProc.Server: InProcRegistry, InProcChannel, InProcServer
--            (rpc/src/rpc/inproc_backend.cpp)
--   Cache    Cache.Local: LocalCache; Cache.Service: CacheRpcService; Cache.Remote: RemoteCache
--   Dag      Dag.Digraph: walks and cycles; Dag.Search: the search of RejectCycles; Dag.Graph:
--            NodeRegistry, Graph, GraphBuilder (dag/src/graph_builder.cpp); Dag.Executor: Executor
--            (dag/src/executor.cpp); Dag.Kahn: the topological sort of OpGraph::Compile and
--            ComputeGraph::Finalize; Dag.OpGraph: OpGraph, OpRegistry, OpGraphBuilder;
--            Dag.OpDsl: OpGraphBuilder::BuildDsl; Dag.OpExecutor: OpExecutor
--            (dag/src/op_executor.cpp)
--   Column   Column.Numbers: the arithmetic of the element types; Column.Tensor: DType, Tensor
--            (column/include/column/types.h, column/src/column/tensor.cpp); Column.Compute: the
--            kernels (column/src/column/compute/); Column.Table, Column.Store: TensorTable and
--            TensorStore (column/src/column/tensor_table.cpp, tensor_store.cpp), with
--            Column.Index for the two members that list the same names; Column.Feed: rows to
--            columns and back (column/src/column/feed_fetch.cpp); Column.Pipeline: the phases of a
--            run, feed and fetch (column/src/column/context/execution_context.cpp,
--            column/src/column/biz/pipeline.cpp); Column.Op, Column.Expr: the expression DSL
--            (column/src/column/biz/dsl.cpp) on Toolkit.Parser, compiled to ops on columns;
--            Column.Quantize: the rest of tensor.cpp; Column.Ops: the ops and create_op
--            (column/src/column/exec/ops*.cpp, column/include/column/exec/ops_kernels.h);
--            Column.Graph, Column.Run: the construction of a ComputeGraph and its run on one
--            thread (column/src/column/exec/compute_graph.cpp, exec_node.cpp)
--   Toolkit  Toolkit.Lexer, Toolkit.Parser: toolkit::dsl (toolkit/src/dsl.cpp);
--            Toolkit.Str: toolkit::str (toolkit/src/toolkit.cpp)
--
-- A definition has the name of the function, method or type that it models, in snake case, with
-- the class in front where the method's name alone says too little (`remote_get` for
-- RemoteCache::Get). The properties of a part are in the modules below it, named for what they
-- prove; the modules named Tests run the definitions at concrete inputs.
--
-- Conventions. A std::string is a list of byte codes (Text). An unordered_map is a list of pairs
-- with distinct keys, whose order no operation relies on, or a function where the code reads a
-- missing key as a default. A method that locks a mutex is one step on the state. The clock is an
-- argument, in nanoseconds; the int64 range of times is not modelled, except where a time is
-- printed and parsed. A call that may throw returns a Result, or the state together with the
-- exception where the state has changed before the throw. A monitor is the list of the events that
-- it was handed. A Node* or an Op* is the index of the node or op in its graph, a
-- ComputeNode* an address, since nodes are removed.
--
-- Concurrency. Executor and OpExecutor are step relations: a step is what one coroutine, or the
-- thread that calls, does between two suspensions, and a run is any sequence of steps.
--
-- Loops. The eviction loop has the length of `lru_` as fuel, the search of RejectCycles a round
-- for each node and each edge, twice for a node, the topological sort a round for each node, and
-- the loops of Split, ReplaceAll and BuildDsl a round for each character; that these are enough is
-- proved.
--
-- Numbers. The arithmetic of float and double is a parameter, a record of the operators that the
-- code uses; a property that needs a law of it states the law as a hypothesis. An int64_t is an
-- integer; what a signed operation leaves beyond its range, which C++ does not define, is a
-- parameter, too.
--
-- Not modelled: the thread pools and the coroutine runtime (coro), which the step relations stand
-- for; timeouts of calls; the gRPC and brpc backends, which call third-party code; the capacity of
-- the buffers of tensors; the monitors that aggregate events and the typed context of dag; the
-- asynchronous run of the column graph, and the compiler that wires modules into it; the
-- factories that choose a cache or a monitor by name.
mod Base
pub mod Metric
pub mod Rpc
pub mod Cache
pub mod Dag
pub mod Toolkit
pub mod Column
