-- ===== src/Lib.antt =====
-- Models and proofs for go-rocketmq-dashboard, a web dashboard and command line over RocketMQ clusters.
--
-- The program. An HTTP server (internal/server) keeps a registry of clusters. For each cluster a
-- runtime reads topics, consumers and messages through a provider and keeps them in snapshots, which
-- background loads refresh. Operations that change a cluster pass an admission that authenticates
-- the caller, checks a permission and a reason, and writes an audit record before and after. Requests
-- on topics are checked by internal/rocketmq, which also builds the timeline of a message. The
-- package internal/rocketmq/goadmin compares providers with each other on plans of samples.
--
-- The files, and what they model:
--   Base and its children: the numbers, texts, lists, maps and sorting that the others share.
--   Chain: internal/rocketmq/chain.go and its structs of types.go. Numbers has formatLag and
--     stringFromInt; Timeline and Status prove what BuildMessageStatusChain returns.
--   Topic: internal/rocketmq/topic_mutation.go, a child for each request.
--   Snapshot: snapshotStore of internal/server/snapshot.go; Keyed is keyedSnapshotStore over a heap
--     of stores, Keyed/Steps the interleavings, Keyed/Invalidation what a deletion guarantees.
--   Auth: internal/server/auth_audit.go up to `allows`, and normalizeRoles.
--   Audit: the rest of that file. The interface AuditStore is a record of a state and operations,
--     Store has the file and the memory implementation; Admission is about
--     beginMutationForCluster and Completion about complete, over any store.
--   Registry: internal/server/cluster_registry.go, with ClusterDefinition of cluster_runtime.go and
--     the registry's fields of App of server.go. Definition is the normalization, App the mutations,
--     Startup normalizeClusterDefinitions of cluster_runtime.go.
--   Shadow: internal/rocketmq/goadmin. Plan has shadow_plan.go and the dry run of shadow_batch.go,
--     Compare the comparison of shadow.go, Summary shadow_summary.go. Workers is the pool of
--     runConcreteShadowSamples as a step relation, and Batch is RunShadowBatch over it.
--   Parser: ParseConfigSections and ParseNameServerConfigs of internal/rocketmq/parser.go.
--   RuntimeConfig: applyRuntimeConfigChange of internal/server/runtime_config.go. Values has the new
--     value of a key, Targets the nodes of a request, Nodes the commands that read and write one,
--     Apply the loop with its rollback and Request the whole. Laws says what the commands do; it says
--     nothing of the node of a write that ends with an error.
--   Remoting: internal/rocketmq/goadmin/remoting_client.go. JavaOrder has the order of Java hash
--     maps, Allocation the queues of a route and their allocation, Frame the frames of the protocol
--     with the binary header, Properties the properties of a message, MessageId its id.
--   Cache: internal/cache/ttl.go.
--   Tests: the theorems at concrete inputs.
--
-- How code becomes definitions:
--   A struct is a record and an operation a function with the source's name; an operation on shared
--   state takes the state and returns it. What a mutex guards is one step; refreshIfStale tests and
--   refreshes in two critical sections, and the step relation of Keyed/Steps has the refresh as a step
--   of its own. A goroutine is a load in flight, and ends by a step with an outcome.
--   A text is the list of its code points. Lower-casing is that of ASCII letters, so for
--   other letters the model says nothing of strings.ToLower.
--   A time is a number of nanoseconds since Go's zero time, a duration a number of nanoseconds; the
--   sums that are formed stay far below 2^63, as do lengths and counts, and are not wrapped. int64
--   values of messages and lags are integers, with the overflow of negation written out.
--   A stable sort stands for sort.SliceStable, and for sort.Strings and sort.Slice of orders in which
--   equivalent elements are equal.
--   The loop of stringFromInt runs on fuel 19, the digits of the greatest int64; that this is enough is
--   part of the round trip.
--   A Go map is an association list, of which only the lookups are used, and the number of files
--   where two outputs are compared.
--   In Frame a text is the list of its bytes. The loop of readRocketMQExtFields runs on one round more
--     than its bytes, which is enough since each field has bytes; the loop of javaHashMapCapacity on
--     one round for each entry, each of which adds to the threshold. In Frame, an index or slice out
--     of range is a value of the result; in Allocation, a negative capacity is a missing value.
--   A worker of a batch is no part of the state: a step sends a job if fewer jobs run than there are
--     workers, or writes the result of a job that runs. The runner of a provider is a function of its
--     arguments.
--   Outcomes of files, of the random source and of the clock are arguments.
--
-- Parameters: package net (parsing and printing of addresses), url.PathUnescape, strconv.Quote, and
-- the JSON codec, of which a theorem that needs it assumes that it prints a record on one line, or a
-- header, that it reads back. The provider's commands, its feature report, the parsing of floats,
-- and the normalization of outputs before they are compared.
--
-- Not modelled: the rest of the remoting client (its sockets, its commands, the decoders of tables
-- and messages), the other parsers of command output, the providers, the HTTP routes, the proxy
-- runtime, the command line, the Java sidecar and the page. The output normalizers of the shadow
-- comparison are regular expressions of a library. JSON of routes is taken as decoded. The
-- goroutines that compare the targets of one sample are taken in order.
pub mod Audit
pub mod Auth
pub mod Base
pub mod Cache
pub mod Chain
pub mod Parser
pub mod Registry
pub mod Remoting
pub mod RuntimeConfig
pub mod Shadow
pub mod Snapshot
pub mod Tests
pub mod Topic
