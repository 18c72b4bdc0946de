-- ===== src/Lib.antt =====
-- amyQueue: its controllers.
--
-- A controller keeps the cluster's metadata in a state machine and agrees with the other controllers by
-- Raft. The state machine (src/internal/metadata) holds topics and their partitions; its four commands
-- are to be applied in the order of the Raft log. The Raft node (src/internal/raft) holds a log, a set
-- of members and the state of an election; a follower's timer starts an election, a leader's ticker
-- sends requests to append entries, and administration calls change the members, voters through the
-- log and observers directly.
--
-- Metadata/Model.antt     src/internal/metadata/model.go       records and payloads
-- Metadata/Auth.antt      src/internal/metadata/auth.go        ValidateRequest
-- Metadata/Assignment     src/internal/metadata/assignment.go  AssignReplicas, pickBest
-- Metadata/Store          src/internal/metadata/store.go       InMemoryStore: apply_... and readers
-- Raft/Membership         src/internal/raft/membership.go      VoterSet
-- Raft/Log                src/internal/raft/log.go             Log
-- Raft/Messages.antt      src/internal/raft/messages.go, admin.go
-- Raft/Node.antt          src/internal/raft/node.go            Node, NewNode, status and metrics
-- Raft/Node/Election      src/internal/raft/node.go            runFollower, runCandidate, becomeLeader,
--                                                              handleVoteRequest
-- Raft/Node/Replication   src/internal/raft/node.go            broadcastHeartbeat, handleAppendEntries,
--                                                              maybeAdvanceCommitIndex, applyCommitted
-- Raft/Node/Admin         src/internal/raft/node.go            JoinAsObserver, AddVoter, RemoveVoter,
--                                                              maybePromoteObservers
-- Raft/Node/Loop          src/internal/raft/node.go            run, runFollower, runLeader,
--                                                              electionTimeout
-- Raft/Node/Steps         all of these as the steps of one node
-- Raft/Transport.antt     src/internal/raft/transport.go       Handlers, and those that Start registers
-- Raft/Tcp                src/internal/raft/tcp/transport.go   the Send methods and connHandler
-- TcpServer.antt          src/internal/transport/tcp/server.go  Server and acceptLoop
-- Raft/Cluster            several nodes that ask each other for votes (runCandidate)
-- Metrics                 src/internal/metrics/collector.go    Describe and Collect
-- Configuration           src/internal/config/config.go        Load and the parsers that it uses
-- Api                     src/internal/api/metadata/http/admin.go  the handlers of AdminServer
-- Controller              src/cmd/controller/main.go           joinCluster, main, buildLogger, killPort
-- Examples                concrete inputs
--
-- The modules below these, such as Metadata/Store/Consistency or Raft/Node/Votes, and those beside them
-- that name no code, such as Controller/Joining, hold the theorems about them.
--
-- The parts meet in these places. Configuration gives the node's configuration to Controller/Main,
-- which starts the parts and stops them. Raft/Transport hands the node's handlers to Raft/Tcp, which
-- gives TcpServer what it does with a connection. Metrics reads the node's snapshot, and Api calls its
-- administration. Metadata/Store is what the Raft log's commands are to be applied to.
--
-- State and concurrency. A struct is a record and a method is a function of it with the same name in
-- snake case. A method that holds its lock from beginning to end is one step. Where the code gives the
-- lock up in between (runCandidate, broadcastHeartbeat, appendAndWaitCommit, JoinAsObserver,
-- maybePromoteObservers), each section is a function of its own and Steps lets any other section run
-- between two of them; an operation as a whole, such as join_as_observer or add_voter_call, takes what
-- the others do to the node in between as an argument. Only maybe_promote_observers is a round that
-- nothing interrupts; the theorem on promotions is about its sections, promote_member, with any steps
-- in between. The messages of the other nodes are the arguments of the steps. build_append reads the
-- log once where the code reads it twice under the log's own lock. Logging is left out.
--
-- Data. A Go map is an association list in the order in which a range loop visits it, which the
-- theorems leave open. uint64, int and int32 are bit patterns over ℕ: sums and products are taken
-- modulo 2 ^ 64 or 2 ^ 32 and signed comparisons are written out. lastApplied is not reduced, as it is
-- bounded by the length of a log in memory. The sentinel of the log is a field of its own. A slice
-- expression out of range is `none`. Loops are structural, on the list that they range over or on the
-- number of rounds that are left; only the loop of joinCluster that follows redirects, which has no
-- bound in the code, takes fuel. encoding/json is not part of the repository: `encode` and `decode`
-- stand for the codec of membership changes.
--
-- Texts. A text is a sequence of characters; bytes that are no UTF-8 have no counterpart. Metrics
-- values are the integers that the float64s are, rounded to 53 bits; unit_of takes 11 as its fuel,
-- since 11 halvings bring 64 bits to 53, and the decimal of an int takes 20, the most digits of 64
-- bits.
--
-- Parameters. encoding/gob is a codec that may fail and of which the theorem on calls assumes that it
-- decodes what it encoded; dialling an address gives what its other end answers, and what listening and
-- accepting give is an argument of TcpServer. godotenv is a function on environments. The Prometheus
-- client's constructor of metrics is recorded as its arguments. What the system's programs write is a
-- function of the command.
--
-- Not modelled: Dial (src/internal/transport/tcp/client.go), the metrics endpoint and the routes of the
-- admin server, which are calls of net and net/http. The broker and the command-line tool
-- (src/cmd/broker, src/cmd/cli) only print so far. net/http and the JSON decoder are arguments of the
-- handlers. Timers are the choice of the next step.
pub mod Prelude
pub mod Metadata
pub mod Raft
pub mod Metrics
pub mod Configuration
pub mod TcpServer
pub mod Controller
pub mod Api
mod Examples
