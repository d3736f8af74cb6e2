-- ===== src/Lib.antt =====
-- The messaging core of mutmuas: agents on several nodes send each other requests over a shared
-- message bus, and every node keeps a ledger of its messages and tasks.
--
-- The parts, and the files that model them. Ids: addresses NODE:agent (src/mutmuas/ids.py).
-- Protocol: the envelope of a message, its checks and its JSON form (src/mutmuas/protocol.py). Bus:
-- the subjects of messages, their wildcards, and the permissions of a node's user
-- (src/mutmuas/bus.py). Server: the server's configuration and the credentials of its users
-- (src/mutmuas/server_config.py). Ledger: the tables `messages` and `tasks` (src/mutmuas/ledger.py);
-- Rows has the columns, Insert the insertions, Outbox and Inbox and Tasks and Thread the operations.
-- Config and Glob: agents, permissions and accepted senders, and in Config/Load what the file holds
-- (src/mutmuas/config.py). Hub: what the daemon, the command line and the tools share: sending
-- through the outbox, requests, the owner's updates of a task, and the order of the registry's cards
-- (src/mutmuas/hub.py). Node: the daemon, which receives, dispatches, runs and recovers
-- (src/mutmuas/node.py). Tools: what an agent may do (src/mutmuas/tools.py). Runtime: the
-- permissions of a task, its command line, its prompt, and the output of its process
-- (src/mutmuas/runtime.py). Artifacts: keys, digests, publishing and fetching
-- (src/mutmuas/artifacts.py). Worktree: the clone of a code task (src/mutmuas/worktree.py). Cli: the
-- commands that write the configuration, that make and read messages, the notifier and the service
-- (src/mutmuas/cli.py). Life: any sequence of what the daemon does at one node. Tests: concrete
-- inputs.
--
-- How they interact. A message is queued in the ledger before it is published, and marked as sent
-- after; a failure leaves it in the outbox, which is flushed later. A delivery is stored before it is
-- acknowledged, then dispatched. A change of a task and the message that announces it are one
-- transaction. So Hub, Node and Tools are written over the ledger's operations, and Hub/Runs and
-- Hub/Promise give one rule for each way to build an action: what the leaves keep, every action keeps.
--
-- State. `Hub.State.State` holds the configuration, the ledger, the messages that the server has
-- stored, the shared task records, and the daemon's queues. `Hub.State.World` answers what the program
-- reads from outside: the clock, fresh ids, whether the bus is connected, how a publication ends, the
-- texts of errors, the registry. Each question has a number, so any sequence of answers is possible.
-- A method is a function from a state to a result or an error, and the state that it leaves; what was
-- written before an error stays. A transaction that fails leaves the ledger as it was.
--
-- Conventions. Times are in milliseconds. A column of JSON text holds the value. `json.loads` is
-- outside: the daemon is given its outcome. A value that the code passes on unchecked where a text is
-- expected, such as a task id that is a list, is the error `untyped`, outside of what is modelled. A hub
-- without a bus is one whose bus is not connected. A run of a process is split in two: `begin` up to its
-- start, `conclude` from its end; what git and the process answer are arguments. An event of `Life` runs
-- to its end or to its exception; the ledger's own steps, in `Ledger.History`, come in any order.
--
-- Files, processes and stores are arguments: a file is the text that it holds, a process the chunks that
-- it writes and its exit, a store of objects a list, yaml and JSON of a text the value that they read.
--
-- Loops are recursion on the list that they go through: rows, polls, chunks, attempts. Two have fuel.
-- `Glob.pieces` has the length of the pattern and one, which is enough, since each step reads at least
-- one character of it. `Hub.Wait.wait_result` has the timeout and two polls more, which is enough where
-- the clock advances between polls.
--
-- Not modelled: the MCP server, which only registers the tools; what git does; the argument parsers and
-- the printing of the command line, and its launchd file; opening the database, the connection to the
-- server and its topology; making TLS certificates; values in a configuration file that have not the
-- type of their field; the merged view of one task; the timers of the loops.
mod Prelude
mod Result
pub mod Json
pub mod Ids
pub mod Bus
pub mod Protocol
pub mod Ledger
pub mod Glob
pub mod Config
pub mod Runtime
pub mod Artifacts
pub mod Worktree
pub mod Server
pub mod Cli
pub mod Exec
pub mod Hub
pub mod Node
pub mod Tools
pub mod Life
mod Tests
