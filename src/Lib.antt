-- ===== src/Lib.antt =====
-- exec-over-lark: commands run on a remote host over the messages of a Lark chat. A client and a
-- remote host exchange frames; the frames of a connection are numbered, written as lines of text into
-- the messages of one thread, and put back in order by the receiver. A library of models of the Go
-- code and of theorems about them.
--
-- The parts and how they interact. The session manager (internal/session/session.go) keeps the
-- sessions of a client and of a remote host. What a session sends it gives to the outbound manager
-- (internal/outbound/manager.go), which numbers the frames, queues them by chat, packs them into messages
-- within a size limit and sends the messages of a chat a cooldown apart. What arrives is decoded and
-- put in order by the session's receive window (internal/protocol/frame.go).
--
-- Protocol models internal/protocol/frame.go:
--   Protocol/Frame     FrameType, Frame, validateFrame, NewFrame
--   Protocol/Sequencer Sequencer: NextSeq, Peek, Next, Frame
--   Protocol/Window    RecvWindow: OfferAt, CheckGapTimeoutAt, ReceiveAt, PendingSeqs, Reset. `offer_at`
--                      returns the window, the result and the error; its theorems stand in Order, Authentic, Complete,
--                      Timeout and Repeat below it
--   Protocol/Base64    the base64 of payloads, with decodeBase64Payload
--   Protocol/Decimal   the decimal form of a uint64
--   Protocol/Wire      EncodeFrameLine, DecodeFrameLine, EncodeFrames, DecodeFrames
-- Lark models internal/lark/client.go:
--   Lark/Errors        APIError and IsRetryableSendError
--   Lark/Mention       BuildAtMention, BuildMentionedText; Lark/Text: stripLeadingAtMentions, ExtractProtocolText
--   Lark/Event         ParseMessageReceiveEvent, ParseMessageEventStream; Lark/RoundTrip: from frames to frames
--   Lark/Token, Lark/Authorized  tenantAccessToken, TokenExpired, doJSONWithToken, doAuthorizedJSON
-- Outbound models internal/outbound:
--   Outbound/Types     the structs of manager.go, common.go and errors.go
--   Outbound/Schedule  markAttemptLocked, scheduleReadyLocked, replanLocked, currentWaitLocked
--   Outbound/Select    the selection of the next connection or root message
--   Outbound/Batch     selectAndPopBatchLocked, prepareBatch, flushOnce
--   Outbound/Commit    sendBatch, commitRootResult, commitReplyResult
--   Outbound/Manager   RegisterConnection, Enqueue, MarkCloseAfterDrained, DropConnection
--   Outbound/RootOpen  OpenRoot in three steps: the job, its answer, its cancellation
--   Outbound/Pace      the loop `run` of a chat among the steps of other goroutines
--   Outbound/Sleep     the sleep of that loop, rescheduleCh, and the calls of notifyReschedule
--   Outbound/Fit, Outbound/Retry, Outbound/Planned  what a batch holds, what a retried one leaves, and
--                      that a flush is planned for what waits
-- Session models internal/session/session.go:
--   Session/Types      the structs, and the surroundings as the record `World`: the interface Outbound,
--                      encoding/json, strconv.ParseFloat, and the answers of subscribers and receivers
--   Session/Duration   parseDuration, parseHeartbeatTimeout
--   Session/Base       ensurePeer, deliveries, closeLocalLocked, closeRemoteLocked
--   Session/Register   RegisterLocal, SubscribeLocal, UnsubscribeLocal
--   Session/Local      ReceiveLocal, its handler of frames, and the sends of a client
--   Session/Accept     AcceptRemoteStart and its refusal
--   Session/Remote     ReceiveRemote, its handler of frames, and the sends of a remote host
--   Session/Tick       Tick
--   Session/Limit, Session/Stream, Session/Peer  their theorems
-- Config models internal/config/config.go:
--   Config/Types       the structs, the default values and the errors
--   Config/Paths       DefaultPath, ResolvePath, ExpandUserPath
--   Config/Security    CheckConfigFilePermissions, CheckSecureDirectory, checkCurrentUserOwner
--   Config/Defaults    ApplyDefaults; Config/Validate: Validate, validateLarkID; Config/Load: Load
--   Config/Init        Template, WriteInitTemplate, with the calls on files in their order
-- RemoteExec models internal/remoteexec/exec.go:
--   RemoteExec/Env     mergeEnv; RemoteExec/Start: Executor.Start up to the process, resolveShell, resolveCwd
--   RemoteExec/Wait    exitCode, classifyWait, the answer of Run; RemoteExec/Kill: Signal, Kill
--   RemoteExec/Process a running Session with its two goroutines, Wait and cancel as a step relation
-- Pty models internal/pty/pty.go: Pty/Size, Pty/Signals, Pty/Start, Pty/Terminal. What pty.go has in the same
-- words as exec.go (mergeEnv, resolveShell, resolveCwd, classifyWait, exitCode) is taken from RemoteExec.
-- Bootstrap models internal/bootstrap/bootstrap.go: Message, ParseAddedToChatEvent, HandleEventJSON.
-- Ipc models internal/ipc/ipc.go:
--   Ipc/Types, Ipc/Validate  the messages and Message.validate
--   Ipc/Wire           Conn.Write and Conn.Read; Ipc/Request: the requests, their messages, and dispatch
--   Ipc/Answer         errors, and the loops of Client.Status and Client.Sessions
-- Daemon models a part of internal/daemon/remote.go:
--   Daemon/Create      RemoteConfigFromConfig, NewRemote; Daemon/Remote: HandleMessageEvent, over the session manager
--   Daemon/Events      HandleEventJSON, parseEventJSON, consumeEventStream
-- Prelude holds what the modules share: tests on numbers, lists, Go's strings and maps, results, signed
-- numbers, file paths, and what the operating system answers about files.
--
-- Conventions. A time is a number of nanoseconds, the zero time is 0, and a duration that is not
-- positive is 0; an operation gets the time that it reads from the clock as an argument. A uint64 is a number below 2 ^ 64
-- whose increment wraps. A string is a list of bytes. A map is an association list, in any order; the loops over it visit
-- it in the order of the list. A lock makes its critical section one step. A callback of the outbound manager is a flag
-- and its call an effect; a call of a subscriber or a receiver is an entry of the session manager's list of
-- calls. An error keeps its kind and data; its text is not modelled. An answer of the
-- operating system, of JSON or of HTTP is an argument of the operation that asks for it.
--
-- Fuel. The loop of OfferAt takes one pending frame a round, so the number of pending frames is
-- enough (`deliver_pending`, and Protocol/Window/Loop for what more fuel adds). A uint64 has at most 20
-- decimal digits (`print_digits`). The tokens of a duration are at most as many as its characters
-- (`parse_tokens`). The loop over leading mentions takes at least one byte a round (`strip_mentions`). All else is by recursion on lists.
--
-- Not modelled: JSON, TOML and HTTP, which are parameters; goroutines and contexts beyond the order of their
-- steps; Status and the snapshots of the outbound and session managers; system calls, which are parameters, and
-- the sockets of the IPC; the daemon of the client (internal/daemon/local.go), the tasks and the
-- ticks of the remote one; the diagnoses (internal/doctor), the commands (cmd) and the scripts.
pub mod Prelude
pub mod Protocol
pub mod Lark
pub mod Outbound
pub mod Session
pub mod Config
pub mod RemoteExec
pub mod Pty
pub mod Bootstrap
pub mod Ipc
pub mod Daemon
