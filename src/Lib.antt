-- ===== src/Lib.antt =====
-- pty-mcp gives an AI agent interactive terminals over the Model Context Protocol. A server
-- reads requests, one JSON object per line (internal/mcp/server.go), and runs each in a
-- goroutine of its own, at most 32 handlers at once. The handlers (internal/mcp/tools.go) work
-- on terminal sessions, which a manager keeps (internal/session/session.go). What a terminal
-- prints goes through a ring buffer (internal/buffer); readers follow it by a mark or by
-- cursors. Secrets reach a terminal without passing through the agent: staged in the manager,
-- or sealed for a key of this process (internal/mcp/credentials.go). Commands are reported to
-- an audit collector (internal/audit). Terminals that outlive a connection are kept by another
-- server on the remote machine (internal/aitx), to which a remote session
-- (internal/session/remote.go) talks.
--
-- The files, and what they model:
-- - Base: library names passed on; Base/Tests the Boolean tests, Base/Lists lists over the
--   native numbers, Base/Int Go's signed integers, Base/Dict Go's maps with string keys. Text:
--   functions of the packages strings, strconv and crypto/subtle, on lists of bytes; Text/Split
--   the lines of a text that comes in parts, Text/Space white space, Text/Utf8 utf8.Valid.
-- - Buffer/Ring: type RingBuffer of internal/buffer/ring.go, a state record with one function
--   per method; `Since`, which takes the mutex twice, is given the buffer at both times. Its
--   children prove the invariant (Inv), the reads against the history of all bytes written
--   (Read), the mark and the cursors (Cursor), and the notification channel (Notify).
--   Buffer/Config: BufferSizeFromEnv of internal/buffer/config.go.
-- - Session/Manager: type Manager of internal/session/session.go. Every method holds a mutex
--   while it uses a map, so it is one step on the record Manager; `Close` and `Detach` take a
--   second one for the staged secret after the first, between which other calls may come; what
--   they close afterwards is returned as a list. Children: the steps and the invariant (Valid),
--   Add, Close and Detach (Lifecycle), staged secrets (Secrets), the lock of a session id
--   (Locks), the idle reaper (Reaper).
-- - Session/Screen: the methods of the SSH and serial sessions (internal/session/ssh.go,
--   internal/session/serial.go) that write, read by the mark and close; Reads follows an input
--   to the output that is read. Session/Serial: how a serial session begins, and its reading
--   goroutine. Session/Classifier: ClassifyOutput of internal/session/classifier.go.
-- - Session/Ssh: the settings, authentication methods, host key check and version check of
--   internal/session/ssh.go; Session/Ssh/Dial the functions that connect, with what they open
--   and close. Children: the order of versions (Order), the client configuration (Checked),
--   what is left open (Dial/Leaks).
-- - Session/Remote: type RemoteSession of internal/session/remote.go; what an exchange is
--   answered is an argument, and what is requested a result. Children: the constructors (Open),
--   the output on its way to the readers (Delivery), the end of the session (Once).
-- - Pty: HasPrompt, WaitForSettle and WaitForSettleCtx of internal/pty/helper.go. Children:
--   what a returned output is (Stable), when the wait completes (Completes), its end (Ends).
-- - Config: LoadAudit and readKV of internal/config/config.go; Config/Roundtrip lines that are
--   written and read back.
-- - Mcp/Tools: what the session handlers of internal/mcp/tools.go share; Mcp/Tools/Input
--   send_input, with the staged secrets; Mcp/Tools/Control the other handlers on a session;
--   Mcp/Tools/Create the three handlers that open one; Mcp/Tools/Dispatch handle,
--   handleToolCall, negotiateProtocolVersion of internal/mcp/server.go and classifyError with
--   internal/mcp/errors.go; Mcp/Tools/Settle waitForSettle, which runs before a staged secret
--   is written; Mcp/Tools/Missing calls whose session is not there. They are composed of
--   Session/Manager, Mcp/WaitFor and Buffer/Ring; what other calls do meanwhile is an argument,
--   applied before each access to the manager.
-- - Mcp/Rotator: logRotator of internal/mcp/tools.go, on a directory of numbered files.
--   Children: the renames (Shift), a write (Keeps).
-- - Mcp/Prompt: readSecretFromUser of internal/mcp/tools.go and the dialogs that it tries.
--   Children: the environment of a desktop (Display), which dialogs are opened (Chain), the
--   scripts that hold the prompt (Escapes), the secret that comes back (Answers).
-- - Mcp/Inflight: inflightRegistry of internal/mcp/server.go. Mcp/Serve: the loop of Serve and
--   its goroutines, a step relation in which the reader and any number of goroutines
--   interleave; the handler's own work lies between the steps starts and completes. Children:
--   the semaphore (Bounds), the entries in the registry (Tracked), cancelled requests
--   (Answers), the invariant on responses (Settled), and which requests are answered
--   (Responses).
-- - Mcp/Credentials: credentialStore, GetCredentialBundle and InjectSecret of
--   internal/mcp/credentials.go, on top of Session/Manager. What other calls do at the same
--   time is an argument, applied before each access to the shared state. Children: the store
--   (Store), what the injection writes (Inject), and that it uses a credential once (Once).
-- - Mcp/Http: httpTransport of internal/mcp/http.go, on top of Mcp/Inflight, from the request
--   to the list of replies. Children: the keys of the sessions' requests (Scopes), the sessions
--   (Sessions), the token (Access).
-- - Mcp/WaitFor: waitForPattern of internal/mcp/tools.go on Buffer/Ring; what the terminal
--   writes while the loop runs is an argument. Children: the same loop on a stream of chunks
--   (Stream), which lines it tests (Lines), the ring buffer as a stream (Refine), both together
--   (Finds).
-- - Audit/Client: queue, retries and SendCmd of internal/audit/client.go; Audit/Snippet its
--   function Snippet; Audit/Collector the collector of internal/audit/server.go.
-- - Aitx/Server: the handlers of internal/aitx/server.go on its table of terminals, with Write,
--   WriteRaw and ReadScreen of internal/aitx/ptysession.go on Buffer/Ring; Aitx/Server/Handle
--   the choice of the handler, resizing, the reaper and the end. Children: the limit (Limit),
--   new terminals (Create), closing, resizing and reaping (Tables). Aitx/Reader: the goroutine
--   of internal/aitx/ptysession.go that reads a terminal; its child Queries the queries that it
--   answers. Aitx/Process: the command, Resize and Close of the same file. Aitx/Keys: the key
--   tables of internal/aitx/server.go and internal/session/remote.go.
-- The modules named Tests hold runs on small inputs.
--
-- Numbers: Go's int and int64 counters are natural numbers where the code keeps them from being
-- negative, and Base/Int's integers where a caller may give a negative one; the 2^63 limit is
-- written out only where text is parsed. Times are natural numbers, and an elapsed time is
-- compared without subtracting. Loops are structural recursion, on the list or on the bytes
-- that the Go loop runs over; the ticks of PollRemote are a list. On fuel are the paging client
-- of Buffer/Ring/Cursor (a round for each byte to read, and one more), the waits of Pty (a
-- round for each 50 ms of the timeout, and one more), the wait of Mcp/Tools/Settle (a round for
-- each 20 ms of its limit, and one more), and the trimming of white space (the length of the
-- text, which each round shortens).
--
-- Taken as parameters: the regexp package, the cred-proto package (session keys, bundles,
-- decryption), json.Marshal (of which it is assumed that it keeps texts in valid UTF-8) and
-- json.Valid, the exchange of an HTTP request and of a remote request, what the ssh and
-- ssh_config packages answer, which files exist and what they hold, what a session's own
-- methods return to the handlers, what the terminal writes while a call runs, random ids, the
-- clock. Not modelled: socket input and output, the processes behind local terminals and the
-- lines that a new PowerShell is sent, what the desktop shows, the command lines, log output;
-- the listing of local ai-tmux sessions; of Serve the writer goroutine and the shutdown.
pub mod Base
pub mod Text
pub mod Buffer
pub mod Config
pub mod Pty
pub mod Session
pub mod Mcp
pub mod Audit
pub mod Aitx
