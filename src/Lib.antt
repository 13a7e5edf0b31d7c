-- ===== src/Lib.antt =====
-- gossh: a terminal server in Go that keeps SSH and local sessions alive between browser
-- connections. A browser opens a web socket; frames from it are relayed to the terminal of a
-- session, and the session's output is sent to it, kept in a ring, and mirrored in a screen
-- emulator. Sessions are registered in a manager that records them in a store, and connect to
-- hosts of an inventory, whose keys are trusted on first use.
--
-- Prelude        shared notation: tests on native numbers, lists, maps with string keys, Go results
-- Ring           internal/session/ring.go: newRing, Write, Bytes
-- Protocol       internal/terminal/protocol.go: the encoders and decoders of both kinds of frame
-- Session        internal/session/session.go, one terminal with its clients:
--   Replay         sendInitializeMessage, alignTailStart, replayOutput
--   Pump           pumpChunk, the snapshot of bridge, New
--   Attach         Attach, Detach, Destroy as critical sections that interleave
--   Relay          masterToSlave with its resizes and their jitter
--   Observe        Screen, Resize, Input, Signal and Wait
-- Store          internal/session/store.go: the Store interface with its laws, MemoryStore, FileStore
-- Manager        internal/session/manager.go: the registry, over any store that keeps those laws
-- KnownHosts     internal/sshx/knownhosts.go: Callback with calls that overlap, Pin, Forget
-- Host           internal/host/host.go: Add, Update, Remove, Get, with the index by name and the file
-- Capture        what the mirror does with output:
--   Scanner        internal/capture/emulator.go: the byte scanner
--   Emulator       internal/capture/emulator.go: Write with its splices
--   Graphics       internal/capture/graphics.go: the kitty graphics protocol
-- Router         internal/api/ws_handler.go: wsRouter and virtualConn, the multiplexed web socket
-- Forwards       port forwards:
--   Supervised     internal/api/forward_host.go: the sections on the forwards of a host
--   Hosts          internal/api/forward_host.go: ForwardHostManager, with each call as a whole
--   Registry       internal/api/forward_handler.go: the forwards of the sessions, and their handlers
--   Socks          internal/api/forward_handler.go: what socks5 reads and replies
-- Keys           cmd/keys.go: the names of keys as bytes, for the command line
--
-- A function keeps the name of the Go function or method, in snake case; a receiver is the last
-- argument, and a method that changes its receiver returns the new one. A method that holds a
-- mutex throughout is one function; where the code gives a mutex up in between, each critical
-- section is a function of its own and an event of a step relation (Session.Attach.Step,
-- Manager.Registry.Call, Session.Pump.Event, Router.Steps.RouterStep,
-- Forwards.Supervised.Events.Section, KnownHosts.Concurrent.Event), so that any order of them can be stated. An error of Go is
-- a constructor; what the code formats into an error's text is left out.
--
-- The parts meet in these places. Session.Relay decodes with Protocol; Session.Replay and
-- Session.Pump write output frames of Protocol to a Wire that may refuse any message; Session.Pump
-- keeps a Ring; Manager makes sessions with the lifecycle of Session.Attach and uses a store only
-- through the record StoreOps and the laws StoreLaws. Router decodes and encodes with Protocol and
-- writes to a Wire shared by its channels; Forwards.Supervised reads the forwards of a Host.
--
-- Parameters stand for what is not in the repository: encoding/json at the types it is used at
-- (with the hypothesis, where a theorem needs it, that it reads back what it writes as a map with
-- the same value at every key, in any order), the outcome
-- of each file operation, the clock, random ids, the terminal of a session and the connection of a
-- client, the terminal emulator and the width of a rune, base64, zlib and the image formats,
-- regular expressions. A map ranges in any order that its list may have.
--
-- Loops are structural recursions. The one that needs fuel is the decimal text of a number in
-- Prelude.Bytes, which a number has fewer digits than its value plus one, the fuel given. The loop
-- of Wait runs over a number of rounds, of which two more than the timeout has milliseconds are
-- enough. Capacities and counters are natural numbers; the fields of a frame that the code narrows
-- to a byte are reduced modulo 256, and the products of rawToImage wrap as ints of 64 bits do.
-- Slices are lists. The writes of pumpChunk to a client are listed in their own order; how they are
-- interleaved with those of bridge on the connection is not modelled, and the Close of a connection
-- that Attach takes over is counted in the section that decides it, though it runs just after.
--
-- Not modelled: the HTTP handlers and the other commands, which translate requests to the calls
-- above; the SSH client, the pseudo terminals and the desktop integration, which are calls of
-- libraries and of the operating system; the listeners and tunnels of a port forward; the
-- rendering of the screen and the sixel and iTerm2 images.
pub mod Prelude
pub mod Ring
pub mod Protocol
pub mod Session
pub mod Store
pub mod Manager
pub mod KnownHosts
pub mod Host
pub mod Capture
pub mod Router
pub mod Forwards
pub mod Keys
