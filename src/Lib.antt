-- ===== src/Lib.antt =====
-- Sulink Lan joins computers in a private network: a signalling server (internal/server) hands out
-- virtual addresses and credentials and relays packets, and clients (internal/client) send each
-- other IP packets through it or directly.
--
-- Base holds the shared helpers: Boolean tests, lists, Go's maps as association lists, results, and
-- the functions of Go's strings, strconv, net and sort that the code calls. A Go string is the list
-- of its code points, and a time is a number of nanoseconds since Go's zero time.
--
-- Forward is internal/forward/forward.go: the rules of a device, their text and their checks.
--
-- Server.Pool is internal/server/ipalloc.go. `IpPool` is IPPool; `alloc`, `alloc_at`, `held`,
-- `in_range` and `release` are its methods, each under the pool's own mutex, so a method is one
-- step. The loop of `alloc` takes one round for each address of the range, which is its fuel.
--
-- Server.Devices is internal/server/devices.go with the file access of store.go. `DeviceTable` has
-- the three maps of the code and, as `disk`, the file that `writeJSON` reaches; encoding/json is
-- taken to give back what it wrote. A method is a function of the table (and, in Leasing, of the
-- pool) and runs under the table's mutex, so a history of calls is a list. Loops over a map go
-- through its keys in the order of the list. Log lines are not modelled.
--
-- Server.Hub is internal/server/server.go. A `*Device` is a number in `conns`, so two names of one
-- device are one number; `devices` and `by_id` are the code's maps. A message to a client is put in
-- the queue of its device, and `write_next` is one round of its writer goroutine; `written` lists
-- what has gone out. Hub.Conn cuts `handleConn` at the messages that it waits for, and Hub.Relay is
-- one round of `relayLoop`, with the datagrams that it sends as a list. Hub.Events puts these steps
-- and the actions of Server.Control (control.go and settings.go) together: a run is a list of events
-- in any order. Each function that holds a mutex of the code is one step, and so is each handler
-- between two messages. The loop of `register` for a free name has as many rounds as there are
-- names, so that one of its candidates is free. Server.Icmp is icmp.go; its checksum loop has three
-- rounds, enough for 32 bits.
--
-- Protocol is internal/protocol: messages, the packets of the data plane (Protocol.Packet) and the
-- credentials (Protocol.Credentials). AES-GCM, HMAC-SHA256 and encoding/json are arguments; their
-- laws are that Open undoes Seal, that a sealed text is longer by the overhead, and that a
-- credential is read back from its JSON. Protocol.Samples has instances of them.
--
-- Protocol.Framing is the length prefix of `WriteMsg` and `ReadMsg`.
--
-- Client.Nat is internal/client/nat.go: a packet is a list of bytes, and a call of `DNAT`, `SNAT`,
-- `SetRules` or one round of `cleanLoop` is one step.
--
-- Client.Peers is the map of peers of internal/client/client.go, and Client.Session its `Client`.
-- Connect is `connectOnce`: what the operating system and the server answer are arguments (`Setup`,
-- the challenge and a function from the message that is sent to its answer). Signals is one message
-- of `signalingLoop` with push.go and one round of a goroutine of `startPunch`; Data is one datagram
-- of `udpLoop` and one packet of `tunLoop`. Run puts them together as events in any order, with the
-- `select` of `Run` cut into its choices; what goes out is a list of `Out`. A session's loops take
-- events only while the session is served. Data.Delivery joins `tunLoop` and `udpLoop` with the
-- server's relay, and Connect.Enrol and Run.Blocked join `connectOnce` with the server's handlers.
--
-- Client.Card is internal/client/tun_config.go with the loop of `Configure` of tun_linux.go,
-- tun_darwin.go and tun_windows.go, which are alike but for the decoding of the output; the command
-- line is an argument.
--
-- Config is internal/config/config.go: `Save` may stop at each of its steps. Hwid is
-- internal/hwid/hwid.go, with SHA-256 and the sources of an identity as arguments.
--
-- Admin is internal/admin: a handler is a function of a request and of what the page manages, and
-- Admin.Serve is the table of paths that `New` builds. Admin.Start is `startAdmin` of
-- cmd/server/main.go. Npsembed is internal/npsembed: the database of NPS and its tunnels are the
-- record `Nps` of the functions that the program calls.
--
-- Gui is the application of internal/gui without its window: `App`, the calls of the page, and in
-- Gui.Work the goroutine `runClient` cut at its waits, with the tunnel client of npc.go; a run is a
-- list of events in any order. What a tick reads from the client, and what the server answers to it,
-- is an argument.
--
-- What is not modelled: the operating system (sockets, the virtual network card, the registry), the
-- window of the application, the other code of the command line programs, and the copy of the
-- project NPS under nps-master, which the embedded tunnel server only configures and starts.
pub mod Base
pub mod Forward
pub mod Protocol
pub mod Client
pub mod Server
pub mod Config
pub mod Hwid
pub mod Npsembed
pub mod Admin
pub mod Gui
