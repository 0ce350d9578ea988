-- ===== src/Lib.antt =====
-- wgctrl-go: control of WireGuard devices. The library reads and configures devices through back
-- ends of the operating systems, keeps names of peers that WireGuard itself does not know in a file
-- for each interface, and reads and writes configurations of wg(8).
--
-- Base holds what all modules share: native numbers and their Boolean tests, lists measured by them,
-- texts as lists of code points, integers, and results with an error. Std holds the packages of Go's
-- standard library that the code uses (strings, strconv, encoding/base64, encoding/hex,
-- bufio.Scanner).
--
-- Types (wgtypes/types.go) has the records Device, Peer, Config and PeerConfig with the source's
-- fields; a pointer is an Option. A Key is a list of bytes, and IsKey says that there are 32. Its
-- child Types/Keys has NewKey, ParseKey, Key.String, GenerateKey and GeneratePrivateKey, with the
-- random bytes as an argument. PublicKey is not modelled, since it calls curve25519.
--
-- Meta (internal/wgmeta) has the names of peers. Names is the map from keys to names and its form in
-- JSON, Path chooses the file, and Store reads it and replaces it through a temporary file. A disk
-- gives each path its content, the record Calls says which call of the system fails, and the record
-- Json stands for encoding/json with the law that what is marshalled is read back. A lock is taken
-- for the whole of an update, so that updates do not interleave; the lock of the process is left out.
--
-- Conf (internal/wgconf/conf.go) applies a configuration to a back end, the record Client over any
-- state, and keeps the names in step with the device.
--
-- Linux (internal/wglinux) has the two parts of the Linux back end that are logic of their own:
-- Batch splits a large configuration into messages (shouldBatch and buildBatches of
-- configure_linux.go), and Merge puts the messages of one dump together (parseDevice and mergeDevices
-- of parse_linux.go). The inner loop of buildBatches runs on fuel, one more than the allowed IPs and
-- operations of its peer: each round but the last takes one of them. The reader of one message is a
-- parameter of Merge, since it calls the netlink package.
--
-- Wgconfig (internal/wgconfig) parses files of wg(8), and Encode writes them into a buffer. The record Net holds what comes from
-- outside: addresses, ports, the resolver's answers, the environment and JSON strings. Fields has the
-- values of single fields, Endpoint resolves the address of a peer, and Parse folds one line after
-- another into a State, the variables of the loop; its peers end with the one that the pointer `peer`
-- points to. An index out of range, which panics, is an error of its own there. The loop of resolveEndpoint runs on fuel: one round more than there are retries, which is
-- enough, and 2 ^ 20 rounds if the retries are infinite.
--
-- Wguser (internal/wguser) talks to userspace devices: Client
-- finds the socket of a device by its name, Configure has the text of a request, and Parse has the deviceParser as
-- a record and its operations, where `none` is the panic of an index out of range. The functions of
-- package net and PublicKey are the record Outside.
--
-- Facade (client.go) is one client over several back ends, tried in their order. It is a Client in the
-- sense of Conf.
--
-- Wgquick (internal/wgquick) has the configurations of wg-quick(8). Config holds the data and the
-- choice of a routing table, Parse the values of the fields and Lines the loop over the lines of a
-- file; Encode prints one, and Save puts the state of a device into its file through a temporary one,
-- where the record Calls says which call of the system fails. Commands has the commands that
-- quick_linux.go runs, each with its words, and the record System that runs them; Run has Up and Down
-- as sequences of such commands, which stop at the first error, with the deferred clean-up of Up. The
-- log of a State remembers the commands and their outcomes; Pending reads off it what was made and
-- not removed again, where a removal counts that was tried and failed.
--
-- Wgapi (internal/wgapi) serves devices over HTTP. Json has the bodies and their conversion, where the
-- seconds of an interval wrap around at 64 bits; Server the requests and responses, Handlers a
-- function from a request and the state of the back end and the disk to a response and the next state
-- for each path, and with_auth in front of them; Logging what the middleware around them reads of a
-- request and records of a response. The handlers use Conf and Wgconfig as the code does.
--
-- Wgcli (internal/wgcli/format.go) is the output of wg(8) as texts: Durations has the texts of
-- durations and byte counts, Show the output for a whole device, Fields that for one field. A write
-- into the buffer does not fail. Std/Sort stands for sort.SliceStable.
--
-- Wg (cmd/wg/list.go) is the list of the interfaces, over the client that the command opens.
--
-- Not modelled: the text of error messages, and everything else that talks to a kernel, a network or
-- a terminal.
pub mod Base
pub mod Std
pub mod Types
pub mod Meta
pub mod Conf
pub mod Linux
pub mod Wgconfig
pub mod Wguser
pub mod Facade
pub mod Wgquick
pub mod Wgapi
pub mod Wgcli
pub mod Wg
