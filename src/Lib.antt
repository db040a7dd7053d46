-- ===== src/Lib.antt =====
-- portable-smb-server is an SMB 2/3 server in one Go process. `internal/smb/server.go` accepts
-- connections; of each it reads framed messages (`transport.go`), cuts them into SMB2 commands,
-- hands every command to a handler and sends the responses as one message. The handlers work on a
-- table of open files and on the file system of a share, an implementation of the interfaces of
-- `internal/fsx/fsx.go`: the local disk (`internal/localfs`) or a VFS provider over HTTP
-- (`internal/httpvfs`), for which `internal/vfsprovider` is the reference.
--
-- Which file models which part (the Go files are those of internal/smb where no folder is named):
--   Base            tests, lists, signed 64-bit integers and the shift of a byte
--   Wire            little-endian fields, copies and slices of a buffer; `bufferAt` of session.go
--   Packet          packet.go: commands, header, responses, status codes, FILETIME and UTF-16
--   Transport       transport.go: the frames of the Direct TCP transport
--   Path            `nameToPath` and `joinPath` of create.go, `shareFromPath` of tree.go
--   Pattern         the search patterns of info.go
--   Spnego          spnego.go: DER, the SPNEGO tokens and the NTLM challenge
--   Crypto          crypto.go: NTLMv2, signatures and AES-CMAC
--   Fsx             internal/fsx/fsx.go, `mapOSError` of create.go and the two oserror files
--   Conn            `conn` and `Server` of server.go, the open files and their table of create.go
--   Aapl            aapl.go: CREATE contexts and Apple's extensions
--   Create          create.go: the CREATE handler
--   Io              io.go and misc.go: READ, WRITE, FLUSH and CLOSE
--   Info            info.go: QUERY_INFO, QUERY_DIRECTORY and SET_INFO
--   Negotiate       negotiate.go and ioctl.go
--   Session         session.go and tree.go
--   Dispatch        `dispatch`, `handleCommand`, `assembleResponse`, `serve` of server.go, and the two
--                   goroutines of a connection (Dispatch/Pipeline)
--   Lifecycle       `NewServer`, `Serve` and `Shutdown` of server.go
--   Shield, Login   proofs over the whole of a connection: read-only shares, and the time before
--                   a client has logged on
--   Http            the requests, responses and JSON objects of internal/openapi/openapi.json
--   HttpVfs         internal/httpvfs/httpvfs.go: an open file with its read-ahead window, the errors of
--                   responses, and `FS` (HttpVfs/Client)
--   Provider        internal/vfsprovider/vfsprovider.go: the reference provider
--   LocalFs         internal/localfs/localfs.go with open_other.go and statfs_unix.go: the local disk
--   CommandLine     main.go: the sources and the names of the shares
--   Remote          the client and the provider together, beside the file system behind the provider
--   Examples        a backend in memory, and the theorems at concrete inputs
--
-- A handler is a function from a body and a `State` to a `Reply`: the state holds the fields of
-- `conn`, the counters of the server, the state of the backends (`world`) and how many random
-- draws were made; the reply holds the new state, the NTSTATUS code and the response body. A Go
-- pointer to an open is the entry of the handle table: what a handler writes to it is put back by
-- `put_open`. A map is a list of keys and values, a handler's error a status. Numbers are natural
-- numbers with the wrap of their width written out; a signed 64-bit value is `ℤ` of Base/Int; a
-- string is the list of its runes.
--
-- What stands outside the repository is a parameter: `Env` holds the options, the clock, the random
-- bytes, the tables of Unicode and the primitives of the standard library (MD4, MD5, HMAC, AES,
-- RC4); a `FileSystem` holds the calls of a backend, over a type of worlds and a type of handles.
-- What a theorem needs of these is among its hypotheses: the sizes of digests and blocks, and that
-- `ReadAt` returns no more than it is asked for.
--
-- Loops run on fuel where Go's condition is no structural one, and the fuel is more than they
-- need: the commands of a message take one step for each byte and move on by 64 or more;
-- the matcher takes a step for each pair of a pattern's and a name's places; the walk over a DER
-- sequence takes one for each byte.
--
-- Goroutines are relations: a step of Dispatch/Pipeline is one of the reader or the writer of a
-- connection, a step of Lifecycle one of the accept loop, a connection or Shutdown, and a state is
-- reachable if any order of steps leads to it. `serve` of Dispatch/Serve handles the messages one
-- after the other; Dispatch/Pipeline/Ends says why that is enough.
--
-- Not modelled: the recovery from a panic, logging, the bytes of a write that fails half-way, and the
-- start and the end of the process. Of the local disk, package os is a parameter, paths are those of
-- Unix, and what a symbolic link leads to is left to the system; the flags of open_windows.go are
-- not there. Of the command line, only the sources and names of shares are. Of the HTTP client and
-- the provider, the escaping of a URL, the text of JSON and of times, and the texts of error
-- messages are left to the standard library. The order in which the handles that a client leaves
-- open are closed is that of the table.
pub mod Base
pub mod Wire
pub mod Packet
pub mod Transport
pub mod Path
pub mod Pattern
pub mod Spnego
pub mod Crypto
pub mod Fsx
pub mod Conn
pub mod Aapl
pub mod Create
pub mod Io
pub mod Info
pub mod Negotiate
pub mod Session
pub mod Dispatch
pub mod Remote
pub mod Shield
pub mod Login
pub mod Lifecycle
pub mod CommandLine
pub mod LocalFs
pub mod Http
pub mod Provider
pub mod HttpVfs
pub mod Examples
