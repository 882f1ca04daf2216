-- ===== src/Lib.antt =====
-- The metadata proxy of a Kubernetes deployment (proxy/): it authenticates a request by the address
-- that it came from, checks that the instance may control the address that it names, passes the
-- request on to a SAFE server, and keeps the instances in a cache over a Riak backend. Beside it
-- stands a key-value store of image layers, which a watcher writes to files.
--
-- Kvstore (proxy/internal/pkg/kvstore):
--   Store      store.go: `store` and its methods but Save and Restore. A method returns the new
--              store; the lock is held over a whole method, so a method is one step.
--   Text, File store.go: Save and Restore on the bytes of the file. The loop of Restore runs on fuel,
--              the number of bytes that are left, and each line takes at least one; File/Ending has
--              the runs of the loop without fuel.
--   Registry   store.go: NewStore, GetStore, RestartStore and a pass of startWatcher, whose loop is
--              Registry/Watcher: its rounds with what happens between them. A pointer to
--              a store is its position among the stores that were made. Registry/Restart is about a
--              restart, Registry/Recovery about one that follows a pass of the watcher.
--   Images     server.go: the handlers that read and write images; Server NewKvStore.
-- Proxy (proxy):
--   Pmap       pmap.go: ranges of ports by address, and cached instances by identity.
--   Cache      cache.go: the Pmap with a backend, reloads included. Cache/Complete is about what a
--              reload makes findable.
--   Riak       riak.go: credentials and search documents, and the connection as an implementation of
--              the backend that Cache takes as a parameter; Riak/Setup Connect, checkIndex, Shutdown.
--              Riak/Indexed is what is documented of Riak and its search, Riak/Calls the calls of the
--              cache in a row, Riak/Searches about what the searches return after them.
--   Address    server.go: ParseIP2, ParseIP3, ParseIPNew. Address/Regexp is what they use of package
--              regexp, classes of characters, `+` and groups, as a search with backtracking, with
--              the texts that an expression spells below it; Address/Decimal is strconv.ParseInt.
--   Fmt        the verb `%d` of package fmt, printed and scanned, with its round trip.
--   Safeutils  safeutils.go: GetPrincipalID.
--   Pods       pod.go.
--   Api        newapi.go: newAuth and what it calls; Api/Control authzControl, below it on the
--              text of a target; Api/Handler newHandler and getUrl of server.go; Api/Hooks the
--              instance handlers; Api/Config the configuration handlers, whose loop runs on fuel,
--              the number of values: each round takes ten; Api/Links endorsements, memberships,
--              checks and authenticateAddr; Api/Routes the table of SetupNewAPIs. Api/Caches and
--              Api/Shared are about all caches of a proxy over their one backend, Api/Claimed
--              about a principal that is written as an address with a port, Api/Authentic about
--              what newAuth grants.
--   Api/Steps  the proxy that main of server.go starts, and the requests that it handles one after
--              the other, as a step relation; below it, what every route keeps.
--   Main       server.go: config, Addresses.Set and main up to the proxy that serves.
--   Run        steps that change a state or panic; `none` is a panic (nil dereference, index out of
--              range).
--
-- Text that the program walks is a list of bytes, or of characters where a regular expression reads
-- it, text that it only compares a native string. An int
-- is a signed integer; where the program packs integers into 64 bits the wrap-around is written out.
-- A Go map is an association list, and a range loop over it visits some order of it.
--
-- Parameters, with what is documented of them: package net, the interval tree of biogo, the Riak
-- client, the JSON encoders and decoders, the FNV hash, the resolver of TCP addresses, the
-- HTTP client with the SAFE server, the disk. Proxy/Pmap/ListTree shows that the laws of the tree
-- hold of a list of its elements. The cache takes its backend to be honest: a search for an identity
-- returns instances of that identity only. Riak is so for an identity that is one term of its query
-- language; others are not quoted.
--
-- Not modelled: SetPrincipalGroupPort, which writes two fields that nothing reads and which
-- nothing calls, listening and the server that dispatches on the routes, logging, the timer and
-- the locks, and the end of line behind the fixed texts of replies. Several proxies that share a
-- backend are not modelled, nor what a request has changed when its handler panics: the server
-- recovers and goes on, and the sequences of requests here are those without a panic.
pub mod Prelude
pub mod Kvstore
pub mod Proxy
pub mod Tests
