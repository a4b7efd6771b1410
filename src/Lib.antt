-- ===== src/Lib.antt =====
-- A model of tnnyio/yoroi, a toolkit for services in Go: endpoints and their middlewares, client-side
-- service discovery and load balancing, a connection manager, authentication, metrics, and servers and
-- clients over HTTP and gRPC.
--
-- An endpoint is a function of a context and a request; a middleware wraps one (Endpoint). An
-- Instancer, such as that of Consul or DNS, sends events about the instances of a service to an
-- endpoint cache, which makes and closes endpoints (Sd); a balancer picks one of them and Retry
-- calls it until it answers (Lb).
--
-- Which file models what, with paths from the root of the repository:
--   Sd/Event.antt              sd/instancer.go: events
--   Sd/EndpointCache.antt      sd/endpoint_cache.go; take_instance, close_all and collect are the
--                              three loops of updateCache
--   Sd/InstanceCache.antt      sd/internal/instance/cache.go, over an explicit heap of arrays
--   Sd/Endpointer.antt         sd/endpointer.go, over the two caches
--   Sd/Watching.antt           the loop of sd/etcd/instancer.go, which those of etcdv3, eureka and
--                              zk share
--   Sd/Etcd/Ttl.antt           sd/etcd/registrar.go: NewTTLOption
--   Sd/Etcd/Client.antt        sd/etcd/client.go: GetEntries, Register and Deregister
--   Sd/Etcd/Registrar.antt     sd/etcd/registrar.go: Register, loop and Deregister
--   Sd/Etcdv3.antt             sd/etcdv3/client.go: GetEntries
--   Sd/Eureka/Instancer.antt   sd/eureka/instancer.go
--   Sd/Eureka/Registrar.antt   sd/eureka/registrar.go
--   Sd/Zk.antt                 sd/zk/client.go
--   Sd/Consul.antt             sd/consul/instancer.go
--   Sd/Dnssrv.antt             sd/dnssrv/instancer.go
--   Lb/RoundRobin.antt         sd/lb/round_robin.go
--   Lb/Random.antt             sd/lb/random.go
--   Lb/Retry.antt              sd/lb/retry.go
--   Conn/Backoff.antt          util/conn/manager.go: Exponential
--   Conn/Manager.antt          util/conn/manager.go: the goroutine loop, an event for each case
--   Endpoint.antt              endpoint/endpoint.go
--   Ratelimit.antt             ratelimit/token_bucket.go
--   Circuitbreaker.antt        circuitbreaker/gobreaker.go, handy_breaker.go and error.go
--   Auth/Basic.antt            auth/basic/middleware.go
--   Auth/Jwt.antt              auth/jwt/middleware.go
--   Auth/Jwt/Header.antt       auth/jwt/transport.go
--   Metrics/LabelValues.antt   metrics/internal/lv/labelvalues.go, over an explicit heap of arrays
--   Metrics/Space.antt         metrics/internal/lv/space.go
--   Metrics/Generic.antt       metrics/generic/generic.go: counters and gauges, an atomic step at a time
--   Metrics/Ratemap.antt       metrics/internal/ratemap/ratemap.go
--   Metrics/Emit.antt          the writer and the variables of the WriteTo methods
--   Metrics/Graphite.antt      metrics/graphite/graphite.go
--   Metrics/Cloudwatch2.antt   metrics/cloudwatch2/cloudwatch2.go: Send, an event for each step of its
--                              goroutines; as many rounds as there are datums cut all batches
--   Metrics/Influx.antt        metrics/influx/influx.go: WriteTo
--   Metrics/Statsd.antt        metrics/statsd/statsd.go
--   Metrics/Dogstatsd.antt     metrics/dogstatsd/dogstatsd.go; its child Lines has WriteTo
--   Metrics/Influxstatsd.antt  metrics/influxstatsd/influxstatsd.go
--   Transport/Http/InterceptingWriter.antt  transport/http/intercepting_writer.go; `switch` is two
--                              functions of sixteen cases
--   Transport/Http/Server.antt transport/http/server.go: ServeHTTP; its children Encoders
--                              and Options have the default encoders and NewServer
--   Transport/Http/Client.antt transport/http/client.go: Endpoint
--   Transport/Grpc/Server.antt transport/grpc/server.go: ServeGRPC
--   Transport/Grpc/Client.antt transport/grpc/client.go: Endpoint; Transport/Grpc/Through.antt
--                              has a call of the one that reaches the other
--   Transport/Options.antt     the loop over the options that the constructors in transport share, but
--                              for that of transport/http/server.go; modules named Options have the
--                              options and the constructors
--   Transport/Fasthttp.antt    transport/fasthttp/server.go
--   Transport/Jsonrpc/Client.antt  transport/http/jsonrpc/client.go; Transport/Jsonrpc/Through.antt
--                              has a call of it that reaches the server
--   Transport/Jsonrpc/Error.antt   transport/http/jsonrpc/error.go
--   Transport/Jsonrpc/Server.antt  transport/http/jsonrpc/server.go
-- The children of these modules hold the theorems, and the modules named Tests the examples.
--
-- Conventions. A method returns the new state. Code of other packages, clocks and random sources are
-- arguments: a factory answers by the history of its calls, a random source by the number of draws.
-- An error is its message, but for the packages auth, which have data types. Concurrent calls are
-- sequences of critical sections, in the order in which they get the lock. The endless loop of
-- Retry takes fuel, and as many rounds as attempts are allowed are enough; that of the Consul
-- instancer is run for any number of rounds. Floats are a type with the
-- operations that the code uses, and an io.Writer is a function of a state and a text. The gauges
-- that several holders share are known by their place in a list. Goroutines that share a counter
-- take their atomic steps in the order of a schedule; those of a registrar, which are alike, are counted
-- by the place in the code where they are, and a step that cannot be taken there changes nothing.
--
-- What a function given to a server does to the response writer is a list of calls. The functions before
-- and after a call of JSON-RPC return the request or the response as well, which they may change.
--
-- An event that a goroutine has taken from a channel waits until a step of its own applies it, and a
-- float product is a number of units of 2^-53, whose fraction the code drops.
--
-- Not modelled: log lines; the order of Go's map iteration; the fasthttp client; the
-- histograms of generic.go; the leases of sd/etcdv3, the constructors of the clients of discovery
-- systems, and the registrars that only log; the other metrics backends, which call external systems.
pub mod Prelude
pub mod Sd
pub mod Lb
pub mod Conn
pub mod Endpoint
pub mod Auth
pub mod Ratelimit
pub mod Circuitbreaker
pub mod Metrics
pub mod Transport
