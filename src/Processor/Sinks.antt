-- ===== src/Processor/Sinks.antt =====
-- processor/writer_redis.go and writer_zeromq.go: the writers that hand the text of each record to
-- a server. The clients of Redis and ZeroMQ are what their calls return.
use mathlib.Core.List.{foldl}
use passive_bitcoin.Prelude.{String, Bool, Option, none, some, List, [], ◌∷◌, if◌then◌else◌}
use passive_bitcoin.Text.{ℤ, pos}

-- RedisWriter
pub record RedisWriter : Type 0 where
  pub host : String
  pub pw : String
  pub db : ℤ  -- int64

-- SetRedisHost, SetRedisPassword, SetRedisDatabase
pub data RedisSetting : Type 0 where
  set_redis_host set_redis_password : String → RedisSetting
  set_redis_database : ℤ → RedisSetting

unfoldable pub apply_redis : RedisWriter → RedisSetting → RedisWriter
apply_redis w (set_redis_host host) = record w { host = host }
apply_redis w (set_redis_password pw) = record w { pw = pw }
apply_redis w (set_redis_database db) = record w { db = db }

-- NewRedisWriter; `ping` says for which options the server answers.
unfoldable pub new_redis_writer : (RedisWriter → Bool) → List RedisSetting → Option RedisWriter
unfolding apply_redis
new_redis_writer ping settings =
    let w = foldl apply_redis (record { host = "127.0.0.1:23456"; pw = ""; db = pos 0 }) settings in
    if ping w then some w else none

-- ZeroMQWriter
pub record ZeroMqWriter : Type 0 where
  pub addr : String

-- SetZeromqHost
pub data ZeroMqSetting : Type 0 where
  set_zeromq_host : String → ZeroMqSetting

unfoldable pub apply_zeromq : ZeroMqWriter → ZeroMqSetting → ZeroMqWriter
apply_zeromq w (set_zeromq_host addr) = record w { addr = addr }

-- NewZeroMQWriter; `socket` says whether a socket is got, and `bind` for which addresses it binds.
unfoldable pub new_zeromq_writer : Bool → (String → Bool) → List ZeroMqSetting → Option ZeroMqWriter
unfolding apply_zeromq
new_zeromq_writer socket bind settings =
    let w = foldl apply_zeromq (record { addr = "tcp://127.0.0.1:12345" }) settings in
    if socket then (if bind w.addr then some w else none) else none

-- What the select of either writer's loop receives: the closed signal, or a line from its queue,
-- with whether the server takes it. `L` is the type of the lines.
pub data Event (L : Type 0) : Type 0 where
  sig_closed : Event L
  line : L → Bool → Event L

-- The loops goProcess and goLines: the lines that the server took. A line that it does not take is
-- logged and dropped.
unfoldable pub published : {L : Type 0} → List (Event L) → List L
published [] = []
published (sig_closed ∷ events) = []
published (line txt ok ∷ events) = let rest = published events in if ok then txt ∷ rest else rest
