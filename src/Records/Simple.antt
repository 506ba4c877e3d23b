-- ===== src/Records/Simple.antt =====
-- The records that hold nothing or a nonce beside what all hold: records/record_filteradd.go,
-- record_filterclear.go, record_filterload.go, record_getaddr.go, record_mempool.go,
-- record_merkleblock.go, record_verack.go, record_ping.go and record_pong.go.
use passive_bitcoin.Prelude.{ℕ, [], ◌∷◌, ◌++◌}
use passive_bitcoin.Net.{TcpAddr, Time}
use passive_bitcoin.Text.{Bytes, join, format_uint}
use passive_bitcoin.Records.{Texts, Base, base_fields, bar}

-- PingRecord
pub record PingRecord : Type 0 where
  pub base : Base
  pub nonce : ℕ  -- uint64

-- PongRecord
pub record PongRecord : Type 0 where
  pub base : Base
  pub nonce : ℕ  -- uint64

-- What time.Now and msg.Command return, and the remote and the local address.
module _ (now : Time) (cmd : Bytes) (ra la : TcpAddr) where
  -- NewFilterAddRecord
  unfoldable pub new_filter_add_record : Base
  new_filter_add_record = record { stamp = now; la = la; ra = ra; cmd = cmd }

  -- NewFilterClearRecord
  unfoldable pub new_filter_clear_record : Base
  new_filter_clear_record = record { stamp = now; la = la; ra = ra; cmd = cmd }

  -- NewFilterLoadRecord
  unfoldable pub new_filter_load_record : Base
  new_filter_load_record = record { stamp = now; la = la; ra = ra; cmd = cmd }

  -- NewGetAddrRecord
  unfoldable pub new_get_addr_record : Base
  new_get_addr_record = record { stamp = now; la = la; ra = ra; cmd = cmd }

  -- NewMemPoolRecord
  unfoldable pub new_mem_pool_record : Base
  new_mem_pool_record = record { stamp = now; la = la; ra = ra; cmd = cmd }

  -- NewMerkleBlockRecord
  unfoldable pub new_merkle_block_record : Base
  new_merkle_block_record = record { stamp = now; la = la; ra = ra; cmd = cmd }

  -- NewVerAckRecord
  unfoldable pub new_ver_ack_record : Base
  new_ver_ack_record = record { stamp = now; la = la; ra = ra; cmd = cmd }

  -- NewPingRecord, of a message with the nonce
  unfoldable pub new_ping_record : ℕ → PingRecord
  new_ping_record nonce = record {
    base = record { stamp = now; la = la; ra = ra; cmd = cmd };
    nonce = nonce;
  }

  -- NewPongRecord, of a message with the nonce
  unfoldable pub new_pong_record : ℕ → PongRecord
  new_pong_record nonce = record {
    base = record { stamp = now; la = la; ra = ra; cmd = cmd };
    nonce = nonce;
  }

-- String of each record
unfoldable pub filter_add_text : Texts → Base → Bytes
filter_add_text t r = join bar (base_fields t r)

unfoldable pub filter_clear_text : Texts → Base → Bytes
filter_clear_text t r = join bar (base_fields t r)

unfoldable pub filter_load_text : Texts → Base → Bytes
filter_load_text t r = join bar (base_fields t r)

unfoldable pub get_addr_text : Texts → Base → Bytes
get_addr_text t r = join bar (base_fields t r)

unfoldable pub mem_pool_text : Texts → Base → Bytes
mem_pool_text t r = join bar (base_fields t r)

unfoldable pub merkle_block_text : Texts → Base → Bytes
merkle_block_text t r = join bar (base_fields t r)

unfoldable pub ver_ack_text : Texts → Base → Bytes
ver_ack_text t r = join bar (base_fields t r)

unfoldable pub ping_text : Texts → PingRecord → Bytes
ping_text t pr = join bar (base_fields t pr.base ++ format_uint pr.nonce ∷ [])

unfoldable pub pong_text : Texts → PongRecord → Bytes
pong_text t pr = join bar (base_fields t pr.base ++ format_uint pr.nonce ∷ [])
