-- ===== src/Records/Kinds.antt =====
-- adaptor.Record by its dynamic type, and the dispatch of its methods String and Command.
use passive_bitcoin.Text.{Bytes}
use passive_bitcoin.Records.{Texts, Script, Base}
use passive_bitcoin.Records.Simple.{
  PingRecord, PongRecord, filter_add_text, filter_clear_text, filter_load_text, get_addr_text,
  mem_pool_text, merkle_block_text, ver_ack_text, ping_text, pong_text,
}
use passive_bitcoin.Records.Lists.{
  AddressRecord, InventoryRecord, NotFoundRecord, GetDataRecord, HeadersRecord, GetBlocksRecord,
  GetHeadersRecord, address_text, inventory_text, not_found_text, get_data_text, headers_text,
  get_blocks_text, get_headers_text,
}
use passive_bitcoin.Records.Full.{
  AlertRecord, BlockRecord, RejectRecord, TransactionRecord, VersionRecord, alert_text, block_text,
  reject_text, transaction_text, version_text,
}

-- The record of a message; `A` is btcutil.Address.
pub data MessageRecord (A : Type 0) : Type 0 where
  filter_add_record : Base → MessageRecord A
  filter_clear_record : Base → MessageRecord A
  filter_load_record : Base → MessageRecord A
  get_addr_record : Base → MessageRecord A
  mem_pool_record : Base → MessageRecord A
  merkle_block_record : Base → MessageRecord A
  ver_ack_record : Base → MessageRecord A
  ping_record : PingRecord → MessageRecord A
  pong_record : PongRecord → MessageRecord A
  address_record : AddressRecord → MessageRecord A
  inventory_record : InventoryRecord → MessageRecord A
  not_found_record : NotFoundRecord → MessageRecord A
  get_data_record : GetDataRecord → MessageRecord A
  headers_record : HeadersRecord → MessageRecord A
  get_blocks_record : GetBlocksRecord → MessageRecord A
  get_headers_record : GetHeadersRecord → MessageRecord A
  alert_record : AlertRecord → MessageRecord A
  block_record : BlockRecord A → MessageRecord A
  reject_record : RejectRecord → MessageRecord A
  transaction_record : TransactionRecord A → MessageRecord A
  version_record : VersionRecord → MessageRecord A

module _ {A : Type 0} (t : Texts) (s : Script A) where
  -- String
  unfoldable pub text : MessageRecord A → Bytes
  unfolding filter_add_text filter_clear_text filter_load_text get_addr_text mem_pool_text
      merkle_block_text ver_ack_text ping_text pong_text address_text inventory_text not_found_text
      get_data_text headers_text get_blocks_text get_headers_text alert_text block_text reject_text
      transaction_text version_text
  text (filter_add_record r) = filter_add_text t r
  text (filter_clear_record r) = filter_clear_text t r
  text (filter_load_record r) = filter_load_text t r
  text (get_addr_record r) = get_addr_text t r
  text (mem_pool_record r) = mem_pool_text t r
  text (merkle_block_record r) = merkle_block_text t r
  text (ver_ack_record r) = ver_ack_text t r
  text (ping_record r) = ping_text t r
  text (pong_record r) = pong_text t r
  text (address_record r) = address_text t r
  text (inventory_record r) = inventory_text t r
  text (not_found_record r) = not_found_text t r
  text (get_data_record r) = get_data_text t r
  text (headers_record r) = headers_text t r
  text (get_blocks_record r) = get_blocks_text t r
  text (get_headers_record r) = get_headers_text t r
  text (alert_record r) = alert_text t r
  text (block_record r) = block_text t s r
  text (reject_record r) = reject_text t r
  text (transaction_record r) = transaction_text t s r
  text (version_record r) = version_text t r

-- The part that a record embeds; Command and RemoteAddress read it.
abbrev pub base_of : {A : Type 0} → MessageRecord A → Base
base_of (filter_add_record r) = r
base_of (filter_clear_record r) = r
base_of (filter_load_record r) = r
base_of (get_addr_record r) = r
base_of (mem_pool_record r) = r
base_of (merkle_block_record r) = r
base_of (ver_ack_record r) = r
base_of (ping_record r) = r.base
base_of (pong_record r) = r.base
base_of (address_record r) = r.base
base_of (inventory_record r) = r.base
base_of (not_found_record r) = r.base
base_of (get_data_record r) = r.base
base_of (headers_record r) = r.base
base_of (get_blocks_record r) = r.base
base_of (get_headers_record r) = r.base
base_of (alert_record r) = r.base
base_of (block_record r) = r.base
base_of (reject_record r) = r.base
base_of (transaction_record r) = r.base
base_of (version_record r) = r.base
