-- ===== src/Convertor.antt =====
-- convertor/convertor.go: the record of a message of the wire package.
pub mod Filtered
use passive_bitcoin.Prelude.{ℕ, Option, none, some, List, []}
use passive_bitcoin.Net.{TcpAddr, Time}
use passive_bitcoin.Util.{NetAddress}
use passive_bitcoin.Text.{Bytes}
use passive_bitcoin.Records.{Script}
use passive_bitcoin.Records.Items.{InvVect, BlockHeader, MsgTx}
use passive_bitcoin.Records.Simple.{
  new_filter_add_record, new_filter_clear_record, new_filter_load_record, new_get_addr_record,
  new_mem_pool_record, new_merkle_block_record, new_ver_ack_record, new_ping_record,
  new_pong_record,
}
use passive_bitcoin.Records.Lists.{
  Locator, new_address_record, new_inventory_record, new_not_found_record, new_get_data_record,
  new_headers_record, new_get_blocks_record, new_get_headers_record,
}
use passive_bitcoin.Records.Full.{
  Payload, MsgBlock, MsgReject, MsgVersion, new_alert_record, new_block_record, new_reject_record,
  new_transaction_record, new_version_record,
}
use passive_bitcoin.Records.Kinds
use passive_bitcoin.Records.Kinds.{MessageRecord}

-- wire.Message by its dynamic type, with what a record is made from; `other_message` stands for
-- every type that the switch leaves to its default.
pub data WireMessage : Type 0 where
  msg_addr : List NetAddress → WireMessage
  msg_alert : Payload → WireMessage
  msg_block : MsgBlock → WireMessage
  msg_headers : List BlockHeader → WireMessage
  msg_inv : List InvVect → WireMessage
  msg_ping : ℕ → WireMessage
  msg_pong : ℕ → WireMessage
  msg_reject : MsgReject → WireMessage
  msg_version : MsgVersion → WireMessage
  msg_tx : MsgTx → WireMessage
  msg_filter_add : WireMessage
  msg_filter_clear : WireMessage
  msg_filter_load : WireMessage
  msg_get_addr : WireMessage
  msg_get_blocks : Locator → WireMessage
  msg_get_data : List InvVect → WireMessage
  msg_get_headers : Locator → WireMessage
  msg_mem_pool : WireMessage
  msg_merkle_block : WireMessage
  msg_not_found : List InvVect → WireMessage
  msg_ver_ack : WireMessage
  other_message : WireMessage

-- Message, with what time.Now and msg.Command return; `none` is nil.
unfoldable pub message :
    {A : Type 0}
    → Script A
    → Time
    → (WireMessage → Bytes)
    → WireMessage
    → TcpAddr
    → TcpAddr
    → Option (MessageRecord A)
unfolding new_address_record new_alert_record new_block_record new_headers_record
    new_inventory_record new_ping_record new_pong_record new_reject_record new_version_record
    new_transaction_record new_filter_add_record new_filter_clear_record new_filter_load_record
    new_get_addr_record new_get_blocks_record new_get_data_record new_get_headers_record
    new_mem_pool_record new_merkle_block_record new_not_found_record new_ver_ack_record
message s now command (msg_addr m) r l =
    some (Kinds.address_record (new_address_record now (command (msg_addr m)) r l m))
message s now command (msg_alert m) r l =
    some (Kinds.alert_record (new_alert_record now (command (msg_alert m)) r l m))
message s now command (msg_block m) r l =
    some (Kinds.block_record (new_block_record now (command (msg_block m)) r l s m))
message s now command (msg_headers m) r l =
    some (Kinds.headers_record (new_headers_record now (command (msg_headers m)) r l m))
message s now command (msg_inv m) r l =
    some (Kinds.inventory_record (new_inventory_record now (command (msg_inv m)) r l m))
message s now command (msg_ping m) r l =
    some (Kinds.ping_record (new_ping_record now (command (msg_ping m)) r l m))
message s now command (msg_pong m) r l =
    some (Kinds.pong_record (new_pong_record now (command (msg_pong m)) r l m))
message s now command (msg_reject m) r l =
    some (Kinds.reject_record (new_reject_record now (command (msg_reject m)) r l m))
message s now command (msg_version m) r l =
    some (Kinds.version_record (new_version_record now (command (msg_version m)) r l m))
message s now command (msg_tx m) r l =
    some (Kinds.transaction_record (new_transaction_record now (command (msg_tx m)) r l s m))
message s now command msg_filter_add r l =
    some (Kinds.filter_add_record (new_filter_add_record now (command msg_filter_add) r l))
message s now command msg_filter_clear r l =
    some (Kinds.filter_clear_record (new_filter_clear_record now (command msg_filter_clear) r l))
message s now command msg_filter_load r l =
    some (Kinds.filter_load_record (new_filter_load_record now (command msg_filter_load) r l))
message s now command msg_get_addr r l =
    some (Kinds.get_addr_record (new_get_addr_record now (command msg_get_addr) r l))
message s now command (msg_get_blocks m) r l =
    some (Kinds.get_blocks_record (new_get_blocks_record now (command (msg_get_blocks m)) r l m))
message s now command (msg_get_data m) r l =
    some (Kinds.get_data_record (new_get_data_record now (command (msg_get_data m)) r l m))
message s now command (msg_get_headers m) r l =
    some (Kinds.get_headers_record (new_get_headers_record now (command (msg_get_headers m)) r l m))
message s now command msg_mem_pool r l =
    some (Kinds.mem_pool_record (new_mem_pool_record now (command msg_mem_pool) r l))
message s now command msg_merkle_block r l =
    some (Kinds.merkle_block_record (new_merkle_block_record now (command msg_merkle_block) r l))
message s now command (msg_not_found m) r l =
    some (Kinds.not_found_record (new_not_found_record now (command (msg_not_found m)) r l m))
message s now command msg_ver_ack r l =
    some (Kinds.ver_ack_record (new_ver_ack_record now (command msg_ver_ack) r l))
message s now command other_message r l = none
