-- ===== src/Records/Lists.antt =====
-- The records that hold a list: records/record_address.go, record_inventory.go, record_notfound.go,
-- record_getdata.go, record_getblocks.go, record_getheaders.go and record_headers.go.
use passive_bitcoin.Prelude.{List, [], ◌∷◌, ◌++◌, map, length}
use passive_bitcoin.Net.{TcpAddr, Time}
use passive_bitcoin.Util.{NetAddress}
use passive_bitcoin.Text.{Bytes, join, each_after, format_uint, hex}
use passive_bitcoin.Records.{Texts, Base, base_fields, bar, comma}
use passive_bitcoin.Records.Items.{
  InvVect, ItemRecord, EntryRecord, HeaderRecord, BlockHeader, new_item_record, new_entry_record,
  new_header_record, item_text, entry_text, header_text,
}

-- wire.MsgGetBlocks and wire.MsgGetHeaders, the fields that the code reads
pub record Locator : Type 0 where
  pub hash_stop : Bytes
  pub block_locator_hashes : List Bytes

-- AddressRecord
pub record AddressRecord : Type 0 where
  pub base : Base
  pub addrs : List EntryRecord

-- InventoryRecord
pub record InventoryRecord : Type 0 where
  pub base : Base
  pub inv : List ItemRecord

-- NotFoundRecord
pub record NotFoundRecord : Type 0 where
  pub base : Base
  pub inv : List ItemRecord

-- GetDataRecord
pub record GetDataRecord : Type 0 where
  pub base : Base
  pub items : List ItemRecord

-- HeadersRecord
pub record HeadersRecord : Type 0 where
  pub base : Base
  pub hdrs : List HeaderRecord

-- GetBlocksRecord
pub record GetBlocksRecord : Type 0 where
  pub base : Base
  pub stop : Bytes
  pub hashes : List Bytes

-- GetHeadersRecord
pub record GetHeadersRecord : Type 0 where
  pub base : Base
  pub stop : Bytes
  pub hashes : List Bytes

-- What time.Now and msg.Command return, and the remote and the local address.
module _ (now : Time) (cmd : Bytes) (ra la : TcpAddr) where
  -- NewAddressRecord, of a message with the list
  unfoldable pub new_address_record : List NetAddress → AddressRecord
  unfolding new_entry_record
  new_address_record list = record {
    base = record { stamp = now; la = la; ra = ra; cmd = cmd };
    addrs = map new_entry_record list;
  }

  -- NewInventoryRecord, of a message with the list
  unfoldable pub new_inventory_record : List InvVect → InventoryRecord
  unfolding new_item_record
  new_inventory_record list = record {
    base = record { stamp = now; la = la; ra = ra; cmd = cmd };
    inv = map new_item_record list;
  }

  -- NewNotFoundRecord, of a message with the list
  unfoldable pub new_not_found_record : List InvVect → NotFoundRecord
  unfolding new_item_record
  new_not_found_record list = record {
    base = record { stamp = now; la = la; ra = ra; cmd = cmd };
    inv = map new_item_record list;
  }

  -- NewGetDataRecord, of a message with the list
  unfoldable pub new_get_data_record : List InvVect → GetDataRecord
  unfolding new_item_record
  new_get_data_record list = record {
    base = record { stamp = now; la = la; ra = ra; cmd = cmd };
    items = map new_item_record list;
  }

  -- NewHeadersRecord, of a message with the list
  unfoldable pub new_headers_record : List BlockHeader → HeadersRecord
  unfolding new_header_record
  new_headers_record list = record {
    base = record { stamp = now; la = la; ra = ra; cmd = cmd };
    hdrs = map new_header_record list;
  }

  -- NewGetBlocksRecord
  unfoldable pub new_get_blocks_record : Locator → GetBlocksRecord
  new_get_blocks_record msg = record {
    base = record { stamp = now; la = la; ra = ra; cmd = cmd };
    stop = msg.hash_stop;
    hashes = msg.block_locator_hashes;
  }

  -- NewGetHeadersRecord
  unfoldable pub new_get_headers_record : Locator → GetHeadersRecord
  new_get_headers_record msg = record {
    base = record { stamp = now; la = la; ra = ra; cmd = cmd };
    stop = msg.hash_stop;
    hashes = msg.block_locator_hashes;
  }

-- String of each record: the number of the items, and each item after a comma.
unfoldable pub address_text : Texts → AddressRecord → Bytes
unfolding entry_text
address_text t r =
    join bar (base_fields t r.base ++ format_uint (length r.addrs) ∷ [])
    ++ each_after comma (map (entry_text t) r.addrs)

unfoldable pub inventory_text : Texts → InventoryRecord → Bytes
unfolding item_text
inventory_text t r =
    join bar (base_fields t r.base ++ format_uint (length r.inv) ∷ [])
    ++ each_after comma (map item_text r.inv)

unfoldable pub not_found_text : Texts → NotFoundRecord → Bytes
unfolding item_text
not_found_text t r =
    join bar (base_fields t r.base ++ format_uint (length r.inv) ∷ [])
    ++ each_after comma (map item_text r.inv)

unfoldable pub get_data_text : Texts → GetDataRecord → Bytes
unfolding item_text
get_data_text t r =
    join bar (base_fields t r.base ++ format_uint (length r.items) ∷ [])
    ++ each_after comma (map item_text r.items)

unfoldable pub headers_text : Texts → HeadersRecord → Bytes
unfolding header_text
headers_text t r =
    join bar (base_fields t r.base ++ format_uint (length r.hdrs) ∷ [])
    ++ each_after comma (map (header_text t) r.hdrs)

unfoldable pub get_blocks_text : Texts → GetBlocksRecord → Bytes
get_blocks_text t r =
    join bar (base_fields t r.base ++ hex r.stop ∷ format_uint (length r.hashes) ∷ [])
    ++ each_after comma (map hex r.hashes)

unfoldable pub get_headers_text : Texts → GetHeadersRecord → Bytes
get_headers_text t r =
    join bar (base_fields t r.base ++ hex r.stop ∷ format_uint (length r.hashes) ∷ [])
    ++ each_after comma (map hex r.hashes)
