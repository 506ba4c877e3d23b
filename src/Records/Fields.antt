-- ===== src/Records/Fields.antt =====
-- The fields of the text of a record: the text is its parts with commas between them, and a part its
-- fields with bars between them. That it is so is in `Rendered`.
use passive_bitcoin.Prelude.{List, [], ◌∷◌, ◌++◌, map, length}
use passive_bitcoin.Text.{Bytes, join, format_uint, format_int, hex, base64}
use passive_bitcoin.Records.{Texts, Script, base_fields, bar, comma}
use passive_bitcoin.Records.Items.{
  InputRecord, ItemRecord, EntryRecord, DetailsRecord, header_fields, output_fields, details_fields,
}
use passive_bitcoin.Records.Full.{alert_fields, version_fields}
use passive_bitcoin.Records.Kinds
use passive_bitcoin.Records.Kinds.{MessageRecord, text}

-- Parts of fields
abbrev pub Parts : Type 0
Parts = List (List Bytes)

unfoldable pub render : Parts → Bytes
render parts = join comma (map (join bar) parts)

-- A list of no fields is written as one empty field.
abbrev pub or_empty : List Bytes → List Bytes
or_empty [] = [] ∷ []
or_empty (x ∷ xs) = x ∷ xs

abbrev pub item_fields : ItemRecord → List Bytes
item_fields ir = format_uint ir.category ∷ hex ir.hash ∷ []

abbrev pub input_fields : InputRecord → List Bytes
input_fields ir = hex ir.hash ∷ format_uint ir.index ∷ format_uint ir.sequence ∷ []

abbrev pub entry_fields : Texts → EntryRecord → List Bytes
entry_fields t er =
    format_int (t.unix er.stamp) ∷ format_uint er.services ∷ t.addr_string er.addr ∷ []

module _ {A : Type 0} (t : Texts) (s : Script A) where
  -- The inputs and outputs of a transaction
  abbrev pub details_items : DetailsRecord A → Parts
  details_items dr = map input_fields dr.ins ++ map (output_fields s) dr.outs

  abbrev pub blocks_items : List (DetailsRecord A) → Parts
  blocks_items [] = []
  blocks_items (dr ∷ rest) = (details_fields s dr ∷ details_items dr) ++ blocks_items rest

  -- The parts of the text of each record
  unfoldable pub fields : MessageRecord A → Parts
  fields (Kinds.filter_add_record r) = base_fields t r ∷ []
  fields (Kinds.filter_clear_record r) = base_fields t r ∷ []
  fields (Kinds.filter_load_record r) = base_fields t r ∷ []
  fields (Kinds.get_addr_record r) = base_fields t r ∷ []
  fields (Kinds.mem_pool_record r) = base_fields t r ∷ []
  fields (Kinds.merkle_block_record r) = base_fields t r ∷ []
  fields (Kinds.ver_ack_record r) = base_fields t r ∷ []
  fields (Kinds.ping_record r) = (base_fields t r.base ++ format_uint r.nonce ∷ []) ∷ []
  fields (Kinds.pong_record r) = (base_fields t r.base ++ format_uint r.nonce ∷ []) ∷ []
  fields (Kinds.address_record r) =
      (base_fields t r.base ++ format_uint (length r.addrs) ∷ []) ∷ map (entry_fields t) r.addrs
  fields (Kinds.inventory_record r) =
      (base_fields t r.base ++ format_uint (length r.inv) ∷ []) ∷ map item_fields r.inv
  fields (Kinds.not_found_record r) =
      (base_fields t r.base ++ format_uint (length r.inv) ∷ []) ∷ map item_fields r.inv
  fields (Kinds.get_data_record r) =
      (base_fields t r.base ++ format_uint (length r.items) ∷ []) ∷ map item_fields r.items
  fields (Kinds.headers_record r) =
      (base_fields t r.base ++ format_uint (length r.hdrs) ∷ []) ∷ map (header_fields t) r.hdrs
  fields (Kinds.get_blocks_record r) =
      (base_fields t r.base ++ hex r.stop ∷ format_uint (length r.hashes) ∷ [])
      ∷ map (λ h. hex h ∷ []) r.hashes
  fields (Kinds.get_headers_record r) =
      (base_fields t r.base ++ hex r.stop ∷ format_uint (length r.hashes) ∷ [])
      ∷ map (λ h. hex h ∷ []) r.hashes
  fields (Kinds.alert_record r) =
      let p = r.payload in
      alert_fields t r
      ∷ or_empty (map format_int p.set_cancel)
      ∷ or_empty (map base64 p.set_sub_ver)
      ∷ (base64 p.comment ∷ [])
      ∷ (base64 p.status_bar ∷ [])
      ∷ (base64 p.reserved ∷ [])
      ∷ []
  fields (Kinds.block_record r) =
      (base_fields t r.base ++ (header_fields t r.hdr ++ format_uint (length r.details) ∷ [] ∷ []))
      ∷ blocks_items r.details
  fields (Kinds.reject_record r) =
      (base_fields t r.base ++ format_uint r.code ∷ r.reject ∷ hex r.hash ∷ r.reason ∷ []) ∷ []
  fields (Kinds.transaction_record r) =
      (base_fields t r.base ++ details_fields s r.details) ∷ details_items r.details
  fields (Kinds.version_record r) = (version_fields t r ++ r.agent ∷ []) ∷ []
