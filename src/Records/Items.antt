-- ===== src/Records/Items.antt =====
-- The parts of records: records/record_item.go, record_input.go, record_entry.go, record_output.go,
-- record_details.go and record_header.go, and the wire package's types that they are made from.
use passive_bitcoin.Prelude.{ℕ, ◌%◌, List, [], ◌∷◌, ◌++◌, map, length}
use passive_bitcoin.Net.{TcpAddr, Time}
use passive_bitcoin.Util.{NetAddress, parse_net_address}
use passive_bitcoin.Text.{Bytes, ℤ, join, each_after, format_uint, format_int, hex}
use passive_bitcoin.Records.{Texts, Script, parse_class, bar, comma}

-- wire.InvVect, wire.TxIn with its outpoint, wire.TxOut
pub record InvVect : Type 0 where
  pub type : ℕ  -- uint32
  pub hash : Bytes

pub record TxIn : Type 0 where
  pub hash : Bytes
  pub index : ℕ
  pub sequence : ℕ

pub record TxOut : Type 0 where
  pub value : ℤ
  pub pk_script : Bytes

-- wire.MsgTx, with what TxSha returns
pub record MsgTx : Type 0 where
  pub tx_sha : Bytes
  pub tx_in : List TxIn
  pub tx_out : List TxOut

-- wire.BlockHeader, with what BlockSha returns
pub record BlockHeader : Type 0 where
  pub block_sha : Bytes
  pub version : ℤ
  pub prev_block : Bytes
  pub merkle_root : Bytes
  pub timestamp : Time
  pub bits : ℕ
  pub nonce : ℕ

-- ItemRecord
pub record ItemRecord : Type 0 where
  pub category : ℕ  -- uint8
  pub hash : Bytes

-- NewItemRecord; the type is cut to eight bits.
unfoldable pub new_item_record : InvVect → ItemRecord
new_item_record vec = record { category = vec.type % 256; hash = vec.hash }

unfoldable pub item_text : ItemRecord → Bytes
item_text ir = join bar (format_uint ir.category ∷ hex ir.hash ∷ [])

-- InputRecord
pub record InputRecord : Type 0 where
  pub hash : Bytes
  pub index : ℕ  -- uint32
  pub sequence : ℕ  -- uint32

-- NewInputRecord
unfoldable pub new_input_record : TxIn → InputRecord
new_input_record txin = record { hash = txin.hash; index = txin.index; sequence = txin.sequence }

unfoldable pub input_text : InputRecord → Bytes
input_text ir = join bar (hex ir.hash ∷ format_uint ir.index ∷ format_uint ir.sequence ∷ [])

-- EntryRecord
pub record EntryRecord : Type 0 where
  pub addr : TcpAddr
  pub stamp : Time
  pub services : ℕ  -- uint64

-- NewEntryRecord
unfoldable pub new_entry_record : NetAddress → EntryRecord
new_entry_record na = record {
  addr = parse_net_address na;
  stamp = na.timestamp;
  services = na.services;
}

unfoldable pub entry_text : Texts → EntryRecord → Bytes
entry_text t er =
    join bar (format_int (t.unix er.stamp) ∷ format_uint er.services ∷ t.addr_string er.addr ∷ [])

-- HeaderRecord
pub record HeaderRecord : Type 0 where
  pub block_hash : Bytes
  pub version : ℤ
  pub prev_block : Bytes
  pub merkle_root : Bytes
  pub timestamp : Time
  pub bits : ℕ  -- uint32
  pub nonce : ℕ  -- uint32
  pub txn_count : ℕ  -- uint8

-- NewHeaderRecord
unfoldable pub new_header_record : BlockHeader → HeaderRecord
new_header_record hdr = record {
  block_hash = hdr.block_sha;
  version = hdr.version;
  prev_block = hdr.prev_block;
  merkle_root = hdr.merkle_root;
  timestamp = hdr.timestamp;
  bits = hdr.bits;
  nonce = hdr.nonce;
  txn_count = 0;
}

-- The fields of the text of a header
abbrev pub header_fields : Texts → HeaderRecord → List Bytes
header_fields t hr =
    hex hr.block_hash
    ∷ format_int hr.version
    ∷ hex hr.prev_block
    ∷ hex hr.merkle_root
    ∷ format_int (t.unix hr.timestamp)
    ∷ format_uint hr.bits
    ∷ format_uint hr.nonce
    ∷ format_uint hr.txn_count
    ∷ []

unfoldable pub header_text : Texts → HeaderRecord → Bytes
header_text t hr = join bar (header_fields t hr)

-- OutputRecord; `A` is btcutil.Address.
pub record OutputRecord (A : Type 0) : Type 0 where
  pub value : ℤ
  pub class : ℕ  -- uint8
  pub sigs : ℕ  -- uint8
  pub addrs : List A

-- DetailsRecord
pub record DetailsRecord (A : Type 0) : Type 0 where
  pub hash : Bytes
  pub ins : List InputRecord
  pub outs : List (OutputRecord A)

module _ {A : Type 0} (s : Script A) where
  -- NewOutputRecord; the class and the number of signatures are cut to eight bits.
  unfoldable pub new_output_record : TxOut → OutputRecord A
  new_output_record txout =
      let found = s.extract_pk_script_addrs txout.pk_script in
      record {
        value = txout.value;
        class = found.class % 256;
        sigs = found.sigs % 256;
        addrs = found.addrs;
      }

  -- The fields of the text of an output
  abbrev pub output_fields : OutputRecord A → List Bytes
  output_fields or =
      format_int or.value
      ∷ parse_class s or.class
      ∷ format_uint or.sigs
      ∷ format_uint (length or.addrs)
      ∷ map (λ addr. s.encode_address addr) or.addrs

  unfoldable pub output_text : OutputRecord A → Bytes
  output_text or = join bar (output_fields or)

  -- NewDetailsRecord
  unfoldable pub new_details_record : MsgTx → DetailsRecord A
  unfolding new_input_record new_output_record
  new_details_record msg = record {
    hash = msg.tx_sha;
    ins = map new_input_record msg.tx_in;
    outs = map new_output_record msg.tx_out;
  }

  -- The fields before the inputs and outputs
  abbrev pub details_fields : DetailsRecord A → List Bytes
  details_fields dr = hex dr.hash ∷ format_uint (length dr.ins) ∷ format_uint (length dr.outs) ∷ []

  unfoldable pub details_text : DetailsRecord A → Bytes
  unfolding input_text output_text
  details_text dr =
      join bar (details_fields dr)
      ++ (each_after comma (map input_text dr.ins) ++ each_after comma (map output_text dr.outs))
