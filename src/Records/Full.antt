-- ===== src/Records/Full.antt =====
-- The other records: records/record_alert.go, record_block.go, record_reject.go, record_version.go
-- and record_transaction.go, less HasAddress.
use passive_bitcoin.Prelude.{ℕ, Bool, not, List, [], ◌∷◌, ◌++◌, map, length, ◌%◌}
use passive_bitcoin.Net.{TcpAddr, Time}
use passive_bitcoin.Util.{NetAddress, parse_net_address}
use passive_bitcoin.Text.{
  Bytes, ℤ, join, each_after, format_uint, format_int, format_bool, hex, base64,
}
use passive_bitcoin.Records.{Texts, Script, Base, base_fields, bar, comma}
use passive_bitcoin.Records.Items.{
  MsgTx, BlockHeader, HeaderRecord, DetailsRecord, new_header_record, new_details_record,
  header_text, details_text,
}

-- The payload of wire.MsgAlert
pub record Payload : Type 0 where
  pub version : ℤ
  pub relay_until : ℤ
  pub expiration : ℤ
  pub id : ℤ
  pub cancel : ℤ
  pub min_ver : ℤ
  pub max_ver : ℤ
  pub priority : ℤ
  pub set_cancel : List ℤ
  pub set_sub_ver : List Bytes
  pub comment : Bytes
  pub status_bar : Bytes
  pub reserved : Bytes

-- wire.MsgBlock
pub record MsgBlock : Type 0 where
  pub header : BlockHeader
  pub transactions : List MsgTx

-- wire.MsgReject
pub record MsgReject : Type 0 where
  pub code : ℕ
  pub cmd : Bytes
  pub hash : Bytes
  pub reason : Bytes

-- wire.MsgVersion
pub record MsgVersion : Type 0 where
  pub protocol_version : ℤ
  pub services : ℕ
  pub timestamp : Time
  pub addr_you : NetAddress
  pub addr_me : NetAddress
  pub nonce : ℕ
  pub user_agent : Bytes
  pub last_block : ℤ
  pub disable_relay_tx : Bool

-- AlertRecord, whose fields are those of the payload
pub record AlertRecord : Type 0 where
  pub base : Base
  pub payload : Payload

-- BlockRecord
pub record BlockRecord (A : Type 0) : Type 0 where
  pub base : Base
  pub hdr : HeaderRecord
  pub details : List (DetailsRecord A)

-- RejectRecord
pub record RejectRecord : Type 0 where
  pub base : Base
  pub code : ℕ  -- uint8
  pub reject : Bytes
  pub hash : Bytes
  pub reason : Bytes

-- TransactionRecord
pub record TransactionRecord (A : Type 0) : Type 0 where
  pub base : Base
  pub details : DetailsRecord A

-- VersionRecord
pub record VersionRecord : Type 0 where
  pub base : Base
  pub version : ℤ
  pub services : ℕ  -- uint64
  pub sent : Time
  pub raddr : TcpAddr
  pub laddr : TcpAddr
  pub agent : Bytes
  pub block : ℤ
  pub relay : Bool
  pub nonce : ℕ  -- uint64

-- What time.Now and msg.Command return, and the remote and the local address.
module _ (now : Time) (cmd : Bytes) (ra la : TcpAddr) where
  abbrev base_now : Base
  base_now = record { stamp = now; la = la; ra = ra; cmd = cmd }

  -- NewAlertRecord
  unfoldable pub new_alert_record : Payload → AlertRecord
  new_alert_record payload = record { base = base_now; payload = payload }

  -- NewBlockRecord
  unfoldable pub new_block_record : {A : Type 0} → Script A → MsgBlock → BlockRecord A
  unfolding new_header_record new_details_record
  new_block_record s msg = record {
    base = base_now;
    hdr = new_header_record msg.header;
    details = map (new_details_record s) msg.transactions;
  }

  -- NewRejectRecord
  unfoldable pub new_reject_record : MsgReject → RejectRecord
  new_reject_record msg = record {
    base = base_now;
    code = msg.code % 256;
    reject = msg.cmd;
    hash = msg.hash;
    reason = msg.reason;
  }

  -- NewTransactionRecord
  unfoldable pub new_transaction_record : {A : Type 0} → Script A → MsgTx → TransactionRecord A
  unfolding new_details_record
  new_transaction_record s msg = record { base = base_now; details = new_details_record s msg }

  -- NewVersionRecord
  unfoldable pub new_version_record : MsgVersion → VersionRecord
  new_version_record msg = record {
    base = base_now;
    version = msg.protocol_version;
    services = msg.services;
    sent = msg.timestamp;
    raddr = parse_net_address msg.addr_you;
    laddr = parse_net_address msg.addr_me;
    agent = msg.user_agent;
    block = msg.last_block;
    relay = not msg.disable_relay_tx;
    nonce = msg.nonce;
  }

-- String of each record. The numbers of an alert
abbrev pub alert_fields : Texts → AlertRecord → List Bytes
alert_fields t r =
    let p = r.payload in
    base_fields t r.base
    ++ (format_int p.version
        ∷ format_int p.relay_until
        ∷ format_int p.expiration
        ∷ format_int p.id
        ∷ format_int p.cancel
        ∷ format_int p.min_ver
        ∷ format_int p.max_ver
        ∷ format_int p.priority
        ∷ format_uint (length p.set_cancel)
        ∷ format_uint (length p.set_sub_ver)
        ∷ [])

unfoldable pub alert_text : Texts → AlertRecord → Bytes
alert_text t r =
    let p = r.payload in
    join bar (alert_fields t r)
    ++ each_after comma (
        join bar (map format_int p.set_cancel)
        ∷ join bar (map base64 p.set_sub_ver)
        ∷ base64 p.comment
        ∷ base64 p.status_bar
        ∷ base64 p.reserved
        ∷ [])

-- A bar is written after the number of the transactions too.
unfoldable pub block_text : {A : Type 0} → Texts → Script A → BlockRecord A → Bytes
unfolding header_text details_text
block_text t s r =
    join bar
      (base_fields t r.base ++ header_text t r.hdr ∷ format_uint (length r.details) ∷ [] ∷ [])
    ++ each_after comma (map (details_text s) r.details)

unfoldable pub reject_text : Texts → RejectRecord → Bytes
reject_text t r =
    join bar (base_fields t r.base ++ format_uint r.code ∷ r.reject ∷ hex r.hash ∷ r.reason ∷ [])

unfoldable pub transaction_text : {A : Type 0} → Texts → Script A → TransactionRecord A → Bytes
unfolding details_text
transaction_text t s r = join bar (base_fields t r.base ++ details_text s r.details ∷ [])

-- The fields of a version record before the agent
abbrev pub version_fields : Texts → VersionRecord → List Bytes
version_fields t r =
    base_fields t r.base
    ++ (format_int r.version
        ∷ format_uint r.services
        ∷ format_int (t.unix r.sent)
        ∷ t.addr_string r.raddr
        ∷ t.addr_string r.laddr
        ∷ format_int r.block
        ∷ format_bool r.relay
        ∷ format_uint r.nonce
        ∷ [])

unfoldable pub version_text : Texts → VersionRecord → Bytes
version_text t r = join bar (version_fields t r ++ r.agent ∷ [])
