-- ===== src/Records.antt =====
-- records/: the records of the messages and the texts that they are written as. A struct is a
-- record with the source's fields; New... takes what time.Now, msg.Command and the arguments give;
-- String is a function `..._text`, a buffer to which fields are written with a delimiter between
-- them. The parts of a record are in `Records.Items`, the proofs in the modules after `Kinds`.
pub mod Items
pub mod Simple
pub mod Lists
pub mod Full
pub mod Kinds
pub mod Fields
pub mod Rendered
pub mod Readable
pub mod Plain
pub mod ReadBack
pub mod Kept
pub mod Published
pub mod Forged
use passive_bitcoin.Prelude.{ℕ, List, [], ◌∷◌, ◌==◌, if◌then◌else◌, codes}
use passive_bitcoin.Net.{TcpAddr, Time}
use passive_bitcoin.Text.{Bytes, ℤ, join}

-- Delimiter1 and Delimiter3, which are the same, and Delimiter2
abbrev pub bar : Bytes
bar = b'|' ∷ []

abbrev pub comma : Bytes
comma = b',' ∷ []

-- The texts of times and addresses: Format(time.RFC3339Nano), Unix() and TCPAddr.String().
pub record Texts : Type 0 where
  pub format : Time → Bytes
  pub unix : Time → ℤ
  pub addr_string : TcpAddr → Bytes

-- The script classes of the txscript package, and what ExtractPkScriptAddrs returns for a script:
-- the class, the addresses, and the number of signatures. `A` is btcutil.Address.
pub record Extracted (A : Type 0) : Type 0 where
  pub class : ℕ
  pub addrs : List A
  pub sigs : ℕ

pub record Script (A : Type 0) : Type 0 where
  pub non_standard_ty : ℕ
  pub pub_key_ty : ℕ
  pub pub_key_hash_ty : ℕ
  pub script_hash_ty : ℕ
  pub multi_sig_ty : ℕ
  pub null_data_ty : ℕ
  pub extract_pk_script_addrs : Bytes → Extracted A
  pub encode_address : A → Bytes

-- ParseClass
unfoldable pub parse_class : {A : Type 0} → Script A → ℕ → Bytes
parse_class s class =
    if class == s.non_standard_ty
    then codes "nonstandard"
    else if class == s.pub_key_ty
    then codes "pubkey"
    else if class == s.pub_key_hash_ty
    then codes "pubkeyhash"
    else if class == s.script_hash_ty
    then codes "scripthash"
    else if class == s.multi_sig_ty
    then codes "multisig"
    else if class == s.null_data_ty
    then codes "nulldata"
    else codes "invalid"

-- Record, which every record of a message embeds
pub record Base : Type 0 where
  pub stamp : Time
  pub la : TcpAddr
  pub ra : TcpAddr
  pub cmd : Bytes

-- The fields that every text starts with
abbrev pub base_fields : Texts → Base → List Bytes
base_fields t b = t.format b.stamp ∷ b.cmd ∷ t.addr_string b.ra ∷ t.addr_string b.la ∷ []
