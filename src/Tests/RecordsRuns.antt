-- ===== src/Tests/RecordsRuns.antt =====
-- Runs of the records of records/, of their texts, and of convertor/convertor.go.
use passive_bitcoin.Prelude.{
  ℕ, String, ◌≡◌, ◌↔◌, refl, true, false, [], ◌∷◌, ◌++◌, In, arith, map, codes,
}
use passive_bitcoin.Text.{Bytes, pos}
use passive_bitcoin.Processor.{set_addresses, new_address_filter, valid}
use passive_bitcoin.Processor.Filters.{addresses_of}
use passive_bitcoin.Records.{Texts, Script}
use passive_bitcoin.Records.Items.{InvVect, MsgTx, TxOut}
use passive_bitcoin.Records.Full.{MsgVersion}
use passive_bitcoin.Records.Kinds
use passive_bitcoin.Records.Kinds.{MessageRecord, text}
use passive_bitcoin.Records.Fields.{fields}
use passive_bitcoin.Records.Readable.{read}
use passive_bitcoin.Records.Plain.{PlainTexts, IsReadable, plain_test-IsPlain}
use passive_bitcoin.Records.ReadBack.{read-text}
use passive_bitcoin.Records.Forged
use passive_bitcoin.Records.Forged.{version_line, version_line-forged, newline}
use passive_bitcoin.Records.Kept.{kept, inventory_record_of, inventory_text_iff}
use passive_bitcoin.Convertor
use passive_bitcoin.Convertor.{WireMessage, message}
use passive_bitcoin.Convertor.Filtered.{Names, as_record, message-address_filter_iff}
use passive_bitcoin.Tests.{remote, local}

-- Texts for times and addresses, and a script package whose only address is the text "mine".
abbrev texts : Texts
texts = record {
  format = λ time. codes "now";
  unix = λ time. pos time;
  addr_string = λ addr. codes "addr";
}

abbrev script : Script Bytes
script = record {
  non_standard_ty = 0;
  pub_key_ty = 1;
  pub_key_hash_ty = 2;
  script_hash_ty = 3;
  multi_sig_ty = 4;
  null_data_ty = 5;
  extract_pk_script_addrs = λ pk_script. record { class = 2; addrs = codes "mine" ∷ []; sigs = 1 };
  encode_address = λ addr. codes "mine";
}

texts-PlainTexts : PlainTexts texts script
texts-PlainTexts = record {
  format_plain = λ time. plain_test-IsPlain (codes "now") refl;
  addr_plain = λ addr. plain_test-IsPlain (codes "addr") refl;
  encode_plain = λ addr. plain_test-IsPlain (codes "mine") refl;
}

abbrev inventory : MessageRecord Bytes
inventory = Kinds.inventory_record (record {
  base = record { stamp = 5; la = local; ra = remote; cmd = codes "inv" };
  inv = record { category = 1; hash = 171 ∷ 18 ∷ [] } ∷ [];
})

inventory-IsReadable : IsReadable inventory
inventory-IsReadable = record {
  command_plain = plain_test-IsPlain (codes "inv") refl;
  field_bytes = ((omega arith, (omega arith, tt)), tt);
}

read-text_example : read (text texts script inventory) ≡ fields texts script inventory
read-text_example = read-text texts script texts-PlainTexts inventory inventory-IsReadable

abbrev entry : ℕ → InvVect
entry type = record { type = type; hash = 7 ∷ [] }

inventory_text_iff_example :
    (text texts script
        (inventory_record_of texts script 5 (codes "inv") remote local (entry 1 ∷ []))
      ≡ text texts script
          (inventory_record_of texts script 5 (codes "inv") remote local (entry 257 ∷ [])))
    ↔ (map kept (entry 1 ∷ []) ≡ map kept (entry 257 ∷ []))
inventory_text_iff_example =
    inventory_text_iff texts script 5 (codes "inv") remote local texts-PlainTexts
      (plain_test-IsPlain (codes "inv") refl) (entry 1 ∷ []) (entry 257 ∷ [])
      ((omega arith, tt), tt) ((omega arith, tt), tt)

abbrev greeting : MsgVersion
greeting = record {
  protocol_version = pos 70002;
  services = 1;
  timestamp = 5;
  addr_you = record { ip = local.ip; port = 8333; timestamp = 0; services = 1 };
  addr_me = record { ip = remote.ip; port = 8333; timestamp = 0; services = 1 };
  nonce = 9;
  user_agent = [];
  last_block = pos 100;
  disable_relay_tx = false;
}

version_line-forged_example :
    version_line texts script 5
      (codes "version")
      remote
      local
      (record greeting { user_agent = codes "/x/" ++ (newline ++ text texts script inventory) })
    ≡ version_line texts script 5
        (codes "version")
        remote
        local
        (record greeting { user_agent = codes "/x/" })
      ++ Forged.line texts script inventory
version_line-forged_example =
    version_line-forged texts script 5 (codes "version") remote local greeting (codes "/x/")
      inventory

abbrev command : WireMessage → Bytes
command m = codes "tx"

abbrev names : Names
names = record { string_of = λ b. "mine"; ip_string = λ addr. "203.0.113.7" }

abbrev payment : MsgTx
payment = record {
  tx_sha = 1 ∷ [];
  tx_in = [];
  tx_out = record { value = pos 50; pk_script = [] } ∷ [];
}

abbrev paid : MessageRecord Bytes
paid = Kinds.transaction_record (record {
  base = record { stamp = 5; la = local; ra = remote; cmd = codes "tx" };
  details = record {
    hash = 1 ∷ [];
    ins = [];
    outs = record { value = pos 50; class = 2; sigs = 1; addrs = codes "mine" ∷ [] } ∷ [];
  };
})

message-address_filter_iff_example :
    (valid ⦃i = as_record names script⦄
        (new_address_filter {Q = String} (set_addresses ("mine" ∷ []) ∷ [])).kind
        paid
      ≡ true)
    ↔ ((tx : MsgTx) × (out : TxOut) × (addr : Bytes) × (Convertor.msg_tx payment
          ≡ Convertor.msg_tx tx)
        × In out tx.tx_out
        × In addr (script.extract_pk_script_addrs out.pk_script).addrs
        × In
            (names.string_of (script.encode_address addr))
            (addresses_of [] (set_addresses ("mine" ∷ []) ∷ [])))
unfolding message
message-address_filter_iff_example =
    message-address_filter_iff script 5 command remote local String names
      (set_addresses ("mine" ∷ []) ∷ []) (Convertor.msg_tx payment) paid refl
