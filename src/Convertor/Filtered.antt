-- ===== src/Convertor/Filtered.antt =====
-- What becomes of a message: the part that its record embeds, and which messages the address filter
-- lets through. `Names` stands for a text as a string and for RemoteAddress().IP.String().
use passive_bitcoin.Prelude.{
  In-map, String, ◌≡◌, ◌↔◌, refl, sym, ap, ◌∙◌, Bool, true, false, Option, none, some, List, [],
  ◌∷◌, map, In, if◌then◌else◌, subst, some-injective,
}
use passive_bitcoin.Net.{TcpAddr, Time}
use passive_bitcoin.Text.{Bytes}
use passive_bitcoin.Records.{Script, Base}
use passive_bitcoin.Records.Items.{MsgTx, TxOut, new_output_record, new_details_record}
use passive_bitcoin.Records.Simple
use passive_bitcoin.Records.Lists
use passive_bitcoin.Records.Full
use passive_bitcoin.Records.Kinds
use passive_bitcoin.Records.Kinds.{MessageRecord, base_of}
use passive_bitcoin.Processor.{Record, Setting, new_address_filter, valid}
use passive_bitcoin.Processor.Filters.{addresses_of, address_filter_iff}
use passive_bitcoin.Convertor.{WireMessage, message, msg_tx}
use passive_bitcoin.Convertor

-- Whether the switch has a case for the message.
abbrev pub is_recorded : WireMessage → Bool
is_recorded Convertor.other_message = false
is_recorded _ = true

abbrev pub optional_base : {A : Type 0} → Option (MessageRecord A) → Option Base
optional_base none = none
optional_base (some r) = some (base_of r)

pub record Names : Type 0 where
  pub string_of : Bytes → String
  pub ip_string : TcpAddr → String

module _ {A : Type 0} (n : Names) (s : Script A) where
  -- Addresses as the strings that they are compared as
  abbrev pub encoded : List A → List String
  encoded addrs = map (λ addr. n.string_of (s.encode_address addr)) addrs

  -- The encoded addresses of the outputs, of a transaction record
  abbrev pub outputs_of : MessageRecord A → Option (List (List String))
  outputs_of (Kinds.transaction_record r) = some (map (λ or. encoded or.addrs) r.details.outs)
  outputs_of _ = none

  -- The records of messages, as the filters use them
  abbrev pub as_record : Record (MessageRecord A)
  as_record = record {
    command = λ r. n.string_of (base_of r).cmd;
    remote_ip = λ r. n.ip_string (base_of r).ra;
    outputs = outputs_of;
  }

  abbrev optional_outputs : Option (MessageRecord A) → Option (List (List String))
  optional_outputs none = none
  optional_outputs (some r) = outputs_of r

  -- The encoded addresses of the outputs, of a message that is a transaction
  abbrev sent_outputs : WireMessage → Option (List (List String))
  sent_outputs (msg_tx tx) =
      some (map (λ out. encoded (s.extract_pk_script_addrs out.pk_script).addrs) tx.tx_out)
  sent_outputs _ = none

module _ {A : Type 0} (s : Script A) (now : Time) (command : WireMessage → Bytes)
    (ra la : TcpAddr) where
  -- The record of a message of a known type holds the time, the command and both addresses,
  -- whatever the type is, and a message of another type has no record.
  message-base :
      (msg : WireMessage)
      → optional_base (message s now command msg ra la) ≡ (
          if is_recorded msg
          then some (record { stamp = now; la = la; ra = ra; cmd = command msg })
          else none)
  unfolding message Simple.new_filter_add_record Simple.new_filter_clear_record
      Simple.new_filter_load_record Simple.new_get_addr_record Simple.new_mem_pool_record
      Simple.new_merkle_block_record Simple.new_ver_ack_record Simple.new_ping_record
      Simple.new_pong_record Lists.new_address_record Lists.new_inventory_record
      Lists.new_not_found_record Lists.new_get_data_record Lists.new_headers_record
      Lists.new_get_blocks_record Lists.new_get_headers_record Full.new_alert_record
      Full.new_block_record Full.new_reject_record Full.new_transaction_record
      Full.new_version_record
  message-base (Convertor.msg_addr m) = refl
  message-base (Convertor.msg_alert m) = refl
  message-base (Convertor.msg_block m) = refl
  message-base (Convertor.msg_headers m) = refl
  message-base (Convertor.msg_inv m) = refl
  message-base (Convertor.msg_ping m) = refl
  message-base (Convertor.msg_pong m) = refl
  message-base (Convertor.msg_reject m) = refl
  message-base (Convertor.msg_version m) = refl
  message-base (Convertor.msg_tx m) = refl
  message-base Convertor.msg_filter_add = refl
  message-base Convertor.msg_filter_clear = refl
  message-base Convertor.msg_filter_load = refl
  message-base Convertor.msg_get_addr = refl
  message-base (Convertor.msg_get_blocks m) = refl
  message-base (Convertor.msg_get_data m) = refl
  message-base (Convertor.msg_get_headers m) = refl
  message-base Convertor.msg_mem_pool = refl
  message-base Convertor.msg_merkle_block = refl
  message-base (Convertor.msg_not_found m) = refl
  message-base Convertor.msg_ver_ack = refl
  message-base Convertor.other_message = refl

  outs-map :
      (n : Names) (outs : List TxOut)
      → map (λ or. encoded n s or.addrs) (map (new_output_record s) outs)
        ≡ map (λ out. encoded n s (s.extract_pk_script_addrs out.pk_script).addrs) outs
  unfolding new_output_record
  outs-map n [] = refl
  outs-map n (out ∷ outs) =
      ap (λ r. encoded n s (s.extract_pk_script_addrs out.pk_script).addrs ∷ r) (outs-map n outs)

  message-outputs :
      (n : Names) (msg : WireMessage)
      → optional_outputs n s (message s now command msg ra la) ≡ sent_outputs n s msg
  unfolding message new_details_record Simple.new_filter_add_record Simple.new_filter_clear_record
      Simple.new_filter_load_record Simple.new_get_addr_record Simple.new_mem_pool_record
      Simple.new_merkle_block_record Simple.new_ver_ack_record Simple.new_ping_record
      Simple.new_pong_record Lists.new_address_record Lists.new_inventory_record
      Lists.new_not_found_record Lists.new_get_data_record Lists.new_headers_record
      Lists.new_get_blocks_record Lists.new_get_headers_record Full.new_alert_record
      Full.new_block_record Full.new_reject_record Full.new_transaction_record
      Full.new_version_record
  message-outputs n (Convertor.msg_addr m) = refl
  message-outputs n (Convertor.msg_alert m) = refl
  message-outputs n (Convertor.msg_block m) = refl
  message-outputs n (Convertor.msg_headers m) = refl
  message-outputs n (Convertor.msg_inv m) = refl
  message-outputs n (Convertor.msg_ping m) = refl
  message-outputs n (Convertor.msg_pong m) = refl
  message-outputs n (Convertor.msg_reject m) = refl
  message-outputs n (Convertor.msg_version m) = refl
  message-outputs n (Convertor.msg_tx m) = ap some (outs-map n m.tx_out)
  message-outputs n Convertor.msg_filter_add = refl
  message-outputs n Convertor.msg_filter_clear = refl
  message-outputs n Convertor.msg_filter_load = refl
  message-outputs n Convertor.msg_get_addr = refl
  message-outputs n (Convertor.msg_get_blocks m) = refl
  message-outputs n (Convertor.msg_get_data m) = refl
  message-outputs n (Convertor.msg_get_headers m) = refl
  message-outputs n Convertor.msg_mem_pool = refl
  message-outputs n Convertor.msg_merkle_block = refl
  message-outputs n (Convertor.msg_not_found m) = refl
  message-outputs n Convertor.msg_ver_ack = refl
  message-outputs n Convertor.other_message = refl

  -- Only a transaction has outputs.
  sent-tx :
      (n : Names) (msg : WireMessage) (outs : List (List String))
      → sent_outputs n s msg ≡ some outs
      → (tx : MsgTx) × (msg ≡ msg_tx tx)
        × (map (λ out. encoded n s (s.extract_pk_script_addrs out.pk_script).addrs) tx.tx_out
            ≡ outs)
  sent-tx n (Convertor.msg_addr m) outs h = cc
  sent-tx n (Convertor.msg_alert m) outs h = cc
  sent-tx n (Convertor.msg_block m) outs h = cc
  sent-tx n (Convertor.msg_headers m) outs h = cc
  sent-tx n (Convertor.msg_inv m) outs h = cc
  sent-tx n (Convertor.msg_ping m) outs h = cc
  sent-tx n (Convertor.msg_pong m) outs h = cc
  sent-tx n (Convertor.msg_reject m) outs h = cc
  sent-tx n (Convertor.msg_version m) outs h = cc
  sent-tx n (Convertor.msg_tx m) outs h = (
    m,
    refl,
    some-injective
        (map (λ out. encoded n s (s.extract_pk_script_addrs out.pk_script).addrs) m.tx_out) outs h,
  )
  sent-tx n Convertor.msg_filter_add outs h = cc
  sent-tx n Convertor.msg_filter_clear outs h = cc
  sent-tx n Convertor.msg_filter_load outs h = cc
  sent-tx n Convertor.msg_get_addr outs h = cc
  sent-tx n (Convertor.msg_get_blocks m) outs h = cc
  sent-tx n (Convertor.msg_get_data m) outs h = cc
  sent-tx n (Convertor.msg_get_headers m) outs h = cc
  sent-tx n Convertor.msg_mem_pool outs h = cc
  sent-tx n Convertor.msg_merkle_block outs h = cc
  sent-tx n (Convertor.msg_not_found m) outs h = cc
  sent-tx n Convertor.msg_ver_ack outs h = cc
  sent-tx n Convertor.other_message outs h = cc

  -- The record of a message passes a new address filter exactly if the message is a transaction and
  -- the script of one of its outputs holds an address, whose encoded form is one of the addresses
  -- of the last option that gave addresses.
  pub message-address_filter_iff :
      (Q : Type 0) (n : Names) (settings : List Setting) (msg : WireMessage) (r : MessageRecord A)
      → message s now command msg ra la ≡ some r
      → (valid ⦃i = as_record n s⦄ (new_address_filter {Q = Q} settings).kind r ≡ true) ↔ (
          (tx : MsgTx) × (out : TxOut) × (addr : A) × (msg ≡ msg_tx tx)
          × In out tx.tx_out
          × In addr (s.extract_pk_script_addrs out.pk_script).addrs
          × In (n.string_of (s.encode_address addr)) (addresses_of [] settings))
  message-address_filter_iff Q n settings msg r h =
      let (to, from) = address_filter_iff ⦃i = as_record n s⦄ Q settings r in
      let sent : outputs_of n s r ≡ sent_outputs n s msg =
        sym (ap (optional_outputs n s) h) ∙ message-outputs n msg in
      (
        λ v.
            let (outs, addrs, a, e, m, m', m'') = to v in
            let (tx, is_tx, same) = sent-tx n msg outs (sym sent ∙ e) in
            let (out, here, eq) =
              (In-map (λ out. encoded n s (s.extract_pk_script_addrs out.pk_script).addrs) addrs
                  tx.tx_out).0
                (subst (λ l. In addrs l) (sym same) m) in
            let (addr, here', eq') =
              (In-map (λ addr. n.string_of (s.encode_address addr)) a
                  (s.extract_pk_script_addrs out.pk_script).addrs).0
                (subst (λ l. In a l) (sym eq) m') in
            (
              tx,
              out,
              addr,
              is_tx,
              here,
              here',
              subst (λ x. In x (addresses_of [] settings)) (sym eq') m'',
            ),
        λ (tx, out, addr, e, m, m', m''). from (
          map (λ o. encoded n s (s.extract_pk_script_addrs o.pk_script).addrs) tx.tx_out,
          encoded n s (s.extract_pk_script_addrs out.pk_script).addrs,
          n.string_of (s.encode_address addr),
          sent ∙ ap (sent_outputs n s) e,
          (In-map (λ o. encoded n s (s.extract_pk_script_addrs o.pk_script).addrs) _ tx.tx_out).1
              (out, m, refl),
          (In-map (λ x. n.string_of (s.encode_address x)) _
                (s.extract_pk_script_addrs out.pk_script).addrs).1
              (addr, m', refl),
          m'',
        ),
      )
