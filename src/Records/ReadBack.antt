-- ===== src/Records/ReadBack.antt =====
-- Reading the text of a record back, and what a peer can do to the lines with the texts it chooses.
use passive_bitcoin.Prelude.{
  ℕ, ◌≡◌, ◌≢◌, ap, ◌∙◌, List, [], ◌∷◌, ◌++◌, map, length, All, All-append, All-map,
}
use passive_bitcoin.Text.{Bytes, ℤ, format_uint, format_int, hex, base64}
use passive_bitcoin.Text.Codes.{
  IsByte, IsPlain, format_uint-IsPlain, format_int-IsPlain, hex-IsPlain, base64-IsPlain,
}
use passive_bitcoin.Records.{Texts, Script, Base, base_fields}
use passive_bitcoin.Records.Items.{header_fields}
use passive_bitcoin.Records.Kinds
use passive_bitcoin.Records.Kinds.{MessageRecord, text, base_of}
use passive_bitcoin.Records.Fields.{fields, item_fields, entry_fields}
use passive_bitcoin.Records.Rendered.{text-render}
use passive_bitcoin.Records.Readable.{read, IsPart, read-render}
use passive_bitcoin.Records.Plain.{
  PlainTexts, IsReadable, started, counted, item-IsPart, entries-IsPart, header-IsPlain,
  header-IsPart, hash-IsPart, details-IsPlain, items-IsPart, blocks-IsPart, or_empty-IsPart,
  format_bool-IsPlain, ItemBytes, HeaderBytes,
}

module _ {A : Type 0} (t : Texts) (s : Script A) (p : PlainTexts t s) where
  ints-IsPlain : (is : List ℤ) → All IsPlain (map format_int is)
  ints-IsPlain [] = tt
  ints-IsPlain (i ∷ is) = (format_int-IsPlain i, ints-IsPlain is)

  -- The command and what follows it, of a record that ends with a list
  listed-IsPart :
      {X : Type 0} (b : Base) (n : ℕ) (g : X → List Bytes) (xs : List X)
      → IsPlain b.cmd
      → All IsPart (map g xs)
      → All IsPart ((base_fields t b ++ format_uint n ∷ []) ∷ map g xs)
  listed-IsPart b n g xs h k = (started t s p b _ h (counted t s p n), k)

  alone-IsPart : (b : Base) → IsPlain b.cmd → All IsPart (base_fields t b ∷ [])
  alone-IsPart b h = (started t s p b [] h tt, tt)

  fields-IsPart : (r : MessageRecord A) → IsReadable r → All IsPart (fields t s r)
  unfolding fields
  fields-IsPart (Kinds.filter_add_record r) h = alone-IsPart r h.command_plain
  fields-IsPart (Kinds.filter_clear_record r) h = alone-IsPart r h.command_plain
  fields-IsPart (Kinds.filter_load_record r) h = alone-IsPart r h.command_plain
  fields-IsPart (Kinds.get_addr_record r) h = alone-IsPart r h.command_plain
  fields-IsPart (Kinds.mem_pool_record r) h = alone-IsPart r h.command_plain
  fields-IsPart (Kinds.merkle_block_record r) h = alone-IsPart r h.command_plain
  fields-IsPart (Kinds.ver_ack_record r) h = alone-IsPart r h.command_plain
  fields-IsPart (Kinds.ping_record r) h =
      (started t s p r.base _ h.command_plain (counted t s p r.nonce), tt)
  fields-IsPart (Kinds.pong_record r) h =
      (started t s p r.base _ h.command_plain (counted t s p r.nonce), tt)
  fields-IsPart (Kinds.address_record r) h =
      listed-IsPart r.base _ (entry_fields t) r.addrs h.command_plain (entries-IsPart t s p r.addrs)
  fields-IsPart (Kinds.inventory_record r) h =
      listed-IsPart r.base _ item_fields r.inv h.command_plain
        (All-map ItemBytes IsPart item_fields r.inv (item-IsPart t s p) h.field_bytes)
  fields-IsPart (Kinds.not_found_record r) h =
      listed-IsPart r.base _ item_fields r.inv h.command_plain
        (All-map ItemBytes IsPart item_fields r.inv (item-IsPart t s p) h.field_bytes)
  fields-IsPart (Kinds.get_data_record r) h =
      listed-IsPart r.base _ item_fields r.items h.command_plain
        (All-map ItemBytes IsPart item_fields r.items (item-IsPart t s p) h.field_bytes)
  fields-IsPart (Kinds.headers_record r) h =
      listed-IsPart r.base _ (header_fields t) r.hdrs h.command_plain
        (All-map HeaderBytes IsPart (header_fields t) r.hdrs (header-IsPart t s p) h.field_bytes)
  fields-IsPart (Kinds.get_blocks_record r) h = (
    started t s p r.base _ h.command_plain (hex-IsPlain r.stop h.field_bytes.0, counted t s p _),
    All-map (All IsByte) IsPart (λ x. hex x ∷ []) r.hashes (hash-IsPart t s p) h.field_bytes.1,
  )
  fields-IsPart (Kinds.get_headers_record r) h = (
    started t s p r.base _ h.command_plain (hex-IsPlain r.stop h.field_bytes.0, counted t s p _),
    All-map (All IsByte) IsPart (λ x. hex x ∷ []) r.hashes (hash-IsPart t s p) h.field_bytes.1,
  )
  fields-IsPart (Kinds.alert_record r) h =
      let q = r.payload in
      let b = h.field_bytes in
      (
        started t s p r.base _ h.command_plain (
          format_int-IsPlain q.version,
          (
            format_int-IsPlain q.relay_until,
            (
              format_int-IsPlain q.expiration,
              (
                format_int-IsPlain q.id,
                (
                  format_int-IsPlain q.cancel,
                  (
                    format_int-IsPlain q.min_ver,
                    (
                      format_int-IsPlain q.max_ver,
                      (
                        format_int-IsPlain q.priority,
                        (
                          format_uint-IsPlain (length q.set_cancel),
                          counted t s p (length q.set_sub_ver),
                        ),
                      ),
                    ),
                  ),
                ),
              ),
            ),
          ),
        ),
        (
          or_empty-IsPart t s p _ (ints-IsPlain q.set_cancel),
          (
            or_empty-IsPart t s p _
                (All-map (All IsByte) IsPlain base64 q.set_sub_ver base64-IsPlain b.0),
            (
              record { plain = (base64-IsPlain q.comment b.1, tt); some_field = λ e. cc },
              (
                record { plain = (base64-IsPlain q.status_bar b.2, tt); some_field = λ e. cc },
                (record { plain = (base64-IsPlain q.reserved b.3, tt); some_field = λ e. cc }, tt),
              ),
            ),
          ),
        ),
      )
  fields-IsPart (Kinds.block_record r) h = (
    started t s p r.base _ h.command_plain (
        All-append IsPlain (header_fields t r.hdr) (format_uint (length r.details) ∷ [] ∷ [])
          (header-IsPlain t s p r.hdr h.field_bytes.0)
          (format_uint-IsPlain (length r.details), (tt, tt))),
    blocks-IsPart t s p r.details h.field_bytes.1,
  )
  fields-IsPart (Kinds.reject_record r) h = (
    started t s p r.base _ h.command_plain (
      format_uint-IsPlain r.code,
      (h.field_bytes.0, (hex-IsPlain r.hash h.field_bytes.1, (h.field_bytes.2, tt))),
    ),
    tt,
  )
  fields-IsPart (Kinds.transaction_record r) h = (
    started t s p r.base _ h.command_plain (details-IsPlain t s p r.details h.field_bytes),
    items-IsPart t s p r.details h.field_bytes,
  )
  fields-IsPart (Kinds.version_record r) h = (
    started t s p r.base _ h.command_plain (
      format_int-IsPlain r.version,
      (
        format_uint-IsPlain r.services,
        (
          format_int-IsPlain (t.unix r.sent),
          (
            p.addr_plain r.raddr,
            (
              p.addr_plain r.laddr,
              (
                format_int-IsPlain r.block,
                (format_bool-IsPlain r.relay, (format_uint-IsPlain r.nonce, (h.field_bytes, tt))),
              ),
            ),
          ),
        ),
      ),
    ),
    tt,
  )

  fields-ne-nil : (r : MessageRecord A) → fields t s r ≢ []
  unfolding fields
  fields-ne-nil (Kinds.filter_add_record r) e = cc
  fields-ne-nil (Kinds.filter_clear_record r) e = cc
  fields-ne-nil (Kinds.filter_load_record r) e = cc
  fields-ne-nil (Kinds.get_addr_record r) e = cc
  fields-ne-nil (Kinds.mem_pool_record r) e = cc
  fields-ne-nil (Kinds.merkle_block_record r) e = cc
  fields-ne-nil (Kinds.ver_ack_record r) e = cc
  fields-ne-nil (Kinds.ping_record r) e = cc
  fields-ne-nil (Kinds.pong_record r) e = cc
  fields-ne-nil (Kinds.address_record r) e = cc
  fields-ne-nil (Kinds.inventory_record r) e = cc
  fields-ne-nil (Kinds.not_found_record r) e = cc
  fields-ne-nil (Kinds.get_data_record r) e = cc
  fields-ne-nil (Kinds.headers_record r) e = cc
  fields-ne-nil (Kinds.get_blocks_record r) e = cc
  fields-ne-nil (Kinds.get_headers_record r) e = cc
  fields-ne-nil (Kinds.alert_record r) e = cc
  fields-ne-nil (Kinds.block_record r) e = cc
  fields-ne-nil (Kinds.reject_record r) e = cc
  fields-ne-nil (Kinds.transaction_record r) e = cc
  fields-ne-nil (Kinds.version_record r) e = cc

  -- The fields of a record that is readable, of whatever kind, are got back by splitting its text at
  -- the commas and each part at the bars, if the texts of times and addresses hold no delimiter.
  pub read-text : (r : MessageRecord A) → IsReadable r → read (text t s r) ≡ fields t s r
  read-text r h =
      ap read (text-render t s r) ∙ read-render (fields t s r) (fields-ne-nil r) (fields-IsPart r h)
