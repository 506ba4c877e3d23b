-- ===== src/Records/Plain.antt =====
-- Which records hold no delimiter in a field, and so can be read back from their text.
use passive_bitcoin.Prelude.{
  ℕ, ◌≡◌, refl, Bool, true, false, ◌&&◌, not, ◌==◌, List, [], ◌∷◌, ◌++◌, map, length, All,
  All-append, All-map, arith, codes,
}
use passive_bitcoin.Net.{TcpAddr, Time}
use passive_bitcoin.Text.{Bytes, format_uint, format_bool, hex}
use passive_bitcoin.Text.Codes.{
  IsByte, IsPlain, format_uint-IsPlain, format_int-IsPlain, hex-IsPlain,
}
use passive_bitcoin.Records.{Texts, Script, Base, base_fields, parse_class}
use passive_bitcoin.Records.Items.{
  InputRecord, ItemRecord, EntryRecord, HeaderRecord, OutputRecord, DetailsRecord, header_fields,
  output_fields, details_fields,
}
use passive_bitcoin.Records.Kinds
use passive_bitcoin.Records.Kinds.{MessageRecord, text, base_of}
use passive_bitcoin.Records.Fields.{
  item_fields, input_fields, entry_fields, details_items, blocks_items, or_empty,
}
use passive_bitcoin.Records.Readable.{IsPart}

-- The bytes of the parts of a record
abbrev pub ItemBytes : ItemRecord → Type 0
ItemBytes ir = All IsByte ir.hash

abbrev pub InputBytes : InputRecord → Type 0
InputBytes ir = All IsByte ir.hash

abbrev pub HeaderBytes : HeaderRecord → Type 0
HeaderBytes hr = All IsByte hr.block_hash × All IsByte hr.prev_block × All IsByte hr.merkle_root

abbrev pub DetailsBytes : {A : Type 0} → DetailsRecord A → Type 0
DetailsBytes dr = All IsByte dr.hash × All InputBytes dr.ins

-- Hashes are bytes, and the texts that a peer chooses freely hold no delimiter: the agent of a
-- version record, and the command and the reason of a reject record.
abbrev pub FieldBytes : {A : Type 0} → MessageRecord A → Type 0
FieldBytes (Kinds.inventory_record r) = All ItemBytes r.inv
FieldBytes (Kinds.not_found_record r) = All ItemBytes r.inv
FieldBytes (Kinds.get_data_record r) = All ItemBytes r.items
FieldBytes (Kinds.headers_record r) = All HeaderBytes r.hdrs
FieldBytes (Kinds.get_blocks_record r) = All IsByte r.stop × All (All IsByte) r.hashes
FieldBytes (Kinds.get_headers_record r) = All IsByte r.stop × All (All IsByte) r.hashes
FieldBytes (Kinds.alert_record r) =
    All (All IsByte) r.payload.set_sub_ver
    × All IsByte r.payload.comment
    × All IsByte r.payload.status_bar
    × All IsByte r.payload.reserved
FieldBytes (Kinds.block_record r) = HeaderBytes r.hdr × All DetailsBytes r.details
FieldBytes (Kinds.reject_record r) = IsPlain r.reject × All IsByte r.hash × IsPlain r.reason
FieldBytes (Kinds.transaction_record r) = DetailsBytes r.details
FieldBytes (Kinds.version_record r) = IsPlain r.agent
FieldBytes _ = Unit

-- The command is plain too, as the constants of the wire package are.
pub record IsReadable {A : Type 0} (r : MessageRecord A) : Type 0 where
  pub command_plain : IsPlain (base_of r).cmd
  pub field_bytes : FieldBytes r

-- The texts of times and addresses hold no delimiter.
pub record PlainTexts {A : Type 0} (t : Texts) (s : Script A) : Type 0 where
  pub format_plain : (time : Time) → IsPlain (t.format time)
  pub addr_plain : (addr : TcpAddr) → IsPlain (t.addr_string addr)
  pub encode_plain : (addr : A) → IsPlain (s.encode_address addr)

-- A test for texts that are written out
abbrev plain_test : Bytes → Bool
plain_test [] = true
plain_test (c ∷ cs) = not (c == b'|') && not (c == b',') && not (c == b'\n') && plain_test cs

pub plain_test-IsPlain : (x : Bytes) → plain_test x ≡ true → IsPlain x
plain_test-IsPlain [] h = tt
plain_test-IsPlain (c ∷ cs) h = (
  (λ e. ground arith, λ e. ground arith, λ e. ground arith),
  plain_test-IsPlain cs (ground arith),
)

pub format_bool-IsPlain : (b : Bool) → IsPlain (format_bool b)
format_bool-IsPlain true = plain_test-IsPlain (codes "true") refl
format_bool-IsPlain false = plain_test-IsPlain (codes "false") refl

module _ {A : Type 0} (t : Texts) (s : Script A) where
  parse_class-IsPlain : (class : ℕ) → IsPlain (parse_class s class)
  unfolding parse_class
  parse_class-IsPlain class = plain_test-IsPlain _ (ground arith)

  module _ (p : PlainTexts t s) where
    base-IsPlain : (b : Base) → IsPlain b.cmd → All IsPlain (base_fields t b)
    base-IsPlain b h = (p.format_plain b.stamp, (h, (p.addr_plain b.ra, (p.addr_plain b.la, tt))))

    -- A part that starts with the fields of every record
    pub started :
        (b : Base) (xs : List Bytes)
        → IsPlain b.cmd
        → All IsPlain xs
        → IsPart (base_fields t b ++ xs)
    started b xs h k = record {
      plain = All-append IsPlain (base_fields t b) xs (base-IsPlain b h) k;
      some_field = λ e. cc;
    }

    pub counted : (n : ℕ) → All IsPlain (format_uint n ∷ [])
    counted n = (format_uint-IsPlain n, tt)

    pub item-IsPart : (ir : ItemRecord) → ItemBytes ir → IsPart (item_fields ir)
    item-IsPart ir h = record {
      plain = (format_uint-IsPlain ir.category, (hex-IsPlain ir.hash h, tt));
      some_field = λ e. cc;
    }

    input-IsPart : (ir : InputRecord) → InputBytes ir → IsPart (input_fields ir)
    input-IsPart ir h = record {
      plain = (
        hex-IsPlain ir.hash h,
        (format_uint-IsPlain ir.index, (format_uint-IsPlain ir.sequence, tt)),
      );
      some_field = λ e. cc;
    }

    entry-IsPart : (er : EntryRecord) → IsPart (entry_fields t er)
    entry-IsPart er = record {
      plain = (format_int-IsPlain _, (format_uint-IsPlain er.services, (p.addr_plain er.addr, tt)));
      some_field = λ e. cc;
    }

    pub header-IsPlain : (hr : HeaderRecord) → HeaderBytes hr → All IsPlain (header_fields t hr)
    header-IsPlain hr h = (
      hex-IsPlain hr.block_hash h.0,
      (
        format_int-IsPlain hr.version,
        (
          hex-IsPlain hr.prev_block h.1,
          (
            hex-IsPlain hr.merkle_root h.2,
            (
              format_int-IsPlain _,
              (format_uint-IsPlain hr.bits, (format_uint-IsPlain hr.nonce, counted hr.txn_count)),
            ),
          ),
        ),
      ),
    )

    pub header-IsPart : (hr : HeaderRecord) → HeaderBytes hr → IsPart (header_fields t hr)
    header-IsPart hr h = record { plain = header-IsPlain hr h; some_field = λ e. cc }

    pub hash-IsPart : (h : Bytes) → All IsByte h → IsPart (hex h ∷ [])
    hash-IsPart h b = record { plain = (hex-IsPlain h b, tt); some_field = λ e. cc }

    encoded : (addrs : List A) → All IsPlain (map (λ addr. s.encode_address addr) addrs)
    encoded [] = tt
    encoded (addr ∷ addrs) = (p.encode_plain addr, encoded addrs)

    output-IsPart : (or : OutputRecord A) → IsPart (output_fields s or)
    output-IsPart or = record {
      plain = (
        format_int-IsPlain or.value,
        (
          parse_class-IsPlain or.class,
          (format_uint-IsPlain or.sigs, (format_uint-IsPlain (length or.addrs), encoded or.addrs)),
        ),
      );
      some_field = λ e. cc;
    }

    outputs-IsPart : (ors : List (OutputRecord A)) → All IsPart (map (output_fields s) ors)
    outputs-IsPart [] = tt
    outputs-IsPart (or ∷ ors) = (output-IsPart or, outputs-IsPart ors)

    pub entries-IsPart : (ers : List EntryRecord) → All IsPart (map (entry_fields t) ers)
    entries-IsPart [] = tt
    entries-IsPart (er ∷ ers) = (entry-IsPart er, entries-IsPart ers)

    pub details-IsPlain :
        (dr : DetailsRecord A) → DetailsBytes dr → All IsPlain (details_fields s dr)
    details-IsPlain dr h =
        (hex-IsPlain dr.hash h.0, (format_uint-IsPlain (length dr.ins), counted (length dr.outs)))

    pub items-IsPart : (dr : DetailsRecord A) → DetailsBytes dr → All IsPart (details_items t s dr)
    items-IsPart dr h =
        All-append IsPart (map input_fields dr.ins) _
          (All-map InputBytes IsPart input_fields dr.ins input-IsPart h.1) (outputs-IsPart dr.outs)

    pub blocks-IsPart :
        (drs : List (DetailsRecord A)) → All DetailsBytes drs → All IsPart (blocks_items t s drs)
    blocks-IsPart [] h = tt
    blocks-IsPart (dr ∷ rest) h = (
      record { plain = details-IsPlain dr h.0; some_field = λ e. cc },
      All-append IsPart (details_items t s dr) _ (items-IsPart dr h.0) (blocks-IsPart rest h.1),
    )

    pub or_empty-IsPart : (xs : List Bytes) → All IsPlain xs → IsPart (or_empty xs)
    or_empty-IsPart [] h = record { plain = (tt, tt); some_field = λ e. cc }
    or_empty-IsPart (x ∷ xs) h = record { plain = h; some_field = λ e. cc }
