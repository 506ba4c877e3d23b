-- ===== src/Records/Rendered.antt =====
-- The text of a record is made of its fields, whatever its kind.
use mathlib.Core.List.{append-nil, append_assoc, map-append}
use passive_bitcoin.Prelude.{◌≡◌, refl, sym, ap, ◌∙◌, List, [], ◌∷◌, ◌++◌, map, length}
use passive_bitcoin.Text.{Bytes, each_after, join, format_uint, format_int, hex, base64}
use passive_bitcoin.Text.Fields.{later_parts}
use passive_bitcoin.Records.{Texts, Script, base_fields, bar, comma}
use passive_bitcoin.Records.Items.{
  DetailsRecord, item_text, input_text, entry_text, header_text, output_text, details_text,
  header_fields, output_fields, details_fields,
}
use passive_bitcoin.Records.Simple
use passive_bitcoin.Records.Lists
use passive_bitcoin.Records.Full.{alert_fields, version_fields}
use passive_bitcoin.Records.Full
use passive_bitcoin.Records.Kinds
use passive_bitcoin.Records.Kinds.{MessageRecord, text}
use passive_bitcoin.Records.Fields.{
  render, or_empty, item_fields, input_fields, entry_fields, details_items, blocks_items, fields,
}

pub each_after-append :
    (d : Bytes) (xs ys : List Bytes) → each_after d (xs ++ ys) ≡ each_after d xs ++ each_after d ys
each_after-append d [] ys = refl
each_after-append d (x ∷ xs) ys =
    ap (λ r. d ++ (x ++ r)) (each_after-append d xs ys)
    ∙ ap (λ r. d ++ r) (sym (append_assoc x (each_after d xs) (each_after d ys)))
    ∙ sym (append_assoc d (x ++ each_after d xs) (each_after d ys))

-- Parts that are made one by one are written one by one.
each_after-map :
    {X : Type 0} (f : X → Bytes) (g : X → List Bytes) (xs : List X)
    → ((x : X) → f x ≡ join bar (g x))
    → each_after comma (map f xs) ≡ each_after comma (map (join bar) (map g xs))
each_after-map f g [] h = refl
each_after-map f g (x ∷ xs) h = rw (h x, each_after-map f g xs h)

-- A part that is itself fields with bars between them is so many fields.
each_after-join :
    (d x : Bytes) (xs ys : List Bytes)
    → each_after d (join d (x ∷ xs) ∷ ys) ≡ each_after d ((x ∷ xs) ++ ys)
each_after-join d x xs ys =
    ap (λ r. d ++ r)
      (append_assoc x (each_after d xs) (each_after d ys)
        ∙ ap (λ r. x ++ r) (sym (each_after-append d xs ys)))

join-or_empty : (xs : List Bytes) → join bar xs ≡ join bar (or_empty xs)
join-or_empty [] = refl
join-or_empty (x ∷ xs) = refl

-- A last field that is fields with bars, and what follows them
join-nested :
    (x y : Bytes) (xs ys : List Bytes) (rest : Bytes)
    → join bar ((x ∷ xs) ++ (join bar (y ∷ ys) ++ rest) ∷ [])
      ≡ join bar ((x ∷ xs) ++ (y ∷ ys)) ++ rest
join-nested x y xs ys rest =
    let last = (join bar (y ∷ ys) ++ rest) ∷ [] in
    rw (each_after-append bar xs last, each_after-append bar xs (y ∷ ys))
      (simp (append_assoc, append-nil))

-- A field in the middle that is fields with bars
join-middle :
    (x y : Bytes) (xs ys zs : List Bytes)
    → join bar ((x ∷ xs) ++ (join bar (y ∷ ys) ∷ zs)) ≡ join bar ((x ∷ xs) ++ ((y ∷ ys) ++ zs))
join-middle x y xs ys zs =
    ap (λ r. x ++ r)
      (each_after-append bar xs (join bar (y ∷ ys) ∷ zs)
        ∙ ap (λ r. each_after bar xs ++ r) (each_after-join bar y ys zs)
        ∙ sym (each_after-append bar xs ((y ∷ ys) ++ zs)))

ruleset parts_laws = (append_assoc, append-nil, each_after-append, map-append)

module _ {A : Type 0} (t : Texts) (s : Script A) where
  single : (part : List Bytes) → join bar part ≡ render (part ∷ [])
  unfolding render
  single part = sym (append-nil (join bar part))

  listed :
      {X : Type 0} (part : List Bytes) (f : X → Bytes) (g : X → List Bytes) (xs : List X)
      → ((x : X) → f x ≡ join bar (g x))
      → join bar part ++ each_after comma (map f xs) ≡ render (part ∷ map g xs)
  unfolding render
  listed part f g xs h = ap (λ r. join bar part ++ r) (each_after-map f g xs h)

  -- The text of a transaction is its parts, with commas before all but the first.
  details_text-parts :
      (dr : DetailsRecord A)
      → details_text s dr
        ≡ join bar (details_fields s dr) ++ each_after comma (map (join bar) (details_items t s dr))
  unfolding details_text
  details_text-parts dr =
      let ins = each_after-map input_text input_fields dr.ins (λ x. unfold input_text in refl) in
      let outs =
        each_after-map (output_text s) (output_fields s) dr.outs
          (λ x. unfold output_text in refl) in
      rw (ins, outs) (simp parts_laws)

  blocks-parts :
      (drs : List (DetailsRecord A))
      → each_after comma (map (details_text s) drs)
        ≡ each_after comma (map (join bar) (blocks_items t s drs))
  blocks-parts [] = refl
  blocks-parts (dr ∷ rest) = rw (details_text-parts dr, blocks-parts rest) (simp parts_laws)

  -- The text of a record is its fields, with bars and commas between them.
  pub text-render : (r : MessageRecord A) → text t s r ≡ render (fields t s r)
  unfolding text fields
  text-render (Kinds.filter_add_record r) =
      unfold Simple.filter_add_text in single (base_fields t r)
  text-render (Kinds.filter_clear_record r) =
      unfold Simple.filter_clear_text in single (base_fields t r)
  text-render (Kinds.filter_load_record r) =
      unfold Simple.filter_load_text in single (base_fields t r)
  text-render (Kinds.get_addr_record r) = unfold Simple.get_addr_text in single (base_fields t r)
  text-render (Kinds.mem_pool_record r) = unfold Simple.mem_pool_text in single (base_fields t r)
  text-render (Kinds.merkle_block_record r) =
      unfold Simple.merkle_block_text in single (base_fields t r)
  text-render (Kinds.ver_ack_record r) = unfold Simple.ver_ack_text in single (base_fields t r)
  text-render (Kinds.ping_record r) = unfold Simple.ping_text in single _
  text-render (Kinds.pong_record r) = unfold Simple.pong_text in single _
  text-render (Kinds.address_record r) =
      unfold Lists.address_text in
      listed _ (entry_text t) (entry_fields t) r.addrs (λ x. unfold entry_text in refl)
  text-render (Kinds.inventory_record r) =
      unfold Lists.inventory_text in
      listed _ item_text item_fields r.inv (λ x. unfold item_text in refl)
  text-render (Kinds.not_found_record r) =
      unfold Lists.not_found_text in
      listed _ item_text item_fields r.inv (λ x. unfold item_text in refl)
  text-render (Kinds.get_data_record r) =
      unfold Lists.get_data_text in
      listed _ item_text item_fields r.items (λ x. unfold item_text in refl)
  text-render (Kinds.headers_record r) =
      unfold Lists.headers_text in
      listed _ (header_text t) (header_fields t) r.hdrs (λ x. unfold header_text in refl)
  text-render (Kinds.get_blocks_record r) =
      unfold Lists.get_blocks_text in
      listed _ hex (λ h. hex h ∷ []) r.hashes (λ x. sym (append-nil (hex x)))
  text-render (Kinds.get_headers_record r) =
      unfold Lists.get_headers_text in
      listed _ hex (λ h. hex h ∷ []) r.hashes (λ x. sym (append-nil (hex x)))
  text-render (Kinds.alert_record r) =
      let p = r.payload in
      let cancels = join-or_empty (map format_int p.set_cancel) in
      let sub_vers = join-or_empty (map base64 p.set_sub_ver) in
      unfold Full.alert_text render in rw (cancels, sub_vers) (simp append-nil)
  text-render (Kinds.block_record r) =
      let b = r.base in
      let h = r.hdr in
      let headed =
        join-middle (t.format b.stamp) (hex h.block_hash)
          (b.cmd ∷ t.addr_string b.ra ∷ t.addr_string b.la ∷ []) (later_parts (header_fields t h))
          (format_uint (length r.details) ∷ [] ∷ []) in
      unfold Full.block_text header_text render in
      ap (λ front. front ++ each_after comma (map (details_text s) r.details)) headed
      ∙ ap
          (λ rest.
            join bar
              (base_fields t b ++ (header_fields t h ++ format_uint (length r.details) ∷ [] ∷ []))
            ++ rest)
          (blocks-parts r.details)
  text-render (Kinds.reject_record r) = unfold Full.reject_text in single _
  text-render (Kinds.transaction_record r) =
      let b = r.base in
      let items = each_after comma (map (join bar) (details_items t s r.details)) in
      let nested =
        join-nested (t.format b.stamp) (hex r.details.hash)
          (b.cmd ∷ t.addr_string b.ra ∷ t.addr_string b.la ∷ [])
          (later_parts (details_fields s r.details)) items in
      unfold Full.transaction_text render in
      ap (λ d. join bar (base_fields t b ++ d ∷ [])) (details_text-parts r.details) ∙ nested
  text-render (Kinds.version_record r) = unfold Full.version_text in single _
