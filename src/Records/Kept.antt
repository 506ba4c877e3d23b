-- ===== src/Records/Kept.antt =====
-- What the text of an inventory record keeps of the message.
use passive_bitcoin.Prelude.{ℕ, ◌≡◌, ◌↔◌, refl, sym, ap, ◌∙◌, List, [], ◌∷◌, map, All, ◌%◌}
use passive_bitcoin.Net.{TcpAddr, Time}
use passive_bitcoin.Text.{Bytes, format_uint, hex}
use passive_bitcoin.Text.Numbers.{format_uint-injective}
use passive_bitcoin.Text.Codes.{IsByte, IsPlain, unhex, unhex-hex}
use passive_bitcoin.Records.{Texts, Script}
use passive_bitcoin.Records.Items.{InvVect, new_item_record}
use passive_bitcoin.Records.Lists.{new_inventory_record}
use passive_bitcoin.Records.Kinds
use passive_bitcoin.Records.Kinds.{MessageRecord, text}
use passive_bitcoin.Records.Fields.{Parts, fields, item_fields}
use passive_bitcoin.Records.Readable.{read}
use passive_bitcoin.Records.Plain.{PlainTexts, ItemBytes}
use passive_bitcoin.Records.ReadBack.{read-text}

-- The type of an entry cut to eight bits, and its hash
abbrev pub kept : InvVect → ℕ × Bytes
kept v = (v.type % 256, v.hash)

abbrev pub VectBytes : InvVect → Type 0
VectBytes v = All IsByte v.hash

-- The parts after the first
abbrev after_first : Parts → Parts
after_first [] = []
after_first (part ∷ parts) = parts

items-kept :
    (vs ws : List InvVect)
    → All VectBytes vs
    → All VectBytes ws
    → map item_fields (map new_item_record vs) ≡ map item_fields (map new_item_record ws)
    → map kept vs ≡ map kept ws
unfolding new_item_record
items-kept [] [] hv hw e = refl
items-kept [] (w ∷ ws) hv hw e = cc
items-kept (v ∷ vs) [] hv hw e = cc
items-kept (v ∷ vs) (w ∷ ws) hv hw e =
    let number : format_uint (v.type % 256) ≡ format_uint (w.type % 256) = cc e in
    let bytes : hex v.hash ≡ hex w.hash = cc e in
    let rest : map item_fields (map new_item_record vs) ≡ map item_fields (map new_item_record ws) =
      cc e in
    let types = format_uint-injective _ _ number in
    let hashes : v.hash ≡ w.hash =
      sym (unhex-hex v.hash hv.0) ∙ ap unhex bytes ∙ unhex-hex w.hash hw.0 in
    cc (types, hashes, items-kept vs ws hv.1 hw.1 rest)

kept-items :
    (vs ws : List InvVect)
    → map kept vs ≡ map kept ws
    → map new_item_record vs ≡ map new_item_record ws
unfolding new_item_record
kept-items [] [] e = refl
kept-items [] (w ∷ ws) e = cc
kept-items (v ∷ vs) [] e = cc
kept-items (v ∷ vs) (w ∷ ws) e =
    let same : kept v ≡ kept w = cc e in
    let rest : map kept vs ≡ map kept ws = cc e in
    let first : new_item_record v ≡ new_item_record w =
      ap (λ k. record { category = k.0; hash = k.1 }) same in
    cc (first, kept-items vs ws rest)

item-bytes : (vs : List InvVect) → All VectBytes vs → All ItemBytes (map new_item_record vs)
unfolding new_item_record
item-bytes [] h = tt
item-bytes (v ∷ vs) h = (h.0, item-bytes vs h.1)

module _ {A : Type 0} (t : Texts) (s : Script A) (now : Time) (cmd : Bytes) (ra la : TcpAddr) where
  abbrev pub inventory_record_of : List InvVect → MessageRecord A
  inventory_record_of vs = Kinds.inventory_record (new_inventory_record now cmd ra la vs)

  -- Two inventories with hashes of bytes, logged at one time between two addresses under a plain
  -- command, have equal texts exactly if they list the same hashes in the same order, with types
  -- that are equal up to multiples of 256.
  pub inventory_text_iff :
      PlainTexts t s
      → IsPlain cmd
      → (vs ws : List InvVect) → All VectBytes vs
      → All VectBytes ws
      → (text t s (inventory_record_of vs) ≡ text t s (inventory_record_of ws))
        ↔ (map kept vs ≡ map kept ws)
  unfolding new_inventory_record
  inventory_text_iff p plain vs ws hv hw =
      let read_of = λ (us : List InvVect) (h : All VectBytes us).
        read-text t s p (inventory_record_of us)
          (record { command_plain = plain; field_bytes = item-bytes us h }) in
      let parts = λ (e : text t s (inventory_record_of vs) ≡ text t s (inventory_record_of ws)).
        sym (read_of vs hv) ∙ ap read e ∙ read_of ws hw in
      (
        λ e. unfold fields in items-kept vs ws hv hw (ap after_first (parts e)),
        λ e.
            ap
              (λ items. text t s (
                Kinds.inventory_record (record {
                  base = record { stamp = now; la = la; ra = ra; cmd = cmd };
                  inv = items;
                })))
              (kept-items vs ws e),
      )
