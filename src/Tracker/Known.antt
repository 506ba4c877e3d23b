-- ===== src/Tracker/Known.antt =====
-- What the tracker knows after its operations.
use passive_bitcoin.Prelude.{
  ◌≡◌, refl, true, false, some, [], arith, str_eq, if◌then◌else◌, is_some,
}
use passive_bitcoin.ParMap
use passive_bitcoin.ParMap.{ParMap, Stringer}
use passive_bitcoin.ParMap.Valid
use passive_bitcoin.ParMap.Lookup.{view, has_key-view, insert-view, new-view}
use passive_bitcoin.Tracker.{Tracker, new, add_tx, knows_tx, add_block, knows_block}

module _ {H : Type 0} ⦃s : Stringer H⦄ where
  pub record IsValid (t : Tracker H) : Type 0 where
    pub blocks_valid : Valid.IsValid t.blocks
    pub txs_valid : Valid.IsValid t.txs

  has-view :
      (pm : ParMap H) (g : H)
      → Valid.IsValid pm
      → ParMap.has pm g ≡ some (is_some (view pm (s.string g)))
  unfolding ParMap.has
  has-view pm g v = has_key-view pm (s.string g) v

  -- A new tracker is valid and knows no transaction and no block.
  pub new-knows :
      (g : H)
      → IsValid (new {H = H})
        × (knows_tx (new {H = H}) g ≡ some false)
        × (knows_block (new {H = H}) g ≡ some false)
  unfolding new knows_tx knows_block
  new-knows g =
      let (v, none_at) = new-view {V = H} [] (unfold ParMap.new in omega arith) in
      (
        record { blocks_valid = v; txs_valid = v },
        rw (has-view (ParMap.new []) g v, none_at),
        rw (has-view (ParMap.new []) g v, none_at),
      )

  -- AddTx does not fail on a valid tracker: afterwards exactly the transactions known before and
  -- those with the text of the new hash are known, and what is known of blocks is unchanged.
  knows-add_tx :
      (t : Tracker H) (h : H)
      → IsValid t
      → (u : Tracker H) × (add_tx t h ≡ some u)
        × IsValid u
        × ((g : H)
            → knows_tx u g ≡ (if str_eq (s.string h) (s.string g) then some true else knows_tx t g))
        × ((g : H) → knows_block u g ≡ knows_block t g)
  unfolding add_tx knows_tx knows_block
  knows-add_tx t h v =
      let (q, e, valid, at) = insert-view t.txs h v.txs_valid in
      (
        record t { txs = q },
        rw e,
        record { blocks_valid = v.blocks_valid; txs_valid = valid },
        λ g. rw (has-view q g valid, has-view t.txs g v.txs_valid, at (s.string g)) (ground arith),
        λ g. refl,
      )

  -- AddBlock does the same for blocks, and leaves what is known of transactions.
  pub knows-add_block :
      (t : Tracker H) (h : H)
      → IsValid t
      → (u : Tracker H) × (add_block t h ≡ some u)
        × IsValid u
        × ((g : H)
            → knows_block u g
              ≡ (if str_eq (s.string h) (s.string g) then some true else knows_block t g))
        × ((g : H) → knows_tx u g ≡ knows_tx t g)
  unfolding add_block knows_tx knows_block
  knows-add_block t h v =
      let (q, e, valid, at) = insert-view t.blocks h v.blocks_valid in
      (
        record t { blocks = q },
        rw e,
        record { blocks_valid = valid; txs_valid = v.txs_valid },
        λ g.
            rw (has-view q g valid, has-view t.blocks g v.blocks_valid, at (s.string g))
              (ground arith),
        λ g. refl,
      )
