-- ===== src/Tracker.antt =====
-- tracker/tracker.go: the hashes of the blocks and transactions that were received, in two maps by
-- their text. The text of a hash (`ShaHash.String`) is an instance argument.
pub mod Known
use passive_bitcoin.Prelude.{Bool, Option, some, [], ◌>>=◌}
use passive_bitcoin.ParMap
use passive_bitcoin.ParMap.{ParMap, Stringer}

pub record Tracker (H : Type 0) : Type 0 where
  pub blocks : ParMap H
  pub txs : ParMap H

module _ {H : Type 0} ⦃s : Stringer H⦄ where
  -- New, which has no options
  unfoldable pub new : Tracker H
  new = record { blocks = ParMap.new []; txs = ParMap.new [] }

  -- AddTx
  unfoldable pub add_tx : Tracker H → H → Option (Tracker H)
  add_tx t hash = do txs ← ParMap.insert t.txs hash; some (record t { txs = txs })

  -- KnowsTx
  unfoldable pub knows_tx : Tracker H → H → Option Bool
  knows_tx t hash = ParMap.has t.txs hash

  -- AddBlock
  unfoldable pub add_block : Tracker H → H → Option (Tracker H)
  add_block t hash = do blocks ← ParMap.insert t.blocks hash; some (record t { blocks = blocks })

  -- KnowsBlock
  unfoldable pub knows_block : Tracker H → H → Option Bool
  knows_block t hash = ParMap.has t.blocks hash
