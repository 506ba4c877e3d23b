-- ===== src/Processor.antt =====
-- processor/processor_default.go, processor_dummy.go, filter_address.go, filter_command.go and
-- filter_ip.go: the processors by their kind, their options, and what a filter does with a record.
-- The writers are in the modules `FileWriter` and `Sinks`.
pub mod Types
pub mod Filters
pub mod Routes
pub mod Pipeline
pub mod FileWriter
pub mod Sinks
use mathlib.Core.List.{foldl}
use passive_bitcoin.Prelude.{
  ℕ, String, Bool, true, false, Option, none, some, List, [], ◌∷◌, ◌++◌, str_eq, if◌then◌else◌, any,
  map,
}
use passive_bitcoin.Assoc
use passive_bitcoin.Assoc.{Assoc}

-- ProcessorType
pub data ProcessorType : Type 0 where
  address_filter_type command_filter_type ip_filter_type : ProcessorType
  file_writer_type redis_writer_type zero_mq_writer_type : ProcessorType

-- ParseType; `none` is its error.
unfoldable pub parse_type : String → Option ProcessorType
parse_type processor =
    if str_eq processor "ADDRESS_FILTER"
    then some address_filter_type
    else if str_eq processor "COMMAND_FILTER"
    then some command_filter_type
    else if str_eq processor "IP_FILTER"
    then some ip_filter_type
    else if str_eq processor "FILE_WRITER"
    then some file_writer_type
    else if str_eq processor "REDIS_WRITER"
    then some redis_writer_type
    else if str_eq processor "ZEROMQ_WRITER"
    then some zero_mq_writer_type
    else none

-- adaptor.Record, as the filters use it: the command, the text of the remote IP, and, if the record
-- is a TransactionRecord, the encoded addresses of each of its outputs.
pub record Record (R : Type 0) : Type 0 where
  pub command : R → String
  pub remote_ip : R → String
  pub outputs : R → Option (List (List String))

-- The kind of a processor with its configuration
pub data Kind : Type 0 where
  address_filter : List String → Kind
  command_filter ip_filter : Assoc Bool → Kind
  dummy_filter : Kind
  writer : ProcessorType → Kind

-- A processor; `Q` names the processors.
pub record Processor (Q : Type 0) : Type 0 where
  pub kind : Kind
  pub next : List Q

-- m[k] for a map to bool: a missing key reads as false.
abbrev pub flag : Option Bool → Bool
flag none = false
flag (some b) = b

-- The loop `config[x] = true`
unfoldable pub set_all : List String → Assoc Bool → Assoc Bool
set_all [] config = config
set_all (x ∷ xs) config = set_all xs (Assoc.insert x true config)

-- The options of the constructors; on a processor of another kind an option does nothing.
pub data Setting : Type 0 where
  set_addresses set_commands set_ips : List String → Setting

unfoldable pub apply : Kind → Setting → Kind
unfolding set_all
apply (address_filter config) (set_addresses addresses) = address_filter addresses
apply (command_filter config) (set_commands cmds) = command_filter (set_all cmds config)
apply (ip_filter config) (set_ips ips) = ip_filter (set_all ips config)
apply kind _ = kind

module _ {Q : Type 0} where
  -- NewAddressFilter, NewCommandFilter, NewIPFilter, NewDummy
  unfoldable pub new_address_filter : List Setting → Processor Q
  unfolding apply
  new_address_filter settings = record {
    kind = foldl apply (address_filter []) settings;
    next = [];
  }

  unfoldable pub new_command_filter : List Setting → Processor Q
  unfolding apply
  new_command_filter settings = record {
    kind = foldl apply (command_filter []) settings;
    next = [];
  }

  unfoldable pub new_ip_filter : List Setting → Processor Q
  unfolding apply
  new_ip_filter settings = record { kind = foldl apply (ip_filter []) settings; next = [] }

  unfoldable pub new_dummy : List Setting → Processor Q
  unfolding apply
  new_dummy settings = record { kind = foldl apply dummy_filter settings; next = [] }

  -- AddNext
  unfoldable pub add_next : Processor Q → Q → Processor Q
  add_next pro next = record pro { next = pro.next ++ next ∷ [] }

-- HasAddress of records/record_transaction.go
unfoldable pub has_address : List (List String) → String → Bool
has_address outs addr = any (λ addrs. any (λ a. str_eq a addr) addrs) outs

abbrev valid_address : List String → Option (List (List String)) → Bool
valid_address config none = false
valid_address config (some outs) = any (has_address outs) config

module _ {R : Type 0} ⦃i : Record R⦄ where
  -- valid of each filter; a writer forwards nothing.
  unfoldable pub valid : Kind → R → Bool
  unfolding has_address
  valid (address_filter config) r = valid_address config (i.outputs r)
  valid (command_filter config) r = flag (Assoc.lookup (i.command r) config)
  valid (ip_filter config) r = flag (Assoc.lookup (i.remote_ip r) config)
  valid dummy_filter r = true
  valid (writer t) r = false

module _ {Q R : Type 0} where
  -- forward: the processors that the record is handed to, in order
  unfoldable pub forward : Processor Q → R → List (Q × R)
  forward pro r = map (λ q. (q, r)) pro.next

module _ {Q R : Type 0} ⦃i : Record R⦄ where
  -- What goProcess does with a record from its queue.
  unfoldable pub process : Processor Q → R → List (Q × R)
  unfolding valid forward
  process pro r = if valid pro.kind r then forward pro r else []
