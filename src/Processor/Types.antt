-- ===== src/Processor/Types.antt =====
-- ParseType of processor/processor_default.go.
use passive_bitcoin.Prelude.{String, ◌≡◌, ◌↔◌, refl, some, arith, eq_iff, subst, sym}
use passive_bitcoin.Processor.{
  ProcessorType, address_filter_type, command_filter_type, ip_filter_type, file_writer_type,
  redis_writer_type, zero_mq_writer_type, parse_type,
}

-- The configured text of each type.
abbrev pub type_text : ProcessorType → String
type_text address_filter_type = "ADDRESS_FILTER"
type_text command_filter_type = "COMMAND_FILTER"
type_text ip_filter_type = "IP_FILTER"
type_text file_writer_type = "FILE_WRITER"
type_text redis_writer_type = "REDIS_WRITER"
type_text zero_mq_writer_type = "ZEROMQ_WRITER"

parse_sound : (s : String) (t : ProcessorType) → parse_type s ≡ some t → s ≡ type_text t
unfolding parse_type
parse_sound s t h = ground (
  arith,
  eq_iff s "ADDRESS_FILTER",
  eq_iff s "COMMAND_FILTER",
  eq_iff s "IP_FILTER",
  eq_iff s "FILE_WRITER",
  eq_iff s "REDIS_WRITER",
  eq_iff s "ZEROMQ_WRITER",
)

parse-type_text : (t : ProcessorType) → parse_type (type_text t) ≡ some t
unfolding parse_type
parse-type_text address_filter_type = refl
parse-type_text command_filter_type = refl
parse-type_text ip_filter_type = refl
parse-type_text file_writer_type = refl
parse-type_text redis_writer_type = refl
parse-type_text zero_mq_writer_type = refl

-- ParseType returns a type exactly for that type's text, and an error for every other text.
pub parse_type_iff : (s : String) (t : ProcessorType) → (parse_type s ≡ some t) ↔ (s ≡ type_text t)
parse_type_iff s t =
    (parse_sound s t, λ e. subst (λ x. parse_type x ≡ some t) (sym e) (parse-type_text t))
