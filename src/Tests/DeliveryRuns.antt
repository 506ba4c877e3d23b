-- ===== src/Tests/DeliveryRuns.antt =====
-- A run of the processors that New of supervisor/supervisor.go builds for a filter before a writer.
use passive_bitcoin.Prelude.{
  ℕ, ◌<◌, String, ◌≡◌, refl, sym, arith, Bool-cases, inl, inr, [], ◌∷◌, In, str_eq, eq_iff,
  if◌then◌else◌, subst, some-injective,
}
use passive_bitcoin.Assoc
use passive_bitcoin.Processor.{process, new_command_filter}
use passive_bitcoin.Processor.Pipeline.{Reach, here, further, start}
use passive_bitcoin.Processor.Pipeline
use passive_bitcoin.Processor.Pipeline.Balance.{incoming, outgoing}
use passive_bitcoin.Processor.Routes.{each}
use passive_bitcoin.Supervisor.{Config, ProcessorConfig}
use passive_bitcoin.Supervisor.Build.{new}
use passive_bitcoin.Supervisor.Delivery.{graph, IsRanked, new-delivered}
use passive_bitcoin.Tests.{text_stringer}
use passive_bitcoin.Tests.SupervisorRuns.{lists}
use passive_bitcoin.Tests.SupervisorBuilds.{env, whole, Sup, got}
use passive_bitcoin.Tests.PipelineRuns.{
  by_command, paid, one, two, three, four, four_runs, four_rests,
}

abbrev filter_config : ProcessorConfig
filter_config = record lists { next = "file" ∷ [] }

abbrev writer_config : ProcessorConfig
writer_config = record lists { processor_type = "FILE_WRITER" }

abbrev chained : Config
chained = record whole { processor = ("txs", filter_config) ∷ ("file", writer_config) ∷ [] }

abbrev chained_sup : Sup
unfolding new
chained_sup = got (new env chained)

abbrev rank : String → ℕ
rank q = if str_eq q "txs" then 1 else 0

chained-IsRanked : IsRanked chained rank
unfolding Assoc.lookup
chained-IsRanked q c next found m = elim (Bool-cases (str_eq "txs" q)) [
  | inl own ↦
      let same = some-injective filter_config c (rw own at found) in
      elim (subst (λ (d : ProcessorConfig). In next d.next) (sym same) m) [
        | inl e ↦
            subst (λ n. rank n < rank q) (sym e)
              (subst (λ p. rank "file" < rank p) ((eq_iff "txs" q).0 own) (omega arith))
        | inr none_left ↦ absurd none_left
      ]
  | inr other ↦ elim (Bool-cases (str_eq "file" q)) [
    | inl own ↦
        let same = some-injective writer_config c (rw (other, own) at found) in
        absurd (subst (λ (d : ProcessorConfig). In next d.next) (sym same) m)
    | inr neither ↦ absurd (cc (rw (other, neither) at found))
  ]
]

way : Reach (graph chained_sup) start four
unfolding new Assoc.insert Assoc.lookup process new_command_filter by_command
way =
    further start three four
      (further start two three
        (further start one two
          (further start start one (here start) (Pipeline.put start "txs" paid refl))
          (Pipeline.take one "txs" paid refl refl refl))
        (Pipeline.hand two "txs" "file" paid [] refl refl))
      (Pipeline.take three "file" paid refl refl refl)

new-delivered_example :
    outgoing "txs" four.log ≡ each (process (graph chained_sup "txs")) (incoming "txs" four.log)
unfolding new Assoc.insert
new-delivered_example =
    new-delivered env chained chained_sup rank four refl chained-IsRanked way four_runs
      (λ moves. four_rests (graph chained_sup) moves.1 moves.2) "txs"
