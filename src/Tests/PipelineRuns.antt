-- ===== src/Tests/PipelineRuns.antt =====
-- Runs of the goroutines of processor/: a command filter before a file writer.
use passive_bitcoin.Prelude.{
  ℕ, ◌<◌, String, true, false, none, some, [], ◌∷◌, ◌≡◌, refl, inl, inr, str_eq, if◌then◌else◌,
  Bool-cases, arith, In, subst, ◌++◌, sym, ◌+◌, ◌≤◌, eq_iff,
}
use passive_bitcoin.Processor.{
  dummy_filter, Record, Processor, new_command_filter, set_commands, writer, file_writer_type,
  process,
}
use passive_bitcoin.Processor.Pipeline.{Net, Step, Reach, here, further, start}
use passive_bitcoin.Processor.Pipeline
use passive_bitcoin.Assoc
use passive_bitcoin.Processor.Pipeline.Balance.{outgoing, pending}
use passive_bitcoin.Processor.Pipeline.Flow.{Reach-flow}
use passive_bitcoin.Processor.Pipeline.Bounded.{Runs, done, more, potential, Runs-bounded}
use passive_bitcoin.Processor.Pipeline.Deadlock.{IsWaiting, IsDeadlocked, IsDeadlocked-Reach}
use passive_bitcoin.Processor.Pipeline.Progress.{is_own}
use passive_bitcoin.Processor.Routes.{each}

-- A record is named by its command.
instance unfoldable pub by_command : Record String
by_command = record { command = λ r. r; remote_ip = λ r. "203.0.113.7"; outputs = λ r. none }

abbrev pub paid : String
paid = "tx"

abbrev pub file : Processor String
file = record { kind = writer file_writer_type; next = [] }

abbrev pub txs : Processor String
txs = record (new_command_filter (set_commands ("tx" ∷ []) ∷ [])) { next = "file" ∷ [] }

abbrev graph : String → Processor String
graph q = if str_eq q "txs" then txs else file

abbrev rank : String → ℕ
rank q = if str_eq q "txs" then 1 else 0

graph-down : (p next : String) → In next (graph p).next → rank next < rank p
unfolding new_command_filter
graph-down p next m = elim (Bool-cases (str_eq p "txs")) [
  | inr e ↦ absurd (rw e at m)
  | inl e ↦ elim (rw e at m) [
    | inl is_file ↦ rw e (subst (λ n. rank n < 1) (sym is_file) (omega arith))
    | inr gone ↦ absurd gone
  ]
]

-- A peer gives the filter a record, the filter receives it and hands it to the writer.
abbrev pub one : Net String
one = record {
  workers = Pipeline.alter "txs" (Pipeline.enqueue paid) start.workers;
  log = record { source = none; target = "txs"; item = paid } ∷ [];
}

abbrev pub two : Net String
two = record one { workers = Pipeline.alter "txs" (Pipeline.receive txs paid) one.workers }

abbrev pub three : Net String
three = record {
  workers =
      Pipeline.alter "file" (Pipeline.enqueue paid)
        (Pipeline.alter "txs" (Pipeline.handed []) two.workers);
  log =
      record { source = none; target = "txs"; item = paid }
      ∷ record { source = some "txs"; target = "file"; item = paid }
      ∷ [];
}

abbrev pub four : Net String
four = record three { workers = Pipeline.alter "file" (Pipeline.receive file paid) three.workers }

Reach-one : Reach graph start one
Reach-one = further start start one (here start) (Pipeline.put start "txs" paid refl)

Reach-two : Reach graph start two
Reach-two = further start one two Reach-one (Pipeline.take one "txs" paid refl refl refl)

Reach-three : Reach graph start three
unfolding process new_command_filter Assoc.lookup Assoc.insert by_command
Reach-three = further start two three Reach-two (Pipeline.hand two "txs" "file" paid [] refl refl)

Reach-four : Reach graph start four
Reach-four = further start three four Reach-three (Pipeline.take three "file" paid refl refl refl)

Reach-flow_example :
    each (process file) (paid ∷ [])
    ≡ outgoing "file" three.log ++ pending file (three.workers "file")
Reach-flow_example = Reach-flow graph three "file" Reach-three

three_runs : (p : String) → (three.workers p).running ≡ true
three_runs p = elim (Bool-cases (str_eq "txs" p)) [
  | inl e ↦ elim (Bool-cases (str_eq "file" p)) [ inl f ↦ rw e (rw f) | inr f ↦ rw e (rw f) ]
  | inr e ↦ elim (Bool-cases (str_eq "file" p)) [ inl f ↦ rw e (rw f) | inr f ↦ rw e (rw f) ]
]

pub four_runs : (p : String) → (four.workers p).running ≡ true
four_runs p = elim (Bool-cases (str_eq "file" p)) [
  | inl e ↦ elim (Bool-cases (str_eq "txs" p)) [ inl f ↦ rw e (rw f) | inr f ↦ rw e (rw f) ]
  | inr e ↦ elim (Bool-cases (str_eq "txs" p)) [ inl f ↦ rw e (rw f) | inr f ↦ rw e (rw f) ]
]

four_queue : (p : String) → (four.workers p).queue ≡ none
four_queue p = elim (Bool-cases (str_eq "file" p)) [
  | inl e ↦ rw e
  | inr e ↦ elim (Bool-cases (str_eq "txs" p)) [ inl f ↦ rw e (rw f) | inr f ↦ rw e (rw f) ]
]

four_handing : (p : String) → (four.workers p).handing ≡ []
unfolding process
four_handing p = elim (Bool-cases (str_eq "file" p)) [
  | inl e ↦ rw e
  | inr e ↦ elim (Bool-cases (str_eq "txs" p)) [ inl f ↦ rw e (rw f) | inr f ↦ rw e (rw f) ]
]

four_closed : (p : String) → (four.workers p).closed ≡ false
four_closed p = elim (Bool-cases (str_eq "file" p)) [
  | inl e ↦ elim (Bool-cases (str_eq "txs" p)) [ inl f ↦ rw e (rw f) | inr f ↦ rw e (rw f) ]
  | inr e ↦ elim (Bool-cases (str_eq "txs" p)) [ inl f ↦ rw e (rw f) | inr f ↦ rw e (rw f) ]
]

pub four_rests :
    (net : String → Processor String) {t : Net String} (step : Step net four t)
    → is_own net step ≡ true
    → ⊥
four_rests net (Pipeline.put _ q r e) own = ground (arith, own)
four_rests net (Pipeline.take _ q r e e' e'') own = absurd (cc (e'', four_queue q))
four_rests net (Pipeline.hand _ q next r rest e e') own = absurd (cc (e, four_handing q))
four_rests net (Pipeline.close _ q e) own = ground (arith, own)
four_rests net (Pipeline.end _ q e e' e'') own = absurd (cc (e'', four_closed q))

-- The writer is stopped while a record is queued, and then the filter takes one.
abbrev kept : Net String
kept = record {
  workers = Pipeline.alter "file" (Pipeline.enqueue paid) start.workers;
  log = record { source = none; target = "file"; item = paid } ∷ [];
}

abbrev told : Net String
told = record kept { workers = Pipeline.alter "file" Pipeline.close_sig kept.workers }

abbrev gone : Net String
gone = record told { workers = Pipeline.alter "file" Pipeline.finish told.workers }

abbrev given : Net String
given = record {
  workers = Pipeline.alter "txs" (Pipeline.enqueue paid) gone.workers;
  log = gone.log ++ record { source = none; target = "txs"; item = paid } ∷ [];
}

abbrev stuck : Net String
stuck = record given { workers = Pipeline.alter "txs" (Pipeline.receive txs paid) given.workers }

Reach-stuck : Reach graph start stuck
Reach-stuck =
    further start given stuck
      (further start gone given
        (further start told gone
          (further start kept told
            (further start start kept (here start) (Pipeline.put start "file" paid refl))
            (Pipeline.close kept "file" refl))
          (Pipeline.end told "file" refl refl refl))
        (Pipeline.put gone "txs" paid refl))
      (Pipeline.take given "txs" paid refl refl refl)

abbrev OnlyTxs : String → Type 0
OnlyTxs q = q ≡ "txs"

stuck-IsDeadlocked : IsDeadlocked OnlyTxs stuck
unfolding process new_command_filter Assoc.lookup Assoc.insert by_command
stuck-IsDeadlocked q m = subst (IsWaiting OnlyTxs stuck) (sym m) (record {
  next = "file";
  item = paid;
  rest = [];
  kept = paid;
  waits = refl;
  runs = refl;
  full = refl;
  gone = inl refl;
})

abbrev stuck_stopped : Net String
stuck_stopped = record stuck { workers = Pipeline.alter "txs" Pipeline.close_sig stuck.workers }

IsDeadlocked-Reach_example :
    IsDeadlocked OnlyTxs stuck_stopped
    × ((q : String)
        → OnlyTxs q
        → ((stuck_stopped.workers q).running ≡ true)
          × ((stuck_stopped.workers q).handing ≡ (stuck.workers q).handing))
IsDeadlocked-Reach_example =
    IsDeadlocked-Reach graph OnlyTxs stuck stuck_stopped stuck-IsDeadlocked
      (further stuck stuck stuck_stopped (here stuck) (Pipeline.close stuck "txs" refl))

-- A filter that is its own next one waits for itself once a second record comes.
abbrev loop : String → Processor String
loop q = record { kind = dummy_filter; next = "txs" ∷ [] }

abbrev turned : Net String
turned = record one {
  workers = Pipeline.alter "txs" (Pipeline.receive (loop "txs") paid) one.workers;
}

abbrev jammed : Net String
jammed = record {
  workers = Pipeline.alter "txs" (Pipeline.enqueue paid) turned.workers;
  log = turned.log ++ record { source = none; target = "txs"; item = paid } ∷ [];
}

Reach-jammed : Reach loop start jammed
Reach-jammed =
    further start turned jammed
      (further start one turned
        (further start start one (here start) (Pipeline.put start "txs" paid refl))
        (Pipeline.take one "txs" paid refl refl refl))
      (Pipeline.put turned "txs" paid refl)

jammed-IsDeadlocked : IsDeadlocked OnlyTxs jammed
unfolding process
jammed-IsDeadlocked q m = subst (IsWaiting OnlyTxs jammed) (sym m) (record {
  next = "txs";
  item = paid;
  rest = [];
  kept = paid;
  waits = refl;
  runs = refl;
  full = refl;
  gone = inr refl;
})

-- The filter receives the record and hands it on, and the writer receives it.
three_moves : Runs graph ("txs" ∷ "file" ∷ []) one 3 four
unfolding process new_command_filter Assoc.lookup Assoc.insert by_command
three_moves =
    more one 2 three four
      (more one 1 two three
        (more one 0 one two (done one) (Pipeline.take one "txs" paid refl refl refl) refl
          (inl refl))
        (Pipeline.hand two "txs" "file" paid [] refl refl) refl (inl refl))
      (Pipeline.take three "file" paid refl refl refl) refl (inr (inl refl))

Runs-bounded_example :
    3 + potential graph rank ("txs" ∷ "file" ∷ []) four
    ≤ potential graph rank ("txs" ∷ "file" ∷ []) one
Runs-bounded_example =
    Runs-bounded graph rank ("txs" ∷ "file" ∷ []) one four 3
      (
        (λ m. elim m [ inl e ↦ ground (arith, eq_iff "file" "txs", e) | inr h ↦ absurd h ]),
        ((λ m. m), tt),
      )
      graph-down three_moves
